-- ===== src/History/Recorded.antt =====
-- What the hook of plugin_history.c commits.
use freebsd_pkg_plugins.Base.{
  ℕ, ◌≡◌, refl, subst, sym, ap, ◌∙◌, Bool, true, false, Option, none, some, List, [], ◌∷◌, ◌++◌,
  append-nil, append_assoc,
}
use mathlib.Core.Option
use mathlib.Core.Option.{some-injective}
use freebsd_pkg_plugins.History.{
  JobType, operation_of, Job, Line, Fetched, fetch_error, fetch_empty, fetch_row, lines_loop,
  Recording, nothing_recorded, commit_lines, handle_hooks,
}

abbrev line_for : ℕ → Job → ℕ → Line
line_for command_id job operation = record {
  texts = job.package_texts;
  operation = operation;
  command_id = command_id;
}

-- the lines of the jobs, one for each, in order
abbrev pub lines_of : JobType → (command_id : ℕ) → List Job → Option (List Line)
lines_of job_type command_id [] = some []
lines_of job_type command_id (job ∷ jobs) = elim (operation_of job_type job.solved_install) [
  | none ↦ none
  | some operation ↦
      Option.map
        (λ ls.
          record { texts = job.package_texts; operation = operation; command_id = command_id } ∷ ls)
        (lines_of job_type command_id jobs)
]

-- with these lines before, a loop that did not fail inserted a line for each job
abbrev Complete : List Line → Option (List Line) → Option (Fetched × List Line) → Type 0
Complete before all none = Unit {0}
Complete before all (some (fetch_error, lines)) = Unit {0}
Complete before all (some (fetch_empty, lines)) = Option.map (λ ls. before ++ ls) all ≡ some lines
Complete before all (some (fetch_row, lines)) = Option.map (λ ls. before ++ ls) all ≡ some lines

map_more :
    (before : List Line) (line : Line) (all : Option (List Line))
    → Option.map (λ ls. before ++ ls) (Option.map (λ ls. line ∷ ls) all)
      ≡ Option.map (λ ls. (before ++ line ∷ []) ++ ls) all
map_more before line none = refl
map_more before line (some ls) = ap some (sym (append_assoc before (line ∷ []) ls))

Complete-more :
    (before : List Line) (line : Line) (all : Option (List Line)) (r : Option (Fetched × List Line))
    → Complete (before ++ line ∷ []) all r
    → Complete before (Option.map (λ ls. line ∷ ls) all) r
Complete-more before line all none h = tt
Complete-more before line all (some (fetch_error, lines)) h = tt
Complete-more before line all (some (fetch_empty, lines)) h = map_more before line all ∙ h
Complete-more before line all (some (fetch_row, lines)) h = map_more before line all ∙ h

-- one insertion, and what follows it
inserted :
    (before : List Line) (line : Line) (f : Fetched) (all : Option (List Line))
    (after_empty after_row : Option (Fetched × List Line))
    → Complete (before ++ line ∷ []) all after_empty
    → Complete (before ++ line ∷ []) all after_row
    → Complete before (Option.map (λ ls. line ∷ ls) all) (elim f [
      | fetch_error ↦ some (fetch_error, before)
      | fetch_empty ↦ after_empty
      | fetch_row ↦ after_row
    ])
inserted before line fetch_error all a b h k = tt
inserted before line fetch_empty all a b h k = Complete-more before line all a h
inserted before line fetch_row all a b h k = Complete-more before line all b k

module _ (insert : List Line → Line → Fetched) (job_type : JobType) (command_id : ℕ) where
  lines_loop-Complete :
      (status : Fetched) (before : List Line) (jobs : List Job)
      → Complete before
          (lines_of job_type command_id jobs)
          (lines_loop insert job_type command_id status before jobs)
  unfolding lines_loop
  lines_loop-Complete fetch_error before [] = tt
  lines_loop-Complete fetch_empty before [] = ap some (append-nil before)
  lines_loop-Complete fetch_row before [] = ap some (append-nil before)
  lines_loop-Complete status before (job ∷ jobs) =
      by_operation (operation_of job_type job.solved_install)
        (λ st b. lines_loop-Complete st b jobs)
    where
      by_operation :
          (o : Option ℕ)
          → ((st : Fetched) (b : List Line)
              → Complete b
                  (lines_of job_type command_id jobs)
                  (lines_loop insert job_type command_id st b jobs))
          → Complete before
              (elim o [
                | none ↦ none
                | some operation ↦
                    Option.map
                      (λ ls. line_for command_id job operation ∷ ls)
                      (lines_of job_type command_id jobs)
              ])
              (elim o [
                | none ↦ none
                | some operation ↦ elim (insert before (line_for command_id job operation)) [
                  | fetch_error ↦ some (fetch_error, before)
                  | fetch_empty ↦
                      lines_loop insert job_type command_id fetch_empty
                        (before ++ line_for command_id job operation ∷ [])
                        jobs
                  | fetch_row ↦
                      lines_loop insert job_type command_id fetch_row
                        (before ++ line_for command_id job operation ∷ [])
                        jobs
                ]
              ])
      by_operation none rest = tt
      by_operation (some operation) rest =
          let line = line_for command_id job operation in
          inserted before line (insert before line) (lines_of job_type command_id jobs) _ _
            (rest fetch_empty (before ++ line ∷ [])) (rest fetch_row (before ++ line ∷ []))

-- what the hook leaves is all or nothing
abbrev pub AllOrNothing : Option (List Line) → Recording → Type 0
AllOrNothing all r =
    (r.succeeded ≡ true → r.committed ≡ all) × (r.succeeded ≡ false → r.committed ≡ none)

map_id : (all : Option (List Line)) → Option.map (λ ls. [] ++ ls) all ≡ all
map_id none = refl
map_id (some ls) = refl

commit_lines-AllOrNothing :
    (commits : Bool) (all : Option (List Line)) (r : Fetched × List Line)
    → Complete [] all (some r)
    → AllOrNothing all (commit_lines commits r)
unfolding commit_lines
commit_lines-AllOrNothing true all (fetch_empty, lines) h = (λ e. sym h ∙ map_id all, λ e. cc)
commit_lines-AllOrNothing false all (fetch_empty, lines) h = (λ e. cc, λ e. refl)
commit_lines-AllOrNothing commits all (fetch_error, lines) h = (λ e. cc, λ e. refl)
commit_lines-AllOrNothing commits all (fetch_row, lines) h = (λ e. cc, λ e. refl)

-- Where the hook fails no assertion: if it answers EPKG_OK, it has committed one line for each job, in
-- order, with the operation of the job and the identifier read after the command was inserted; if not,
-- it has committed nothing. This holds whatever the insertion of the command itself answered.
pub handle_hooks-AllOrNothing :
    (insert : List Line → Line → Fetched) (ready : Bool) (created : Fetched) (last_id : ℕ)
    (commits : Bool) (job_type : JobType) (jobs : List Job) (r : Recording)
    → handle_hooks insert ready created last_id commits job_type jobs ≡ some r
    → AllOrNothing (lines_of job_type last_id jobs) r
unfolding handle_hooks
handle_hooks-AllOrNothing insert false created last_id commits job_type jobs r e =
    subst (AllOrNothing (lines_of job_type last_id jobs)) (some-injective nothing_recorded r e)
      (λ e. cc, λ e. refl)
handle_hooks-AllOrNothing insert true created last_id commits job_type jobs r e =
    looped (lines_loop insert job_type last_id fetch_empty [] jobs)
      (lines_loop-Complete insert job_type last_id fetch_empty [] jobs) e
  where
    looped :
        (o : Option (Fetched × List Line))
        → Complete [] (lines_of job_type last_id jobs) o
        → elim o [ none ↦ none | some l ↦ some (commit_lines commits l) ] ≡ some r
        → AllOrNothing (lines_of job_type last_id jobs) r
    looped none h e = cc
    looped (some l) h e =
        subst (AllOrNothing (lines_of job_type last_id jobs))
          (some-injective (commit_lines commits l) r e) (commit_lines-AllOrNothing commits _ l h)
