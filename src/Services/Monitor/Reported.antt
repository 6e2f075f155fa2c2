-- ===== src/Services/Monitor/Reported.antt =====
-- The data that the callbacks get are those of started children.
use freebsd_pkg_plugins.Base.{
  ℕ, ◌-◌, ◌≡◌, refl, sym, ap, ◌∙◌, Bool, Bool-cases, true, false, ◌||◌, none, some, List, [], ◌∷◌,
  ◌++◌, ◌==◌, arith, inl, inr, Option-cases,
}
use mathlib.Core.Option.{some-injective}
use freebsd_pkg_plugins.Services.Monitor.{
  Child, Children, ProcessMonitor, KernelEvent, child_exit, other_filter, interrupted, kevent_error,
  Callback, exited_call, hanging_call, find_child, set_exited, unregister_pid, await_loop, Start,
  argv_failed, fork_failed, forked, child_create, register_pid, process_monitor_exec, hanging_loop,
  process_monitor_await,
}
use freebsd_pkg_plugins.Services.Monitor.Once.{unregister_pid-found}

abbrev pub started : ℕ → Children → Bool
started name [] = false
started name ((p, c) ∷ cs) = (name == c.data_) || started name cs

abbrev pub reported : ℕ → List Callback → Bool
reported name [] = false
reported name (exited_call p st d ∷ cs) = (name == d) || reported name cs
reported name (hanging_call p d ∷ cs) = (name == d) || reported name cs

find_child-head :
    (pid p : ℕ) (x : Child) (cs : Children)
    → pid == p ≡ true
    → find_child pid ((p, x) ∷ cs) ≡ some x
find_child-head pid p x cs e = rw e refl

started-append :
    (name : ℕ) (a b : Children) → started name (a ++ b) ≡ (started name a || started name b)
started-append name [] b = refl
started-append name (x ∷ a) b = ground (arith, started-append name a b)

reported-append :
    (name : ℕ) (a b : List Callback) → reported name (a ++ b) ≡ (reported name a || reported name b)
reported-append name [] b = refl
reported-append name (exited_call p st d ∷ a) b = ground (arith, reported-append name a b)
reported-append name (hanging_call p d ∷ a) b = ground (arith, reported-append name a b)

pub process_monitor_exec-started :
    (name d : ℕ) (pm : ProcessMonitor) (s : Start)
    → name == d ≡ false
    → started name pm.children ≡ false
    → started name (process_monitor_exec pm s d).1.children ≡ false
unfolding process_monitor_exec register_pid child_create
process_monitor_exec-started name d pm argv_failed other new = new
process_monitor_exec-started name d pm fork_failed other new = new
process_monitor_exec-started name d pm (forked pid true m) other new = new
process_monitor_exec-started name d pm (forked pid false true) other new = new
process_monitor_exec-started name d pm (forked pid false false) other new =
    elim (Option-cases (find_child pid pm.children)) [
      | inl e ↦ rw e (ground (arith, started-append name pm.children ((pid, child_create d) ∷ [])))
      | inr (c, e) ↦ rw e new
    ]

started-set_exited :
    (name pid status : ℕ) (cs : Children)
    → started name (set_exited pid status cs) ≡ started name cs
unfolding set_exited
started-set_exited name pid status [] = refl
started-set_exited name pid status ((p, c) ∷ cs) = elim (Bool-cases (pid == p)) [
  | inl e ↦ rw e refl
  | inr e ↦ rw e (ap (λ b. (name == c.data_) || b) (started-set_exited name pid status cs))
]

started-find_child :
    (name pid : ℕ) (cs : Children) (c : Child)
    → started name cs ≡ false
    → find_child pid cs ≡ some c
    → name == c.data_ ≡ false
started-find_child name pid [] c new found = cc
started-find_child name pid ((p, x) ∷ cs) c new found = elim (Bool-cases (pid == p)) [
  | inl e ↦
      let same = some-injective x c (sym (find_child-head pid p x cs e) ∙ found) in
      ap (λ y. name == y.data_) (sym same) ∙ ground arith
  | inr e ↦ started-find_child name pid cs c (ground arith) (ground arith)
]

unregister_pid-missing :
    (pm : ProcessMonitor) (pid status : ℕ)
    → find_child pid pm.children ≡ none
    → unregister_pid pm pid status
      ≡ (record pm { active_children_count = pm.active_children_count - 1 }, [])
unfolding unregister_pid
unregister_pid-missing pm pid status missing = rw (unregister_pid, missing) refl

await_loop-reported :
    (name : ℕ) (es : List KernelEvent) (pm : ProcessMonitor)
    → started name pm.children ≡ false
    → (reported name (await_loop es pm).1 ≡ false)
      × (started name (await_loop es pm).0.children ≡ false)
unfolding await_loop
await_loop-reported name [] pm new = (refl, new)
await_loop-reported name (child_exit pid status ∷ es) pm new =
    elim (Bool-cases (pm.active_children_count == 0)) [
      | inl e ↦ rw e (refl, new)
      | inr e ↦ elim (Option-cases (find_child pid pm.children)) [
        | inl missing ↦
            rw (e, unregister_pid-missing pm pid status missing) (await_loop-reported name es _ new)
        | inr (c, found) ↦
            let rest =
              await_loop-reported name es _
                (started-set_exited name pid status pm.children ∙ new) in
            rw (e, unregister_pid-found pm pid status c found)
              (rw (started-find_child name pid pm.children c new found) (rest.0), rest.1)
      ]
    ]
await_loop-reported name (other_filter ∷ es) pm new =
    elim (Bool-cases (pm.active_children_count == 0)) [
      | inl e ↦ rw e (refl, new)
      | inr e ↦ rw e (await_loop-reported name es pm new)
    ]
await_loop-reported name (interrupted ∷ es) pm new =
    elim (Bool-cases (pm.active_children_count == 0)) [
      | inl e ↦ rw e (refl, new)
      | inr e ↦ rw e (await_loop-reported name es pm new)
    ]
await_loop-reported name (kevent_error ∷ es) pm new = (refl, new)

hanging_loop-reported :
    (kill_failed : ℕ → Bool) (name : ℕ) (cs : Children)
    → started name cs ≡ false
    → reported name (hanging_loop kill_failed cs) ≡ false
unfolding hanging_loop
hanging_loop-reported kill_failed name [] new = refl
hanging_loop-reported kill_failed name ((p, c) ∷ cs) new =
    ground (arith, hanging_loop-reported kill_failed name cs)

pub process_monitor_await-reported :
    (name : ℕ) (es : List KernelEvent) (kill_failed : ℕ → Bool) (pm : ProcessMonitor)
    → started name pm.children ≡ false
    → reported name (process_monitor_await es kill_failed pm).1 ≡ false
unfolding process_monitor_await
process_monitor_await-reported name es kill_failed pm new =
    let (calls, after) = await_loop-reported name es pm new in
    let children = (await_loop es pm).0.children in
    let hanging = hanging_loop-reported kill_failed name children after in
    ground (arith, reported-append name (await_loop es pm).1 (hanging_loop kill_failed children))
