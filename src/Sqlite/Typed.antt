-- ===== src/Sqlite/Typed.antt =====
-- Which format strings and arguments sqlite_stmt_bind of sqlite/sqlite.c takes without reading an
-- argument as another type than the one it has.
use freebsd_pkg_plugins.Base.{
  length, ℕ, ◌+◌, ◌≡◌, refl, Bool, true, false, ◌&&◌, ◌||◌, Option, none, some, List, [], ◌∷◌, ◌==◌,
  if◌then◌else◌, Bool-cases, arith, inl, inr, ap, ◌∙◌,
}
use mathlib.Core.Option
use freebsd_pkg_plugins.Sqlite.Binds.{
  BindType, Argument, int_argument, int64_argument, string_argument, Bound, bound_int, bound_int64,
  bound_text, misread, bind_type_of, input_bind, bind_loop, statement_bind,
}

unfoldable is_read : Bound → Bool
is_read (misread t a) = false
is_read _ = true

unfoldable all_read : List (ℕ × Bound) → Bool
unfolding is_read
all_read [] = true
all_read ((n, b) ∷ bs) = is_read b && all_read bs

-- the parameters bound, if each argument is read as the type it has
unfoldable pub clean : Option (List (ℕ × Bound)) → Option (List (ℕ × Bound))
unfolding all_read
clean none = none
clean (some bs) = if all_read bs then some bs else none

-- What the letter of a format string makes of an argument of its type: `b` and `i` stand for an
-- `int`, `I` and `t` for 64 bits, `s` for a text.
unfoldable pub asked : (letter : ℕ) → Argument → Option Bound
asked c (int_argument n) = if c == 98 || c == 105 then some (bound_int n) else none
asked c (int64_argument n) = if c == 73 || c == 116 then some (bound_int64 n) else none
asked c (string_argument s) = if c == 115 then some (bound_text s) else none

-- the arguments as the letters ask for them, numbered from the given number on
unfoldable pub asked_from : (n : ℕ) → List ℕ → List Argument → Option (List (ℕ × Bound))
unfolding asked
asked_from n [] args = some []
asked_from n (c ∷ letters) [] = none
asked_from n (c ∷ letters) (a ∷ args) =
    let rest = asked_from (n + 1) letters args in
    elim (asked c a) [ none ↦ none | some b ↦ Option.map (λ bs. (n, b) ∷ bs) rest ]

-- the binding of one argument
unfoldable bound_at : ℕ → Argument → Option Bound
unfolding bind_type_of input_bind
bound_at c a = elim (bind_type_of c) [ none ↦ none | some t ↦ input_bind t a ]

unfoldable read_one : Option Bound → Option Bound
unfolding is_read
read_one none = none
read_one (some b) = if is_read b then some b else none

bound_at-asked : (c : ℕ) (a : Argument) → read_one (bound_at c a) ≡ asked c a
unfolding bound_at bind_type_of input_bind read_one is_read asked
bound_at-asked c (int_argument n) = ground arith
bound_at-asked c (int64_argument n) = ground arith
bound_at-asked c (string_argument s) = ground arith

regroup :
    (n : ℕ) (a : Argument) (r : Option (List (ℕ × Bound))) (o : Option BindType)
    → elim o as (λ _. Option (List (ℕ × Bound))) [
      | none ↦ none
      | some t ↦ elim (input_bind t a) [ none ↦ none | some b ↦ Option.map (λ bs. (n, b) ∷ bs) r ]
    ]
      ≡ elim (elim o as (λ _. Option Bound) [ none ↦ none | some t ↦ input_bind t a ])
          as (λ _. Option (List (ℕ × Bound))) [
            | none ↦ none
            | some b ↦ Option.map (λ bs. (n, b) ∷ bs) r
          ]
regroup n a r none = refl
regroup n a r (some t) = refl

bind_loop-cons :
    (n c : ℕ) (cs : List ℕ) (a : Argument) (args : List Argument)
    → bind_loop n (c ∷ cs) (a ∷ args) ≡ elim (bound_at c a) [
      | none ↦ none
      | some b ↦ Option.map (λ bs. (n, b) ∷ bs) (bind_loop (n + 1) cs args)
    ]
unfolding bind_loop bound_at
bind_loop-cons n c cs a args = regroup n a (bind_loop (n + 1) cs args) (bind_type_of c)

-- one more parameter keeps a clean list clean exactly if it is read
clean-cons :
    (n : ℕ) (b : Option Bound) (r : Option (List (ℕ × Bound)))
    → clean (elim b [ none ↦ none | some x ↦ Option.map (λ bs. (n, x) ∷ bs) r ])
      ≡ elim (read_one b) [ none ↦ none | some x ↦ Option.map (λ bs. (n, x) ∷ bs) (clean r) ]
unfolding clean all_read read_one is_read
clean-cons n none r = refl
clean-cons n (some x) none = ground arith
clean-cons n (some x) (some bs) = ground arith

asked_from-cons :
    (n c : ℕ) (cs : List ℕ) (a : Argument) (args : List Argument)
    → clean (bind_loop (n + 1) cs args) ≡ asked_from (n + 1) cs args
    → clean (bind_loop n (c ∷ cs) (a ∷ args)) ≡ asked_from n (c ∷ cs) (a ∷ args)
unfolding asked_from
asked_from-cons n c cs a args rest =
    ap clean (bind_loop-cons n c cs a args)
    ∙ (clean-cons n (bound_at c a) (bind_loop (n + 1) cs args)
        ∙ (ap
              (λ o. elim o as (λ _. Option (List (ℕ × Bound))) [
                | none ↦ none
                | some x ↦ Option.map (λ bs. (n, x) ∷ bs) (clean (bind_loop (n + 1) cs args))
              ])
              (bound_at-asked c a)
            ∙ ap
                (λ r. elim (asked c a) as (λ _. Option (List (ℕ × Bound))) [
                  | none ↦ none
                  | some x ↦ Option.map (λ bs. (n, x) ∷ bs) r
                ])
                rest))

bind_loop-asked :
    (n : ℕ) (letters : List ℕ) (args : List Argument)
    → clean (bind_loop n letters args) ≡ asked_from n letters args
unfolding bind_loop asked_from clean all_read
bind_loop-asked n [] args = refl
bind_loop-asked n (c ∷ letters) [] = refl
bind_loop-asked n (c ∷ letters) (a ∷ args) =
    asked_from-cons n c letters a args (bind_loop-asked (n + 1) letters args)

-- A statement is bound without an argument that is read as another type exactly if it has as many
-- parameters as there are letters, and each letter is one that asks for the type of its argument;
-- the arguments are then bound as they are, to the parameters from 1 on, in order.
pub statement_bind-asked :
    (parameters : ℕ) (letters : List ℕ) (args : List Argument)
    → clean (statement_bind parameters letters args)
      ≡ (if length letters == parameters then asked_from 1 letters args else none)
unfolding statement_bind clean
statement_bind-asked parameters letters args = elim (Bool-cases (length letters == parameters)) [
  | inl e ↦ rw e (bind_loop-asked 1 letters args)
  | inr e ↦ rw e refl
]
