-- ===== src/History/Options/Asked.antt =====
-- Which operations and which search the options of the command `history` ask for.
use freebsd_pkg_plugins.Base.{
  or_assoc, or_false, ℕ, ◌+◌, ◌≡◌, refl, sym, ap, ◌∙◌, subst, ◌&&◌, Bool, true, false, ◌||◌, Option,
  none, some, List, [], ◌∷◌, ◌==◌, if◌then◌else◌, arith,
}
use freebsd_pkg_plugins.History.{
  QueryOptions, HistoryStatement, query_options_init, stmt_search_line_exact,
  stmt_search_line_exact_ci, stmt_search_line_glob,
}
use freebsd_pkg_plugins.History.Options.{
  OptionChar, option_delete, option_install, option_upgrade, option_case_sensitive, option_glob,
  option_origin, option_limit, option_from, option_to, option_unknown, or_operation, Parsed,
  parsed_options, take_option, options_loop, all_if_none, parse_options,
}

-- the option is known, and its argument not refused
abbrev pub accepts : OptionChar → Bool
accepts (option_limit none) = false
accepts (option_from none) = false
accepts (option_to none) = false
accepts option_unknown = false
accepts _ = true

abbrev pub accepted : List OptionChar → Bool
accepted [] = true
accepted (c ∷ cs) = accepts c && accepted cs

abbrev pub is_install : OptionChar → Bool
is_install option_install = true
is_install _ = false

abbrev pub is_delete : OptionChar → Bool
is_delete option_delete = true
is_delete _ = false

abbrev pub is_upgrade : OptionChar → Bool
is_upgrade option_upgrade = true
is_upgrade _ = false

abbrev pub any_option : (OptionChar → Bool) → List OptionChar → Bool
any_option f [] = false
any_option f (c ∷ cs) = f c || any_option f cs

-- the set of the operations as a number
abbrev pub operations_of : (installs deletes upgrades : Bool) → ℕ
operations_of installs deletes upgrades =
    (if installs then 1 else 0) + (if deletes then 2 else 0) + (if upgrades then 4 else 0)

abbrev pub search_of : OptionChar → Option HistoryStatement
search_of option_case_sensitive = some stmt_search_line_exact
search_of option_glob = some stmt_search_line_glob
search_of _ = none

-- what the last of the options C and g asks for
abbrev pub last_search : List OptionChar → Option HistoryStatement
last_search [] = none
last_search (c ∷ cs) = elim (last_search cs) [ some s ↦ some s | none ↦ search_of c ]

abbrev pub or_else : HistoryStatement → Option HistoryStatement → HistoryStatement
or_else s none = s
or_else s (some t) = t

-- What the options ask for, the operations asked for before included.
abbrev Asks :
    (installs deletes upgrades : Bool) → HistoryStatement → List OptionChar → Parsed → Type 0
Asks i d u s cs r =
    (q : QueryOptions) × (r ≡ parsed_options q)
    × (q.operations
        ≡ operations_of (i || any_option is_install cs) (d || any_option is_delete cs)
            (u || any_option is_upgrade cs))
    × (q.statement ≡ or_else s (last_search cs))

or_else-last :
    (s : HistoryStatement) (o p : Option HistoryStatement)
    → or_else (or_else s o) p ≡ or_else s (elim p [ some t ↦ some t | none ↦ o ])
or_else-last s o none = refl
or_else-last s o (some t) = refl

-- one option more in front
Asks-more :
    (i d u : Bool) (s : HistoryStatement) (c : OptionChar) (cs : List OptionChar) (r : Parsed)
    → Asks (i || is_install c) (d || is_delete c) (u || is_upgrade c) (or_else s (search_of c)) cs r
    → Asks i d u s (c ∷ cs) r
Asks-more i d u s c cs r (q, parsed, operations, statement) = (
  q,
  parsed,
  operations ∙ (λ t.
      operations_of (or_assoc i (is_install c) (any_option is_install cs) t)
        (or_assoc d (is_delete c) (any_option is_delete cs) t)
        (or_assoc u (is_upgrade c) (any_option is_upgrade cs) t)),
  statement ∙ or_else-last s (search_of c) (last_search cs),
)

or_true : (a : Bool) → (a || true) ≡ true
or_true true = refl
or_true false = refl

none_more :
    (i d u : Bool) → operations_of i d u ≡ operations_of (i || false) (d || false) (u || false)
none_more i d u = sym (λ t. operations_of (or_false i t) (or_false d t) (or_false u t))

or_operation-of :
    (i d u : Bool)
    → (or_operation (operations_of i d u) 1 ≡ operations_of true d u)
      × (or_operation (operations_of i d u) 2 ≡ operations_of i true u)
      × (or_operation (operations_of i d u) 4 ≡ operations_of i d true)
unfolding or_operation
or_operation-of true true true = (refl, refl, refl)
or_operation-of true true false = (refl, refl, refl)
or_operation-of true false true = (refl, refl, refl)
or_operation-of true false false = (refl, refl, refl)
or_operation-of false true true = (refl, refl, refl)
or_operation-of false true false = (refl, refl, refl)
or_operation-of false false true = (refl, refl, refl)
or_operation-of false false false = (refl, refl, refl)

-- an accepted option adds what it asks for
taken :
    (i d u : Bool) (qo : QueryOptions) (c : OptionChar)
    → qo.operations ≡ operations_of i d u
    → accepts c ≡ true
    → (q : QueryOptions) × (take_option qo c ≡ parsed_options q)
      × (q.operations ≡ operations_of (i || is_install c) (d || is_delete c) (u || is_upgrade c))
      × (q.statement ≡ or_else qo.statement (search_of c))
unfolding take_option
taken i d u qo option_delete e fine = (
  record qo { operations = or_operation qo.operations 2 },
  refl,
  ap (λ n. or_operation n 2) e
      ∙ ((or_operation-of i d u).1
          ∙ sym (λ t. operations_of (or_false i t) (or_true d t) (or_false u t))),
  refl,
)
taken i d u qo option_install e fine = (
  record qo { operations = or_operation qo.operations 1 },
  refl,
  ap (λ n. or_operation n 1) e
      ∙ ((or_operation-of i d u).0
          ∙ sym (λ t. operations_of (or_true i t) (or_false d t) (or_false u t))),
  refl,
)
taken i d u qo option_upgrade e fine = (
  record qo { operations = or_operation qo.operations 4 },
  refl,
  ap (λ n. or_operation n 4) e
      ∙ ((or_operation-of i d u).2
          ∙ sym (λ t. operations_of (or_false i t) (or_false d t) (or_true u t))),
  refl,
)
taken i d u qo option_case_sensitive e fine =
    (record qo { statement = stmt_search_line_exact }, refl, e ∙ none_more i d u, refl)
taken i d u qo option_glob e fine =
    (record qo { statement = stmt_search_line_glob }, refl, e ∙ none_more i d u, refl)
taken i d u qo option_origin e fine =
    (record qo { use_origin = true }, refl, e ∙ none_more i d u, refl)
taken i d u qo (option_limit (some n)) e fine =
    (record qo { limit = n }, refl, e ∙ none_more i d u, refl)
taken i d u qo (option_limit none) e fine = cc
taken i d u qo (option_from (some t)) e fine =
    (record qo { from = t }, refl, e ∙ none_more i d u, refl)
taken i d u qo (option_from none) e fine = cc
taken i d u qo (option_to (some t)) e fine = (record qo { to = t }, refl, e ∙ none_more i d u, refl)
taken i d u qo (option_to none) e fine = cc
taken i d u qo option_unknown e fine = cc

options_loop-taken :
    (qo q : QueryOptions) (c : OptionChar) (cs : List OptionChar)
    → take_option qo c ≡ parsed_options q
    → options_loop qo (c ∷ cs) ≡ options_loop q cs
unfolding options_loop
options_loop-taken qo q c cs took = rw (options_loop, took) refl

options_loop-Asks :
    (i d u : Bool) (qo : QueryOptions) (cs : List OptionChar)
    → qo.operations ≡ operations_of i d u
    → accepted cs ≡ true
    → Asks i d u qo.statement cs (options_loop qo cs)
unfolding options_loop
options_loop-Asks i d u qo [] e fine = (qo, refl, e ∙ none_more i d u, refl)
options_loop-Asks i d u qo (c ∷ cs) e fine =
    let (q, took, operations, statement) = taken i d u qo c e (ground arith) in
    subst (Asks i d u qo.statement (c ∷ cs)) (sym (options_loop-taken qo q c cs took)) (
      Asks-more i d u qo.statement c cs (options_loop q cs) (
        subst
          (λ s.
            Asks (i || is_install c) (d || is_delete c) (u || is_upgrade c) s cs
              (options_loop q cs))
          statement
          (options_loop-Asks (i || is_install c) (d || is_delete c) (u || is_upgrade c) q cs
            operations (ground arith))))

-- the operations asked for, or all where none is
abbrev pub requested : List OptionChar → ℕ
requested cs =
    let asked =
      operations_of (any_option is_install cs) (any_option is_delete cs)
        (any_option is_upgrade cs) in
    if asked == 0 then 7 else asked

-- Options that are known, with arguments that are accepted, give a query: for the operations that one
-- of them asks for, each once, or for all three where none does; and with the search of the last of
-- the options C and g, or the one up to case where there is none.
pub parse_options-asked :
    (now : ℕ) (cs : List OptionChar)
    → accepted cs ≡ true
    → (q : QueryOptions) × (parse_options (query_options_init now) cs ≡ parsed_options q)
      × (q.operations ≡ requested cs)
      × (q.statement ≡ or_else stmt_search_line_exact_ci (last_search cs))
unfolding parse_options query_options_init
parse_options-asked now cs fine =
    let (q, parsed, operations, statement) =
      options_loop-Asks false false false (query_options_init now) cs refl fine in
    (
      all_if_none q,
      rw (parse_options, parsed) refl,
      ap (λ n. if n == 0 then 7 else n) operations,
      statement,
    )
