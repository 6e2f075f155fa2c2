-- ===== src/Services/RcOrder/Relations.antt =====
-- The relations between the rc.d scripts in plugins/services/services_db.c, once all the scripts are
-- parsed: who is whose child, and which scripts are roots.
--
-- A script is its name, by which compare_scripts tells scripts apart; `provides` is the table of
-- that name, with the scripts that provide a name.
use freebsd_pkg_plugins.Base.{
  ℕ, ◌≡◌, refl, ap, sym, ◌∙◌, Bool, true, false, ◌||◌, ◌&&◌, Option, none, some, List, [], ◌∷◌,
  ◌++◌, ◌==◌, ==→eq, arith, if◌then◌else◌, Bool-cases, inl, inr,
}
use freebsd_pkg_plugins.Services.RcOrder.{has}

-- `children` and `parents` of each script
pub record Relations : Type 0 where
  pub children : ℕ → List ℕ
  pub parents : ℕ → List ℕ

unfoldable pub dlist_insert_unique : List ℕ → ℕ → List ℕ
dlist_insert_unique list x = if has x list then list else list ++ x ∷ []

abbrev pub update : (ℕ → List ℕ) → ℕ → List ℕ → ℕ → List ℕ
update f s list t = if t == s then list else f t

unfoldable pub set_parenthood : Relations → (parent child : ℕ) → Relations
unfolding dlist_insert_unique
set_parenthood r parent child = record {
  children = update r.children parent (dlist_insert_unique (r.children parent) child);
  parents = update r.parents child (dlist_insert_unique (r.parents child) parent);
}

-- the two loops over the scripts that provide a name
unfoldable pub before_loop : Relations → ℕ → List ℕ → Relations
unfolding set_parenthood
before_loop r parent [] = r
before_loop r parent (child ∷ cs) = before_loop (set_parenthood r parent child) parent cs

unfoldable pub require_loop : Relations → ℕ → List ℕ → Relations
unfolding set_parenthood
require_loop r child [] = r
require_loop r child (parent ∷ ps) = require_loop (set_parenthood r parent child) child ps

module _ (provides : ℕ → Option (List ℕ)) where
  unfoldable pub add_before_relationship : Relations → (parent child_name : ℕ) → Relations
  unfolding before_loop
  add_before_relationship r parent child_name = elim (provides child_name) [
    | none ↦ r
    | some children ↦ before_loop r parent children
  ]

  unfoldable pub add_require_relationship : Relations → (child parent_name : ℕ) → Relations
  unfolding require_loop
  add_require_relationship r child parent_name = elim (provides parent_name) [
    | none ↦ r
    | some parents ↦ require_loop r child parents
  ]

  unfoldable pub requires_loop : Relations → ℕ → List ℕ → Relations
  unfolding add_require_relationship
  requires_loop r script [] = r
  requires_loop r script (name ∷ names) =
      requires_loop (add_require_relationship r script name) script names

  unfoldable pub befores_loop : Relations → ℕ → List ℕ → Relations
  unfolding add_before_relationship
  befores_loop r script [] = r
  befores_loop r script (name ∷ names) =
      befores_loop (add_before_relationship r script name) script names

  -- the first step of services_db_scan_system, over the table of the scripts
  unfoldable pub relate_scripts : (requires befores : ℕ → List ℕ) → Relations → List ℕ → Relations
  unfolding requires_loop befores_loop
  relate_scripts requires befores r [] = r
  relate_scripts requires befores r (s ∷ scripts) =
      relate_scripts requires befores (befores_loop (requires_loop r s (requires s)) s (befores s))
        scripts

-- the second step: the scripts without parents, in the order of the table
unfoldable pub find_roots : Relations → List ℕ → List ℕ
find_roots r [] = []
find_roots r (s ∷ scripts) =
    let rest = find_roots r scripts in elim (r.parents s) [ [] ↦ s ∷ rest | p ∷ ps ↦ rest ]

abbrev pub no_relations : Relations
no_relations = record { children = λ s. []; parents = λ s. [] }

-- services_db_scan_system after it has read the directories: the relations and the roots
unfoldable pub scan_relations :
    (provides : ℕ → Option (List ℕ)) (requires befores : ℕ → List ℕ) → List ℕ → Relations × List ℕ
unfolding relate_scripts find_roots
scan_relations provides requires befores scripts =
    let r = relate_scripts provides requires befores no_relations scripts in
    (r, find_roots r scripts)

-- Children and parents say the same.
abbrev pub IsMutual : Relations → Type 0
IsMutual r = (p c : ℕ) → has c (r.children p) ≡ has p (r.parents c)

pub has-last : (a x : ℕ) (xs : List ℕ) → has a (xs ++ x ∷ []) ≡ ((a == x) || has a xs)
has-last a x [] = refl
has-last a x (y ∷ xs) = ground (arith, has-last a x xs)

has-insert_unique :
    (a x : ℕ) (xs : List ℕ) → has a (dlist_insert_unique xs x) ≡ ((a == x) || has a xs)
unfolding dlist_insert_unique
has-insert_unique a x xs = elim (Bool-cases (has x xs)) [
  | inl there ↦ rw there (elim (Bool-cases (a == x)) [
    | inl same ↦ rw same (ap (λ y. has y xs) (==→eq a x same) ∙ there)
    | inr other ↦ rw other refl
  ])
  | inr new ↦ rw new (has-last a x xs)
]

-- an entry of a table after an insertion
has-update :
    (f : ℕ → List ℕ) (s x t a : ℕ)
    → has a (update f s (dlist_insert_unique (f s) x) t) ≡ (((t == s) && (a == x)) || has a (f t))
has-update f s x t a = elim (Bool-cases (t == s)) [
  | inl same ↦
      rw same
        (has-insert_unique a x (f s) ∙ ap (λ u. (a == x) || has a (f u)) (sym (==→eq t s same)))
  | inr other ↦ rw other refl
]

and_comm : (a b : Bool) → (a && b) ≡ (b && a)
and_comm true true = refl
and_comm true false = refl
and_comm false true = refl
and_comm false false = refl

set_parenthood-IsMutual :
    (r : Relations) (parent child : ℕ) → IsMutual r → IsMutual (set_parenthood r parent child)
unfolding set_parenthood
set_parenthood-IsMutual r parent child is p c =
    has-update r.children parent child p c
    ∙ (λ i. and_comm (p == parent) (c == child) i || is p c i)
    ∙ sym (has-update r.parents child parent c p)

before_loop-IsMutual :
    (r : Relations) (s : ℕ) (cs : List ℕ) → IsMutual r → IsMutual (before_loop r s cs)
unfolding before_loop
before_loop-IsMutual r s [] is = is
before_loop-IsMutual r s (c ∷ cs) is =
    before_loop-IsMutual (set_parenthood r s c) s cs (set_parenthood-IsMutual r s c is)

require_loop-IsMutual :
    (r : Relations) (s : ℕ) (ps : List ℕ) → IsMutual r → IsMutual (require_loop r s ps)
unfolding require_loop
require_loop-IsMutual r s [] is = is
require_loop-IsMutual r s (p ∷ ps) is =
    require_loop-IsMutual (set_parenthood r p s) s ps (set_parenthood-IsMutual r p s is)

module _ (provides : ℕ → Option (List ℕ)) where
  requires_loop-IsMutual :
      (r : Relations) (s : ℕ) (names : List ℕ)
      → IsMutual r
      → IsMutual (requires_loop provides r s names)
  unfolding requires_loop add_require_relationship
  requires_loop-IsMutual r s [] is = is
  requires_loop-IsMutual r s (n ∷ names) is =
      requires_loop-IsMutual (add_require_relationship provides r s n) s names
        (elim (provides n)
          as (λ o.
            IsMutual
              (elim o as (λ _. Relations) [ none ↦ r | some found ↦ require_loop r s found ])) [
                | none ↦ is
                | some found ↦ require_loop-IsMutual r s found is
              ])

  befores_loop-IsMutual :
      (r : Relations) (s : ℕ) (names : List ℕ)
      → IsMutual r
      → IsMutual (befores_loop provides r s names)
  unfolding befores_loop add_before_relationship
  befores_loop-IsMutual r s [] is = is
  befores_loop-IsMutual r s (n ∷ names) is =
      befores_loop-IsMutual (add_before_relationship provides r s n) s names
        (elim (provides n)
          as (λ o.
            IsMutual
              (elim o as (λ _. Relations) [ none ↦ r | some found ↦ before_loop r s found ])) [
                | none ↦ is
                | some found ↦ before_loop-IsMutual r s found is
              ])

  -- Relating the scripts by their requirements and by what they stand before keeps it that one
  -- script is a child of another exactly where the other is a parent of the one.
  pub relate_scripts-IsMutual :
      (requires befores : ℕ → List ℕ) (r : Relations) (scripts : List ℕ)
      → IsMutual r
      → IsMutual (relate_scripts provides requires befores r scripts)
  unfolding relate_scripts
  relate_scripts-IsMutual requires befores r [] is = is
  relate_scripts-IsMutual requires befores r (s ∷ scripts) is =
      relate_scripts-IsMutual requires befores
        (befores_loop provides (requires_loop provides r s (requires s)) s (befores s)) scripts
        (befores_loop-IsMutual (requires_loop provides r s (requires s)) s (befores s)
          (requires_loop-IsMutual r s (requires s) is))
