-- ===== src/Dlist/Sorting.antt =====
-- dlist_sort of kissc/dlist.c: it ends, and leaves the data sorted.
use mathlib.Core.List.{Perm}
use mathlib.Core.List.Perm
use freebsd_pkg_plugins.Base.{
  ℕ, suc, ◌<◌, ◌≡◌, ◌∙◌, ap, sym, refl, subst, Bool, false, List, [], ◌∷◌, arith, ◌==◌, append-nil,
  length, IsOrder,
}
use freebsd_pkg_plugins.Dlist.Memory.{Ptr, null, Memory, ok}
use freebsd_pkg_plugins.Dlist.Linked.{Chain, IsDList, Joined, front_or, back_or}
use freebsd_pkg_plugins.Dlist.Loops.{values}
use freebsd_pkg_plugins.Dlist.{DList}
use freebsd_pkg_plugins.Dlist.Sort.{dlist_sort}
use freebsd_pkg_plugins.Dlist.Bubbles.{addresses, BelowAll}
use freebsd_pkg_plugins.Dlist.Rounds.{SortedChain, Sorts, sort_rounds-Sorts}

front_or-addresses :
    (xs ys : Chain) → addresses xs ≡ addresses ys → front_or xs null ≡ front_or ys null
front_or-addresses [] [] e = refl
front_or-addresses [] (y ∷ ys) e = cc
front_or-addresses (x ∷ xs) [] e = cc
front_or-addresses (x ∷ xs) (y ∷ ys) e = ap (λ (l : List Ptr). elim l [ [] ↦ null | q ∷ r ↦ q ]) e

rest_addresses : List Ptr → List Ptr
rest_addresses [] = []
rest_addresses (q ∷ r) = r

back_or-addresses :
    (xs ys : Chain) (a b : Ptr) → addresses xs ≡ addresses ys → a ≡ b → back_or xs a ≡ back_or ys b
unfolding rest_addresses
back_or-addresses [] [] a b e f = f
back_or-addresses [] (y ∷ ys) a b e f = cc
back_or-addresses (x ∷ xs) [] a b e f = cc
back_or-addresses (x ∷ xs) (y ∷ ys) a b e f =
    back_or-addresses xs ys x.0 y.0 (ap rest_addresses e)
      (ap (λ (l : List Ptr). elim l [ [] ↦ null | q ∷ r ↦ q ]) e)

pub length-addresses : (xs : Chain) → length xs ≡ length (addresses xs)
length-addresses [] = refl
length-addresses (x ∷ xs) = ap suc (length-addresses xs)

-- how sorting ends
abbrev pub SortsTo : (ℕ → ℕ → Bool) → ℕ → Memory → DList → Chain → Type 0
SortsTo gt fuel m l xs =
    (m' : Memory) × (zs : Chain) × (dlist_sort gt fuel l m ≡ ok tt m')
    × IsDList m'.heap l zs
    × SortedChain gt xs zs
    × (m'.destroyed ≡ m.destroyed)

-- On a well linked list and with a comparison that orders the data, dlist_sort ends without a fault,
-- on fuel for one element more than there are; the elements stay where they are, well linked, with
-- the same data in sorted order, and no destructor is called.
pub dlist_sort-Sorts :
    (gt : ℕ → ℕ → Bool) (fuel : ℕ) (m : Memory) (l : DList) (xs : Chain)
    → IsOrder gt
    → IsDList m.heap l xs
    → length xs < fuel
    → SortsTo gt fuel m l xs
unfolding dlist_sort Sorts
dlist_sort-Sorts gt fuel m l [] order is room =
    (m, [], rw is.head refl, is, (refl, Perm.refl [], tt), refl)
dlist_sort-Sorts gt fuel m l ((p, v) ∷ xs) order is room =
    let given : Chain = (p, v) ∷ xs in
    let some_head : p == null ≡ false = ground (arith, is.links.1) in
    let (m', zs, run, joined, (same, perm, sorted), calls) =
      sort_rounds-Sorts gt order fuel fuel xs [] m p v
        (subst (Joined m.heap null null) (sym (append-nil given)) is.links) (omega (arith, room))
        (omega (arith, room)) tt (none_below (v ∷ values xs)) in
    let whole : addresses zs ≡ addresses given = same ∙ ap addresses (append-nil given) in
    (
      m',
      zs,
      rw (is.head, some_head) run,
      record {
        head = is.head ∙ front_or-addresses given zs (sym whole);
        tail = is.tail ∙ back_or-addresses given zs null null (sym whole) refl;
        length =
            is.length ∙ length-addresses given ∙ ap length (sym whole) ∙ sym (length-addresses zs);
        links = joined;
      },
      (whole, subst (λ c. Perm (values zs) (values c)) (append-nil given) perm, sorted),
      calls,
    )
  where
    none_below : (ys : List ℕ) → BelowAll gt ys []
    none_below [] = tt
    none_below (y ∷ ys) = (tt, none_below ys)
