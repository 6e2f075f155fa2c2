-- ===== src/Dlist/Collection.antt =====
-- dlist_to_iterator of kissc/dlist.c: the list, with the memory that its elements stand in, as a
-- collection for the functions of kissc/iterator.c. There is no key.
use freebsd_pkg_plugins.Base.{
  ℕ, ◌≡◌, refl, ap, false, Option, none, some, List, [], ◌∷◌, arith, ◌==◌,
}
use freebsd_pkg_plugins.Iterator.{Iterator, iterator_first, iterator_next, iterator_is_valid}
use freebsd_pkg_plugins.Iterator.Traverses.{Forward, Traverses}
use freebsd_pkg_plugins.Dlist.Memory.{Ptr, null, Memory, Run, ok, fault, out_of_fuel, load-ok}
use freebsd_pkg_plugins.Dlist.Linked.{Chain, IsDList, Joined, front_or}
use freebsd_pkg_plugins.Dlist.Iterator.{
  dlist_iterator_first, dlist_iterator_last, dlist_iterator_is_valid, dlist_iterator_current,
  dlist_iterator_next, dlist_iterator_previous,
}
use freebsd_pkg_plugins.Dlist.{DList, dlist_length}

-- what a command that only reads answers
abbrev pub answer : {A : Type 0} → Run A → Option A
answer (ok a m) = some a
answer fault = none
answer out_of_fuel = none

abbrev pub keyless : Option ℕ → Option (Unit {0} × ℕ)
keyless none = none
keyless (some v) = some (tt, v)

unfoldable pub dlist_to_iterator : DList → Memory → Iterator (DList × Memory) Ptr (Unit {0}) ℕ
dlist_to_iterator l m = record {
  collection = (l, m);
  state = null;
  first = some (λ c s. some (dlist_iterator_first c.0));
  last = some (λ c s. some (dlist_iterator_last c.0));
  current = λ c s. keyless (answer (dlist_iterator_current s c.1));
  next = some (λ c s. answer (dlist_iterator_next s c.1));
  previous = some (λ c s. answer (dlist_iterator_previous s c.1));
  valid = λ c s. some (dlist_iterator_is_valid s);
  count = some (λ c. dlist_length c.0);
}

abbrev pub elements : Chain → List (Unit {0} × ℕ)
elements [] = []
elements ((p, v) ∷ xs) = (tt, v) ∷ elements xs

module _ (l : DList) (m : Memory) where
  at : Ptr → Iterator (DList × Memory) Ptr (Unit {0}) ℕ
  at p = record (dlist_to_iterator l m) { state = p }

  at-Forward :
      (b : Ptr) (xs : Chain)
      → Joined m.heap b null xs
      → Forward (at (front_or xs null)) (elements xs)
  unfolding at Forward iterator_is_valid iterator_next dlist_to_iterator dlist_iterator_is_valid
      dlist_iterator_current dlist_iterator_next
  at-Forward b [] links = refl
  at-Forward b ((p, v) ∷ xs) (found, set, off, links) =
      let there : p == null ≡ false = ground arith in
      (
        rw (there, load-ok m p _ set found) refl,
        (at (front_or xs null), rw (load-ok m p _ set found) refl, at-Forward p xs links),
      )

  -- The iterator of a well linked list goes through its data in order, and then ends.
  pub dlist_to_iterator-Traverses :
      (xs : Chain) → IsDList m.heap l xs → Traverses (dlist_to_iterator l m) (elements xs)
  unfolding Traverses at iterator_first dlist_to_iterator dlist_iterator_first
  dlist_to_iterator-Traverses xs is =
      (at (front_or xs null), ap (λ p. some (at p)) is.head, at-Forward null xs is.links)
