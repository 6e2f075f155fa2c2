-- ===== src/Dlist/Examples.antt =====
-- Tests of the list functions on a list with the data 5 and 7, and the theorems at that list.
use freebsd_pkg_plugins.Base.{
  refl, true, none, some, [], ◌∷◌, ◌++◌, ◌==◌, arith, if◌then◌else◌, ltb, IsOrder,
}
use freebsd_pkg_plugins.Dlist.Memory.{null, element, Heap, Memory, Returns}
use freebsd_pkg_plugins.Dlist.Linked.{Chain, IsDList}
use freebsd_pkg_plugins.Dlist.Append.{Grown, dlist_append-Grown}
use freebsd_pkg_plugins.Dlist.Remove.{Shrunk, dlist_remove_link-Shrunk}
use freebsd_pkg_plugins.Dlist.Loops.{Cleared, dlist_clear-Cleared}
use freebsd_pkg_plugins.Iterator.Traverses.{Traverses}
use freebsd_pkg_plugins.Dlist.Sorting.{SortsTo, dlist_sort-Sorts}
use freebsd_pkg_plugins.Dlist.Collection.{dlist_to_iterator, elements, dlist_to_iterator-Traverses}
use freebsd_pkg_plugins.Dlist.{DList, dlist_append, dlist_remove_link, dlist_clear, dlist_init}

abbrev five_seven : Chain
five_seven = (8, 5) ∷ (16, 7) ∷ []

abbrev memory : Memory
memory = record {
  heap = λ a.
      if a == 8
      then some (element 16 null 5)
      else if a == 16
      then some (element null 8 7)
      else none;
  destroyed = [];
}

abbrev list : DList
list = record { length = 2; dup = none; dtor = true; head = 8; tail = 16 }

list-IsDList : IsDList memory.heap list five_seven
list-IsDList = record {
  head = refl;
  tail = refl;
  length = refl;
  links = ((refl, omega arith, refl, (refl, omega arith, refl, tt)));
}

init-IsDList : (h : Heap) → IsDList h (dlist_init none true) []
unfolding dlist_init
init-IsDList h = record { head = refl; tail = refl; length = refl; links = tt }

dlist_append_example :
    Returns (dlist_append 24 list 9 memory) (Grown memory list (five_seven ++ (24, 9) ∷ []))
dlist_append_example =
    dlist_append-Grown memory list five_seven 24 9 list-IsDList (omega arith) refl (omega arith)

dlist_remove_example :
    Returns (dlist_remove_link list 8 memory) (Shrunk memory list 8 5 ((16, 7) ∷ []))
dlist_remove_example =
    dlist_remove_link-Shrunk memory list [] ((16, 7) ∷ []) 8 5 list-IsDList (omega arith)

dlist_clear_example :
    Returns
      (dlist_clear 3 list memory)
      (λ l' m'. IsDList m'.heap l' [] × Cleared memory true five_seven m')
dlist_clear_example = dlist_clear-Cleared memory list five_seven 3 list-IsDList (omega arith)

descending-IsOrder : IsOrder (λ a b. ltb a b)
descending-IsOrder = record {
  asymmetric = λ a b h. ground arith;
  transitive = λ a b c h k. ground arith;
}

dlist_sort_example : SortsTo (λ a b. ltb a b) 3 memory list five_seven
dlist_sort_example =
    dlist_sort-Sorts (λ a b. ltb a b) 3 memory list five_seven descending-IsOrder list-IsDList
      (omega arith)

dlist_to_iterator_example : Traverses (dlist_to_iterator list memory) (elements five_seven)
dlist_to_iterator_example = dlist_to_iterator-Traverses list memory five_seven list-IsDList
