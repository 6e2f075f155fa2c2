-- ===== src/Dlist/Loops.antt =====
-- The loops of `dlist_clear`, `dlist_find_first` and `dlist_at` along a well linked list.
use freebsd_pkg_plugins.Base.{
  ℕ, zero, suc, ◌<◌, ◌≡◌, ◌≢◌, refl, sym, true, false, none, some, List, [], ◌∷◌, ◌∙◌, ◌++◌, arith,
  length, Option, Bool, Bool-cases, inl, inr, if◌then◌else◌, append-nil, append_assoc, get_elem?,
  ◌⊎◌,
}
use freebsd_pkg_plugins.Dlist.Memory.{
  Ptr, null, Element, write, Memory, ok, Returns, Returns-mono, Returns-then, load-ok, free-ok,
  call_dtor,
}
use freebsd_pkg_plugins.Dlist.Linked.{Chain, on_chain, front_or, Joined, IsDList, frame-write}
use freebsd_pkg_plugins.Dlist.Append.{not_null}
use freebsd_pkg_plugins.Dlist.{
  DList, dlist_clear, clear_loop, find_first_loop, dlist_find_first, walk_next, dlist_at,
  resolve_position, from_head,
}

abbrev pub values : Chain → List ℕ
values [] = []
values ((p, v) ∷ xs) = v ∷ values xs

-- the calls that a list's destructor gets when its elements go
abbrev pub calls : Bool → Chain → List ℕ
calls true xs = values xs
calls false xs = []

-- The cells of `xs` are free and all others as they were; the destructor saw each of their data.
abbrev pub Cleared : Memory → Bool → Chain → Memory → Type 0
Cleared m dtor xs m' =
    ((a : Ptr) → m'.heap a ≡ (if on_chain a xs then none else m.heap a))
    × (m'.destroyed ≡ m.destroyed ++ calls dtor xs)

-- the memory after the head of a chain is gone
abbrev dropped : Memory → Bool → Ptr → ℕ → Memory
dropped m dtor p v = record {
  heap = write m.heap p none;
  destroyed = if dtor then m.destroyed ++ v ∷ [] else m.destroyed;
}

Cleared-cons :
    (m : Memory) (dtor : Bool) (p : Ptr) (v : ℕ) (xs : Chain) (m' : Memory)
    → Cleared (dropped m dtor p v) dtor xs m'
    → Cleared m dtor ((p, v) ∷ xs) m'
unfolding write
Cleared-cons m true p v xs m' (freed, called) =
    ((λ a. ground (arith, freed a)), called ∙ append_assoc m.destroyed (v ∷ []) (values xs))
Cleared-cons m false p v xs m' (freed, called) = ((λ a. ground (arith, freed a)), called)

clear_loop-Cleared :
    (k : ℕ) (m : Memory) (dtor : Bool) (b : Ptr) (xs : Chain)
    → Joined m.heap b null xs
    → length xs < k
    → Returns (clear_loop k dtor (front_or xs null) m) (λ _ m'. Cleared m dtor xs m')
unfolding clear_loop call_dtor
clear_loop-Cleared zero m dtor b xs links enough = absurd (omega arith)
clear_loop-Cleared (suc k) m true b [] links enough = (λ a. refl, sym (append-nil _))
clear_loop-Cleared (suc k) m false b [] links enough = (λ a. refl, sym (append-nil _))
clear_loop-Cleared (suc k) m true b ((p, v) ∷ xs) links enough =
    let m₁ : Memory = record m { destroyed = m.destroyed ++ v ∷ [] } in
    rw (not_null p links.1, load-ok m p _ links.1 links.0, free-ok m₁ p _ links.1 links.0)
      (Returns-mono (clear_loop k true (front_or xs null) (dropped m true p v))
        (λ _. Cleared (dropped m true p v) true xs) (λ _. Cleared m true ((p, v) ∷ xs))
        (clear_loop-Cleared k (dropped m true p v) true p xs
          (frame-write m.heap p none p null xs links.3 links.2) (omega arith))
        (λ _. Cleared-cons m true p v xs))
clear_loop-Cleared (suc k) m false b ((p, v) ∷ xs) links enough =
    rw (not_null p links.1, load-ok m p _ links.1 links.0, free-ok m p _ links.1 links.0)
      (Returns-mono (clear_loop k false (front_or xs null) (dropped m false p v))
        (λ _. Cleared (dropped m false p v) false xs) (λ _. Cleared m false ((p, v) ∷ xs))
        (clear_loop-Cleared k (dropped m false p v) false p xs
          (frame-write m.heap p none p null xs links.3 links.2) (omega arith))
        (λ _. Cleared-cons m false p v xs))

-- `dlist_clear` ends with an empty list: it frees every element and nothing else, and calls the
-- destructor, if one is set, once on each of the data in order. One round more than there are
-- elements is enough fuel.
pub dlist_clear-Cleared :
    (m : Memory) (l : DList) (xs : Chain) (fuel : ℕ)
    → IsDList m.heap l xs
    → length xs < fuel
    → Returns (dlist_clear fuel l m) (λ l' m'. IsDList m'.heap l' [] × Cleared m l.dtor xs m')
unfolding dlist_clear
dlist_clear-Cleared m l xs fuel is enough =
    Returns-then (clear_loop fuel l.dtor l.head m) _ (λ _ m'. Cleared m l.dtor xs m')
      (λ l' m'. IsDList m'.heap l' [] × Cleared m l.dtor xs m')
      (rw is.head (clear_loop-Cleared fuel m l.dtor null xs is.links enough))
      (λ _ m' c. (record { head = refl; tail = refl; length = refl; links = tt }, c))

-- The element that `dlist_find_first` answers: the first whose data passes, else `NULL`.
unfoldable pub first_such : (ℕ → Bool) → Chain → Ptr
first_such f [] = null
first_such f ((p, v) ∷ xs) = if f v then p else first_such f xs

find_first_loop-eq :
    (k : ℕ) (m : Memory) (cmp : ℕ → ℕ → Bool) (v : ℕ) (b : Ptr) (xs : Chain)
    → Joined m.heap b null xs
    → length xs < k
    → find_first_loop k cmp v (front_or xs null) m ≡ ok (first_such (λ w. cmp w v) xs) m
unfolding find_first_loop first_such
find_first_loop-eq zero m cmp v b xs links enough = absurd (omega arith)
find_first_loop-eq (suc k) m cmp v b [] links enough = refl
find_first_loop-eq (suc k) m cmp v b ((p, w) ∷ xs) links enough =
    rw (not_null p links.1, load-ok m p _ links.1 links.0)
      (elim (Bool-cases (cmp w v)) [
        | inl hit ↦ rw hit
        | inr miss ↦ rw miss (find_first_loop-eq k m cmp v p xs links.3 (omega arith))
      ])

-- `dlist_find_first` answers the first element whose data compares equal, or `NULL` if none does,
-- and changes nothing. One round more than there are elements is enough fuel.
dlist_find_first-eq :
    (m : Memory) (l : DList) (xs : Chain) (fuel : ℕ) (cmp : ℕ → ℕ → Bool) (v : ℕ)
    → IsDList m.heap l xs
    → length xs < fuel
    → dlist_find_first fuel l cmp v m ≡ ok (first_such (λ w. cmp w v) xs) m
unfolding dlist_find_first
dlist_find_first-eq m l xs fuel cmp v is enough =
    rw is.head (find_first_loop-eq fuel m cmp v null xs is.links enough)

drop_cells : ℕ → Chain → Chain
drop_cells zero xs = xs
drop_cells (suc n) [] = []
drop_cells (suc n) (x ∷ xs) = drop_cells n xs

-- the data of the `n`th element
pub value_at : ℕ → Chain → Option ℕ
value_at n xs = get_elem? (values xs) n

walk_next-at :
    (n : ℕ) (m : Memory) (b : Ptr) (xs : Chain)
    → Joined m.heap b null xs
    → ((value_at n xs ≡ none) × (walk_next n (front_or xs null) m ≡ ok null m))
      ⊎ ((e : Element) × (p : Ptr) × (walk_next n (front_or xs null) m ≡ ok p m)
          × (p ≢ null)
          × (m.heap p ≡ some e)
          × (value_at n xs ≡ some e.content))
unfolding walk_next value_at
walk_next-at zero m b [] links = inl (refl, refl)
walk_next-at (suc n) m b [] links = inl (refl, refl)
walk_next-at zero m b ((p, v) ∷ xs) links = inr (_, p, refl, links.1, links.0, refl)
walk_next-at (suc n) m b ((p, v) ∷ xs) links =
    rw (not_null p links.1, load-ok m p _ links.1 links.0) (walk_next-at n m p xs links.3)

-- `dlist_at` reads the `n`th of the data counted from the head, and nothing past the end.
pub dlist_at-value_at :
    (m : Memory) (l : DList) (xs : Chain) (n : ℕ)
    → IsDList m.heap l xs
    → dlist_at l (from_head n) m ≡ ok (value_at n xs) m
unfolding dlist_at resolve_position
dlist_at-value_at m l xs n is = elim (walk_next-at n m null xs is.links) [
  | inl (absent, run) ↦ rw (is.head, run, absent)
  | inr (e, p, run, ne, found, here) ↦
      rw (is.head, run, not_null p ne, load-ok m p e ne found, here)
]
