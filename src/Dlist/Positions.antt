-- ===== src/Dlist/Positions.antt =====
-- The functions of kissc/dlist.c that take a position: dlist_link_at, dlist_insert_at and
-- dlist_remove_at; and dlist_new and dlist_destroy.
--
-- dlist_link_at adds the offset of a field of the element (`next` 0, `prev` 8) to the pointer, once
-- for every step, and never reads the field.
use freebsd_pkg_plugins.Base.{
  ℕ, zero, suc, ◌+◌, ◌-◌, ◌%◌, ◌^◌, ◌<◌, ◌≡◌, ◌∙◌, ap, sym, refl, subst, Bool, true, false, ◌&&◌,
  Option, none, some, [], ◌∷◌, ◌==◌, ltb, leb, if◌then◌else◌, arith, length, word_size, Bool-cases,
  inl, inr,
}
use freebsd_pkg_plugins.Dlist.Memory.{Ptr, null, Cmd, Memory, pure, ◌>>=◌, Returns, Returns-then}
use freebsd_pkg_plugins.Dlist.Linked.{Chain, IsDList}
use freebsd_pkg_plugins.Dlist.Remove.{Shrunk, dlist_remove_link-Shrunk}
use freebsd_pkg_plugins.Dlist.{
  DList, Position, from_head, from_tail, dlist_init, dlist_clear, dlist_insert_before,
  dlist_remove_link,
}

unfoldable pub dlist_new : (fresh : Ptr) → Option (ℕ → ℕ) → Bool → Option DList
dlist_new fresh dup dtor = if fresh == null then none else some (dlist_init dup dtor)

-- the list itself is freed: nothing of it is left
unfoldable pub dlist_destroy : (fuel : ℕ) → DList → Cmd (Unit {0})
dlist_destroy fuel l = do _ ← dlist_clear fuel l; pure tt

abbrev pub next_offset : ℕ
next_offset = 0

abbrev pub prev_offset : ℕ
prev_offset = 8

-- `for (; NULL != el && n >= 0; n--) el = (char *) el + offset`, with `k` rounds to go
unfoldable pub link_loop : (k offset : ℕ) → Ptr → Ptr
link_loop zero offset el = el
link_loop (suc k) offset el =
    let rest = link_loop k offset ((el + offset) % word_size) in if el == null then el else rest

-- `n <= (int) size` for an `int` that is not negative
abbrev pub within : ℕ → ℕ → Bool
within n size = ltb (size % 2 ^ 32) (2 ^ 31) && leb n (size % 2 ^ 32)

abbrev pub last_index : DList → Ptr → ℕ
last_index l el = if el == l.head then (l.length + word_size - 1) % word_size else l.length

unfoldable pub dlist_link_at : DList → Position → Ptr
unfolding link_loop
dlist_link_at l (from_head n) =
    if within n (last_index l l.head) then link_loop (n + 1) next_offset l.head else l.head
dlist_link_at l (from_tail n) =
    if within n (last_index l l.tail) then link_loop (n + 1) prev_offset l.tail else l.tail

unfoldable pub dlist_insert_at : (fresh : Ptr) → DList → Position → ℕ → Cmd (Bool × DList)
unfolding dlist_link_at
dlist_insert_at fresh l n v =
    let el = dlist_link_at l n in
    if el == null then pure (false, l) else dlist_insert_before fresh el l v

unfoldable pub dlist_remove_at : DList → Position → Cmd (Bool × DList)
unfolding dlist_link_at
dlist_remove_at l n =
    let el = dlist_link_at l n in
    if el == null then pure (false, l) else (do l' ← dlist_remove_link l el; pure (true, l'))

link_loop-stays : (k : ℕ) (el : Ptr) → el < word_size → link_loop k next_offset el ≡ el
unfolding link_loop
link_loop-stays zero el small = refl
link_loop-stays (suc k) el small =
    let same : (el + next_offset) % word_size ≡ el = omega arith in
    elim (Bool-cases (el == null)) [
      | inl nothing ↦ rw (link_loop, nothing) refl
      | inr there ↦
          rw (link_loop, there) (ap (link_loop k next_offset) same ∙ link_loop-stays k el small)
    ]

link_at-head : (l : DList) (n : ℕ) → l.head < word_size → dlist_link_at l (from_head n) ≡ l.head
unfolding dlist_link_at
link_at-head l n small = elim (Bool-cases (within n (last_index l l.head))) [
  | inl inside ↦ rw (inside) (link_loop-stays (n + 1) l.head small)
  | inr outside ↦ rw outside refl
]

abbrev pub Removed : Memory → DList → Ptr → ℕ → Chain → (Bool × DList) → Memory → Type 0
Removed m l p v xs r m' = (r.0 ≡ true) × Shrunk m l p v xs r.1 m'

-- Whatever the position, if it is counted from the head, dlist_remove_at answers `true` and takes
-- the first element out of a well linked list that has one.
dlist_remove_at-head :
    (m : Memory) (l : DList) (n : ℕ) (p : Ptr) (v : ℕ) (xs : Chain)
    → IsDList m.heap l ((p, v) ∷ xs)
    → p < word_size
    → length xs + 1 < word_size
    → Returns (dlist_remove_at l (from_head n) m) (Removed m l p v xs)
unfolding dlist_remove_at
dlist_remove_at-head m l n p v xs is small room =
    let el : dlist_link_at l (from_head n) ≡ p =
      link_at-head l n (subst (λ q. q < word_size) (sym is.head) small) ∙ is.head in
    let there : p == null ≡ false = ground (arith, is.links.1) in
    rw (el, there)
      (Returns-then (dlist_remove_link l p m) _ (Shrunk m l p v xs) (Removed m l p v xs)
        (dlist_remove_link-Shrunk m l [] xs p v is (omega (arith, room)))
        (λ l' m' shrunk. (refl, shrunk)))
