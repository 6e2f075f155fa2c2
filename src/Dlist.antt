-- ===== src/Dlist.antt =====
-- The double linked list of kissc/dlist.c and kissc/dlist.h, one command per function.
--
-- A `DList` lives outside the heap of elements, so a function that updates it returns the new
-- value. `fresh` is what `malloc` returns to the call, `NULL` where it fails. A callback is a
-- function on the `void *` that it is given. `assert` is not modelled.
pub mod Relinking
pub mod Append
pub mod Linked
pub mod Loops
pub mod Prepend
pub mod Remove
pub mod Sort
pub mod Bubbles
pub mod Sorted
pub mod Collection
pub mod Positions
pub mod Rounds
pub mod Sorting
mod Examples
pub mod Iterator
pub mod Memory
use freebsd_pkg_plugins.Base.{
  ℕ, zero, suc, ◌+◌, ◌-◌, ◌%◌, ◌≤◌, Bool, true, false, not, ◌&&◌, ◌||◌, Option, none, some, ◌==◌,
  leb, if◌then◌else◌, word_size,
}
use Memory.{
  Ptr, null, Element, element, Run, Cmd, ok, out_of_fuel, pure, ◌>>=◌, ◌>>◌, load, put, set_next,
  set_prev, set_content, free, call_dtor,
}

-- `dtor` says whether the pointer to the destructor is set.
pub record DList : Type 0 where
  pub length : ℕ
  pub dup : Option (ℕ → ℕ)
  pub dtor : Bool
  pub head : Ptr
  pub tail : Ptr

-- `++list->length` and `--list->length` on a `size_t`
abbrev pub increment : ℕ → ℕ
increment n = (n + 1) % word_size

abbrev pub decrement : ℕ → ℕ
decrement n = (n + word_size - 1) % word_size

unfoldable pub dlist_init : Option (ℕ → ℕ) → Bool → DList
dlist_init dup dtor = record { length = 0; dup = dup; dtor = dtor; head = null; tail = null }

unfoldable pub dlist_length : DList → ℕ
dlist_length l = l.length

unfoldable pub dlist_empty : DList → Bool
dlist_empty l = l.head == null

-- the data that a new element gets
abbrev pub duplicate : Option (ℕ → ℕ) → ℕ → ℕ
duplicate none v = v
duplicate (some dup) v = dup v

-- The links of the new element are not set yet.
unfoldable pub alloc_element : (fresh : Ptr) → DList → ℕ → Cmd Ptr
alloc_element fresh l v =
    if fresh == null
    then pure null
    else do put fresh (some (element null null (duplicate l.dup v))); pure fresh

unfoldable pub dlist_append : (fresh : Ptr) → DList → ℕ → Cmd (Bool × DList)
unfolding alloc_element
dlist_append fresh l v = do
  tmp ← alloc_element fresh l v
  if tmp == null then pure (false, l) else do
    set_next tmp null
    if not (l.tail == null)
        then (do
          set_next l.tail tmp
          set_prev tmp l.tail
          pure (true, record l { tail = tmp; length = increment l.length }))
        else (do
          set_prev tmp null
          pure (true, record l { head = tmp; tail = tmp; length = increment l.length }))

unfoldable pub dlist_prepend : (fresh : Ptr) → DList → ℕ → Cmd (Bool × DList)
unfolding alloc_element
dlist_prepend fresh l v = do
  tmp ← alloc_element fresh l v
  if tmp == null then pure (false, l) else do
    set_prev tmp null
    if not (l.head == null)
        then (do
          set_next tmp l.head
          pure (true, record l { head = tmp; length = increment l.length }))
        else (do
          set_next tmp null
          pure (true, record l { head = tmp; tail = tmp; length = increment l.length }))

unfoldable pub dlist_insert_before : (fresh sibling : Ptr) → DList → ℕ → Cmd (Bool × DList)
unfolding alloc_element
dlist_insert_before fresh sibling l v = if sibling == l.head then dlist_prepend fresh l v else do
  tmp ← alloc_element fresh l v
  if tmp == null then pure (false, l) else do
    set_next tmp sibling
    s ← load sibling
    set_prev tmp s.prev
    set_next s.prev tmp
    set_prev sibling tmp
    pure (true, l)

unfoldable pub dlist_insert_after : (fresh sibling : Ptr) → DList → ℕ → Cmd (Bool × DList)
unfolding alloc_element
dlist_insert_after fresh sibling l v = if sibling == l.tail then dlist_append fresh l v else do
  tmp ← alloc_element fresh l v
  if tmp == null then pure (false, l) else do
    s ← load sibling
    set_prev s.next tmp
    set_next tmp s.next
    set_prev tmp sibling
    set_next sibling tmp
    pure (true, l)

-- `if (NULL != e->prev) e->prev->next = q;` and the same for the other side
unfoldable pub relink_prev : Ptr → Ptr → Cmd (Unit {0})
relink_prev p q = if p == null then pure tt else set_next p q

unfoldable pub relink_next : Ptr → Ptr → Cmd (Unit {0})
relink_next n q = if n == null then pure tt else set_prev n q

-- `if (element == list->head) { … }`
unfoldable pub unlink_head : DList → Ptr → Cmd DList
unfolding relink_next
unlink_head l p =
    if p == l.head
    then (do e ← load l.head; relink_next e.next null; pure (record l { head = e.next }))
    else pure l

-- `if (element == list->tail) { … }`
unfoldable pub unlink_tail : DList → Ptr → Cmd DList
unfolding relink_prev
unlink_tail l p =
    if p == l.tail
    then (do e ← load l.tail; relink_prev e.prev null; pure (record l { tail = e.prev }))
    else pure l

unfoldable pub dlist_remove_link : DList → Ptr → Cmd DList
unfolding relink_prev relink_next unlink_head unlink_tail
dlist_remove_link l p = do
  e ← load p
  relink_prev e.prev e.next
  e' ← load p
  relink_next e'.next e'.prev
  l₁ ← unlink_head l p
  l₂ ← unlink_tail l₁ p
  e'' ← load p
  call_dtor l.dtor e''.content
  free p
  pure (record l₂ { length = decrement l.length })

unfoldable pub dlist_remove_head : DList → Cmd DList
unfolding relink_next
dlist_remove_head l = if l.head == null then pure l else do
  e ← load l.head
  relink_next e.next null
  let l' =
      if not (e.next == null)
      then record l { head = e.next }
      else record l { head = null; tail = null }
  call_dtor l.dtor e.content
  free l.head
  pure (record l' { length = decrement l.length })

unfoldable pub dlist_remove_tail : DList → Cmd DList
unfolding relink_prev
dlist_remove_tail l = if l.tail == null then pure l else do
  e ← load l.tail
  relink_prev e.prev null
  let l' =
      if not (e.prev == null)
      then record l { tail = e.prev }
      else record l { head = null; tail = null }
  call_dtor l.dtor e.content
  free l.tail
  pure (record l' { length = decrement l.length })

clear_loop : ℕ → Bool → Ptr → Cmd (Unit {0})
clear_loop zero dtor tmp = λ _. out_of_fuel
clear_loop (suc k) dtor tmp =
    if tmp == null
    then pure tt
    else do el ← load tmp; call_dtor dtor el.content; free tmp; clear_loop k dtor el.next

-- `fuel` bounds the rounds of the loop, as in the traversals below.
unfoldable pub dlist_clear : (fuel : ℕ) → DList → Cmd DList
unfolding clear_loop
dlist_clear fuel l = do
  clear_loop fuel l.dtor l.head
  pure (record l { length = 0; head = null; tail = null })

-- `cmp` answers whether `0 == cmp(el->data, data)`.
find_first_loop : ℕ → (ℕ → ℕ → Bool) → ℕ → Ptr → Cmd Ptr
find_first_loop zero cmp v el = λ _. out_of_fuel
find_first_loop (suc k) cmp v el =
    if el == null
    then pure null
    else do e ← load el; if cmp e.content v then pure el else find_first_loop k cmp v e.next

unfoldable pub dlist_find_first : (fuel : ℕ) → DList → (ℕ → ℕ → Bool) → ℕ → Cmd Ptr
unfolding find_first_loop
dlist_find_first fuel l cmp v = find_first_loop fuel cmp v l.head

find_last_loop : ℕ → (ℕ → ℕ → Bool) → ℕ → Ptr → Cmd Ptr
find_last_loop zero cmp v el = λ _. out_of_fuel
find_last_loop (suc k) cmp v el =
    if el == null
    then pure null
    else do e ← load el; if cmp e.content v then pure el else find_last_loop k cmp v e.prev

unfoldable pub dlist_find_last : (fuel : ℕ) → DList → (ℕ → ℕ → Bool) → ℕ → Cmd Ptr
unfolding find_last_loop
dlist_find_last fuel l cmp v = find_last_loop fuel cmp v l.tail

-- An `int`: the steps from the head, or, for a negative number, from the tail.
pub data Position : Type 0 where
  from_head : ℕ → Position
  from_tail : ℕ → Position

-- the rounds are the number `c` that counts down to 0
walk_next : ℕ → Ptr → Cmd Ptr
walk_next zero cur = pure cur
walk_next (suc c) cur = if cur == null then pure null else do e ← load cur; walk_next c e.next

walk_prev : ℕ → Ptr → Cmd Ptr
walk_prev zero cur = pure cur
walk_prev (suc c) cur = if cur == null then pure null else do e ← load cur; walk_prev c e.prev

unfoldable pub resolve_position : DList → Position → Cmd Ptr
unfolding walk_next walk_prev
resolve_position l (from_head n) = walk_next n l.head
resolve_position l (from_tail n) = walk_prev n l.tail

unfoldable pub dlist_at : DList → Position → Cmd (Option ℕ)
unfolding resolve_position
dlist_at l n = do
  cur ← resolve_position l n
  if cur == null then pure none else do e ← load cur; pure (some e.content)
