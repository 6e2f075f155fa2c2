-- ===== src/Dlist/Iterator.antt =====
-- The iterator of kissc/dlist.c, and `iterator_reject` of kissc/iterator.c over it.
--
-- The position of the iterator is the pointer `*state`. The callback of `iterator_reject` has a
-- state of its own, as that of plugins/zfs_integration/retention.c has.
use freebsd_pkg_plugins.Base.{
  ℕ, zero, suc, ◌+◌, ◌<◌, ◌≡◌, ◌≢◌, ◌∙◌, ap, sym, Bool, true, false, [], ◌∷◌, arith, ◌==◌,
  if◌then◌else◌, length, word_size,
}
use freebsd_pkg_plugins.Dlist.Memory.{
  Ptr, null, Cmd, Memory, fault, out_of_fuel, pure, ◌>>=◌, load, Returns-ok, load-ok, load-fault,
}
use freebsd_pkg_plugins.Dlist.Linked.{Chain, IsDList}
use freebsd_pkg_plugins.Dlist.Append.{not_null}
use freebsd_pkg_plugins.Dlist.Remove.{Shrunk, dlist_remove_link-Shrunk}
use freebsd_pkg_plugins.Dlist.{DList, dlist_remove_link}

unfoldable pub dlist_iterator_first : DList → Ptr
dlist_iterator_first l = l.head

unfoldable pub dlist_iterator_last : DList → Ptr
dlist_iterator_last l = l.tail

unfoldable pub dlist_iterator_is_valid : Ptr → Bool
dlist_iterator_is_valid state = if state == null then false else true

unfoldable pub dlist_iterator_current : Ptr → Cmd ℕ
dlist_iterator_current state = do e ← load state; pure e.content

unfoldable pub dlist_iterator_next : Ptr → Cmd Ptr
dlist_iterator_next state = do e ← load state; pure e.next

unfoldable pub dlist_iterator_previous : Ptr → Cmd Ptr
dlist_iterator_previous state = do e ← load state; pure e.prev

unfoldable pub dlist_iterator_delete : DList → Ptr → Cmd (DList × Ptr)
dlist_iterator_delete l state = do
  e ← load state
  let state' = if e.prev == null then l.head else e.prev
  l' ← dlist_remove_link l state
  pure (l', state')

module _ {S : Type 0} (callback : S → ℕ → Bool × S) where
  reject_step : DList → Ptr → S → Cmd (DList × Ptr × S)
  reject_step l state s = do
    value ← dlist_iterator_current state
    let (drop, s') = callback s value
    (l', state') ← if drop then dlist_iterator_delete l state else pure (l, state)
    next ← dlist_iterator_next state'
    pure (l', next, s')

  reject_loop : ℕ → DList → Ptr → S → Cmd (DList × S)
  reject_loop zero l state s = λ _. out_of_fuel
  reject_loop (suc k) l state s =
      if dlist_iterator_is_valid state
      then (do (l', next, s') ← reject_step l state s; reject_loop k l' next s')
      else pure (l, s)

  unfoldable pub iterator_reject : (fuel : ℕ) → DList → S → Cmd (DList × S)
  unfolding reject_loop reject_step
  iterator_reject fuel l s = reject_loop fuel l (dlist_iterator_first l) s

  -- If the callback rejects the first element, `iterator_reject` reads the element that it has
  -- just freed, whatever the rest of the list and of the callback: the walk is a fault.
  pub iterator_reject-head_fault :
      (fuel : ℕ) (m : Memory) (l : DList) (s : S) (p : Ptr) (v : ℕ) (xs : Chain)
      → IsDList m.heap l ((p, v) ∷ xs)
      → length xs + 1 < word_size
      → (callback s v).0 ≡ true
      → iterator_reject (suc fuel) l s m ≡ fault
  unfolding iterator_reject dlist_iterator_first dlist_iterator_is_valid dlist_iterator_current
      dlist_iterator_next dlist_iterator_delete
  iterator_reject-head_fault fuel m l s p v xs is room rejected =
      let q = l.head in
      let ne : q ≢ null = λ e. is.links.1 (sym is.head ∙ e) in
      let found = ap m.heap is.head ∙ is.links.0 in
      let (l', m', run, gone) =
        Returns-ok (dlist_remove_link l p m) (Shrunk m l p v xs)
          (dlist_remove_link-Shrunk m l [] xs p v is (omega arith)) in
      rw (
        not_null q ne,
        load-ok m q _ ne found,
        rejected,
        load-ok m q _ ne found,
        ap (λ (a : Ptr). dlist_remove_link l a m) is.head ∙ run,
        load-fault q m' (ap m'.heap is.head ∙ gone.1),
      )
