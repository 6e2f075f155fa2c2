-- ===== src/Dlist/Remove.antt =====
-- `dlist_remove_link`: any element of a well linked list can be taken out.
use freebsd_pkg_plugins.Base.{
  ℕ, ◌<◌, ◌≡◌, refl, sym, true, false, none, some, List, [], ◌∷◌, ◌∙◌, ◌++◌, arith, ◌==◌, ==_refl,
  length, word_size, Bool, if◌then◌else◌, length-append,
}
use freebsd_pkg_plugins.Dlist.Memory.{
  Ptr, null, Heap, write, Memory, ok, Returns, load-ok, free-ok, call_dtor,
}
use freebsd_pkg_plugins.Dlist.Linked.{
  Chain, on_chain, front_or, back_or, Joined, IsDList, frame-write, write_self, Joined-append,
  Joined-split, Disjoint, Disjoint-split, on_chain-back_or, ne_of_has, front_or-append,
  back_or-append,
}
use freebsd_pkg_plugins.Dlist.{DList, dlist_remove_link, unlink_head, unlink_tail, decrement}
use freebsd_pkg_plugins.Dlist.Relinking.{
  between, Bypassed, Apart, relink_prev-step, relink_next-step,
}

pub differs : (p q : Ptr) (v : ℕ) (us : Chain) → on_chain p ((q, v) ∷ us) ≡ false → p == q ≡ false
differs p q v us h = ground arith

-- The handle's `head` leaves the element, if it was there.
unlink_head-step :
    (us ws : Chain) (p : Ptr) (v : ℕ) (m : Memory) (l : DList)
    → Apart us ws p
    → Bypassed us ws p v m.heap
    → l.head ≡ front_or us p
    → (h' : Heap) × (unlink_head l p m
        ≡ ok (record l { head = front_or us (front_or ws null) }) (record m { heap = h' }))
      × Bypassed us ws p v h'
unfolding unlink_head
unlink_head-step [] ws p v m l apart (lu, lw, found) at =
    let (h', run, lu', lw', found') = relink_next-step [] ws p v m null null apart lu lw found in
    (h', rw (at, ==_refl p, load-ok m p _ apart.0 found, run), (lu', lw', found'))
unlink_head-step ((q, w) ∷ us) ws p v m l apart by at =
    (m.heap, rw (at, differs p q w us apart.1), by)

unlink_tail-step :
    (us ws : Chain) (p : Ptr) (v : ℕ) (m : Memory) (l : DList)
    → Apart us ws p
    → Bypassed us ws p v m.heap
    → l.tail ≡ back_or ws p
    → (h' : Heap) × (unlink_tail l p m
        ≡ ok (record l { tail = back_or ws (back_or us null) }) (record m { heap = h' }))
      × Bypassed us ws p v h'
unfolding unlink_tail
unlink_tail-step us [] p v m l apart (lu, lw, found) at =
    let (h', run, lu', lw', found') =
      relink_prev-step us [] p v m null (back_or us null) apart lu lw found in
    (h', rw (at, ==_refl p, load-ok m p _ apart.0 found, run), (lu', lw', found'))
unlink_tail-step us ((q, w) ∷ ws) p v m l apart by at = (
  m.heap,
  rw (at, ne_of_has (back_or ws q) p ((q, w) ∷ ws) (on_chain-back_or q w ws) apart.2),
  by,
)

not_before : (us ws : Chain) (p : Ptr) (v : ℕ) → Disjoint us ((p, v) ∷ ws) → on_chain p us ≡ false
not_before us ws p v apart = ground (arith, apart p)

one_less :
    (us ws : Chain) (p : Ptr) (v n : ℕ)
    → n ≡ length (us ++ (p, v) ∷ ws)
    → length (us ++ (p, v) ∷ ws) < word_size
    → decrement n ≡ length (us ++ ws)
one_less us ws p v n e room = omega (arith, length-append us ((p, v) ∷ ws), length-append us ws)

-- what a well linked chain says of one of its elements
pub element_within :
    (h : Heap) (us ws : Chain) (p : Ptr) (v : ℕ)
    → Joined h null null (us ++ (p, v) ∷ ws)
    → Joined h null p us × Joined h p null ws × (h p ≡ some (between us ws v)) × Apart us ws p
element_within h us ws p v links =
    let (lu, lw) = Joined-split h null null us ((p, v) ∷ ws) links in
    let apart = Disjoint-split h null null us ((p, v) ∷ ws) links in
    (lu, lw.3, lw.0, (lw.1, not_before us ws p v apart, lw.2, λ a i. ground (arith, apart a i)))

pub joined :
    (us ws : Chain) (p : Ptr) (v : ℕ) (h : Heap)
    → Apart us ws p
    → Bypassed us ws p v h
    → Joined (write h p none) null null (us ++ ws)
joined us ws p v h apart (lu, lw, found) =
    Joined-append (write h p none) null null us ws
      (frame-write h p none null (front_or ws null) us lu apart.1)
      (frame-write h p none (back_or us null) null ws lw apart.2) apart.3

-- the destructor's calls after one more element has gone
abbrev pub called : DList → ℕ → Memory → List ℕ
called l v m = if l.dtor then m.destroyed ++ v ∷ [] else m.destroyed

call_dtor-ok :
    (d : Bool) (v : ℕ) (m : Memory)
    → call_dtor d v m
      ≡ ok tt (record m { destroyed = if d then m.destroyed ++ v ∷ [] else m.destroyed })
unfolding call_dtor
call_dtor-ok true v m = refl
call_dtor-ok false v m = refl

-- The list keeps `xs`, the element at `p` is free, and the destructor saw its data.
abbrev pub Shrunk : Memory → DList → Ptr → ℕ → Chain → DList → Memory → Type 0
Shrunk m l p v xs l' m' = IsDList m'.heap l' xs × (m'.heap p ≡ none) × (m'.destroyed ≡ called l v m)

-- Taking any element out of a well linked list succeeds without a fault: the others stay, in
-- order, well linked and counted; the element is freed and the destructor, if one is set, is
-- called once, on its data.
pub dlist_remove_link-Shrunk :
    (m : Memory) (l : DList) (us ws : Chain) (p : Ptr) (v : ℕ)
    → IsDList m.heap l (us ++ (p, v) ∷ ws)
    → length (us ++ (p, v) ∷ ws) < word_size
    → Returns (dlist_remove_link l p m) (Shrunk m l p v (us ++ ws))
unfolding dlist_remove_link
dlist_remove_link-Shrunk m l us ws p v is room =
    let (lu, lw, found, apart) = element_within m.heap us ws p v is.links in
    let (h₁, run₁, lu₁, lw₁, found₁) = relink_prev-step us ws p v m p p apart lu lw found in
    let m₁ : Memory = record m { heap = h₁ } in
    let (h₂, run₂, lu₂, lw₂, found₂) =
      relink_next-step us ws p v m₁ p (back_or us null) apart lu₁ lw₁ found₁ in
    let m₂ : Memory = record m { heap = h₂ } in
    let (h₃, run₃, by₃) =
      unlink_head-step us ws p v m₂ l apart (lu₂, lw₂, found₂)
        (is.head ∙ front_or-append us ((p, v) ∷ ws) null) in
    let m₃ : Memory = record m { heap = h₃ } in
    let l₁ : DList = record l { head = front_or us (front_or ws null) } in
    let (h₄, run₄, by₄) =
      unlink_tail-step us ws p v m₃ l₁ apart by₃ (is.tail ∙ back_or-append us ((p, v) ∷ ws) null) in
    let m₄ : Memory = record m { heap = h₄ } in
    let m₅ : Memory = record { heap = h₄; destroyed = called l v m } in
    rw
      (
        load-ok m p _ apart.0 found,
        run₁,
        load-ok m₁ p _ apart.0 found₁,
        run₂,
        run₃,
        run₄,
        load-ok m₄ p _ apart.0 by₄.2,
        call_dtor-ok l.dtor v m₄,
        free-ok m₅ p _ apart.0 by₄.2,
      )
      (
        record {
          head = sym (front_or-append us ws null);
          tail = sym (back_or-append us ws null);
          length = one_less us ws p v l.length is.length room;
          links = joined us ws p v h₄ apart by₄;
        },
        write_self h₄ p none,
        refl,
      )
