-- ===== src/Dlist/Prepend.antt =====
-- `dlist_prepend`: what it leaves behind on an empty list and on one with elements.
use freebsd_pkg_plugins.Base.{
  ℕ, ◌≡◌, ◌≢◌, refl, sym, ap, subst, true, false, none, some, [], ◌∷◌, ◌∙◌, arith, ◌==◌, Option,
  Bool,
}
use freebsd_pkg_plugins.Dlist.Memory.{
  Ptr, null, element, Heap, write, Memory, Returns, set_next-ok, set_prev-ok, Returns-mono,
}
use freebsd_pkg_plugins.Dlist.Linked.{Chain, front_or, Joined, IsDList, write_self, write_other}
use freebsd_pkg_plugins.Dlist.Append.{
  handle, eq_handle, not_null, is_new, alloc-ok, Becomes, Becomes-Grown, Grown,
}
use freebsd_pkg_plugins.Dlist.{DList, dlist_prepend, duplicate}

-- A head whose successor does not point back to it begins no well linked list.
next_eq : (a b c a' b' c' : ℕ) → some (element a b c) ≡ some (element a' b' c') → a ≡ a'
next_eq a b c a' b' c' e = ground arith

prev_eq : (a b c a' b' c' : ℕ) → some (element a b c) ≡ some (element a' b' c') → b ≡ b'
prev_eq a b c a' b' c' e = ground arith

torn_head :
    (h : Heap) (a p : Ptr) (v w : ℕ) (n : Ptr)
    → h a ≡ some (element p null v)
    → h p ≡ some (element n null w)
    → a ≢ null
    → p ≢ null
    → (zs : Chain) → front_or zs null ≡ a
    → Joined h null null zs
    → ⊥
torn_head h a p v w n ha hp na np [] at links = ground arith
torn_head h a p v w n ha hp na np ((q, x) ∷ []) at links = ground (arith, ap h at)
torn_head h a p v w n ha hp na np ((q, x) ∷ (r, y) ∷ zs) at links =
    let here : some (element r null x) ≡ some (element p null v) = sym links.0 ∙ (ap h at ∙ ha) in
    let r_p : r ≡ p = next_eq _ _ _ _ _ _ here in
    let there = sym links.3.0 ∙ (ap h r_p ∙ hp) in na (sym at ∙ prev_eq _ _ _ _ _ _ there)

module _ (m : Memory) (fresh : Ptr) (ne : fresh ≢ null) (dup : Option (ℕ → ℕ)) (dtor : Bool)
    (v : ℕ) where
  prepend-nil :
      Returns
        (dlist_prepend fresh (handle dup dtor []) v m)
        (Becomes m (handle dup dtor []) ((fresh, duplicate dup v) ∷ []))
  unfolding dlist_prepend
  prepend-nil =
      let e = element null null (duplicate dup v) in
      let h = write m.heap fresh (some e) in
      rw
        (
          alloc-ok m fresh ne (handle dup dtor []) v,
          is_new m fresh ne,
          set_prev-ok (record m { heap = h }) fresh e ne (write_self _ _ _) null,
          set_next-ok (record m { heap = write h fresh (some e) }) fresh e ne (write_self _ _ _)
              null,
        )
        (refl, refl, (write_self _ _ _, ne, refl, tt), refl)

  -- the two elements at the front afterwards
  prepend-cons :
      (p : Ptr) (w : ℕ) (xs : Chain)
      → Joined m.heap null null ((p, w) ∷ xs)
      → m.heap fresh ≡ none
      → Returns (dlist_prepend fresh (handle dup dtor ((p, w) ∷ xs)) v m) (λ r m'.
        (r.0 ≡ true)
        × (r.1.head ≡ fresh)
        × (m'.heap fresh ≡ some (element p null (duplicate dup v)))
        × (m'.heap p ≡ some (element (front_or xs null) null w)))
  unfolding dlist_prepend
  prepend-cons p w xs links unused =
      let e = element null null (duplicate dup v) in
      let h₁ = write m.heap fresh (some e) in
      let h₂ = write h₁ fresh (some e) in
      let apart : p == fresh ≡ false = ground arith in
      rw
        (
          alloc-ok m fresh ne (handle dup dtor ((p, w) ∷ xs)) v,
          is_new m fresh ne,
          set_prev-ok (record m { heap = h₁ }) fresh e ne (write_self _ _ _) null,
          not_null p links.1,
          set_next-ok (record m { heap = h₂ }) fresh e ne (write_self _ _ _) p,
        )
        (
          refl,
          refl,
          write_self _ _ _,
          write_other h₂ fresh p _ apart
              ∙ (write_other h₁ fresh p _ apart ∙ (write_other m.heap fresh p _ apart ∙ links.0)),
        )

-- Prepending to an empty list works as appending does.
pub dlist_prepend_empty :
    (m : Memory) (l : DList) (fresh : Ptr) (v : ℕ)
    → IsDList m.heap l []
    → fresh ≢ null
    → Returns (dlist_prepend fresh l v m) (Grown m l ((fresh, duplicate l.dup v) ∷ []))
dlist_prepend_empty m l fresh v is ne =
    subst (λ k. Returns (dlist_prepend fresh k v m) (Grown m k ((fresh, duplicate k.dup v) ∷ [])))
      (sym (eq_handle m.heap l [] is))
      (Returns-mono (dlist_prepend fresh (handle l.dup l.dtor []) v m)
        (Becomes m (handle l.dup l.dtor []) ((fresh, duplicate l.dup v) ∷ []))
        (Grown m (handle l.dup l.dtor []) ((fresh, duplicate l.dup v) ∷ []))
        (prepend-nil m fresh ne l.dup l.dtor v) (Becomes-Grown m (handle l.dup l.dtor []) _))

-- On a well linked list that has an element, `dlist_prepend` reports success and leaves a list that
-- is not well linked, whatever cells it is read as: the old head's `prev` is not set.
dlist_prepend-not-IsDList :
    (m : Memory) (l : DList) (p : Ptr) (w : ℕ) (xs : Chain) (fresh : Ptr) (v : ℕ)
    → IsDList m.heap l ((p, w) ∷ xs)
    → fresh ≢ null
    → m.heap fresh ≡ none
    → Returns
        (dlist_prepend fresh l v m)
        (λ r m'. (r.0 ≡ true) × ((zs : Chain) → ¬ IsDList m'.heap r.1 zs))
dlist_prepend-not-IsDList m l p w xs fresh v is ne unused =
    subst
      (λ k.
        Returns (dlist_prepend fresh k v m)
          (λ r m'. (r.0 ≡ true) × ((zs : Chain) → ¬ IsDList m'.heap r.1 zs)))
      (sym (eq_handle m.heap l ((p, w) ∷ xs) is))
      (Returns-mono (dlist_prepend fresh (handle l.dup l.dtor ((p, w) ∷ xs)) v m) _ _
        (prepend-cons m fresh ne l.dup l.dtor v p w xs is.links unused)
        (λ r m' (done, front, new, old). (
          done,
          λ zs bad.
              torn_head m'.heap fresh p _ w _ new old ne is.links.1 zs (sym bad.head ∙ front)
                bad.links,
        )))
