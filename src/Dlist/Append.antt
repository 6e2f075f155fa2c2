-- ===== src/Dlist/Append.antt =====
-- `dlist_append`: the list grows at its end and stays well linked.
use freebsd_pkg_plugins.Base.{
  ℕ, suc, ◌+◌, ◌<◌, ◌≡◌, ◌≢◌, refl, sym, ap, subst, true, false, none, some, [], ◌∷◌, ◌++◌, arith,
  ◌==◌, ◌||◌, length, word_size, ◌∙◌, Option, Bool, length-append,
}
use freebsd_pkg_plugins.Dlist.Memory.{
  Ptr, null, Element, element, write, Memory, ok, Returns, set_next-ok, set_prev-ok, Returns-mono,
}
use freebsd_pkg_plugins.Dlist.Linked.{
  Chain, on_chain, front_or, back_or, Joined, IsDList, write_self, write_other, frame-write,
  Joined-append, Joined-set_last, ne_of_has, on_chain-back_or, last_lem, back_or-append,
  not_has_of_none,
}
use freebsd_pkg_plugins.Dlist.{DList, dlist_append, duplicate, alloc_element, increment}

-- the handle of a list with these cells
abbrev pub handle : Option (ℕ → ℕ) → Bool → Chain → DList
handle dup dtor xs = record {
  length = length xs;
  dup = dup;
  dtor = dtor;
  head = front_or xs null;
  tail = back_or xs null;
}

pub eq_handle :
    (h : Ptr → Option Element) (l : DList) (xs : Chain)
    → IsDList h l xs
    → l ≡ handle l.dup l.dtor xs
eq_handle h l xs is = ground arith

pub handle-IsDList :
    (h : Ptr → Option Element) (dup : Option (ℕ → ℕ)) (dtor : Bool) (xs : Chain)
    → Joined h null null xs
    → IsDList h (handle dup dtor xs) xs
handle-IsDList h dup dtor xs l = record { head = refl; tail = refl; length = refl; links = l }

==_false_sym : (a b : ℕ) → a == b ≡ false → b == a ≡ false
==_false_sym a b h = ground arith

==_or_false : (a b : ℕ) → a == b ≡ false → (b == a || false) ≡ false
==_or_false a b h = ground arith

-- What `dlist_append` answers when `xs` becomes `ys`.
abbrev pub Becomes : Memory → DList → Chain → Bool × DList → Memory → Type 0
Becomes m l ys r m' =
    (r.0 ≡ true)
    × (r.1 ≡ handle l.dup l.dtor ys)
    × Joined m'.heap null null ys
    × (m'.destroyed ≡ m.destroyed)

pub not_null : (p : Ptr) → p ≢ null → p == null ≡ false
not_null p ne = ground arith

module _ (m : Memory) (fresh : Ptr) (ne : fresh ≢ null) where
  pub is_new : fresh == null ≡ false
  is_new = ground arith

  pub alloc-ok :
      (l : DList) (v : ℕ)
      → alloc_element fresh l v m
        ≡ ok fresh
            (record m { heap = write m.heap fresh (some (element null null (duplicate l.dup v))) })
  unfolding alloc_element
  alloc-ok l v = rw is_new

  append-nil :
      (dup : Option (ℕ → ℕ)) (dtor : Bool) (v : ℕ)
      → Returns
          (dlist_append fresh (handle dup dtor []) v m)
          (Becomes m (handle dup dtor []) ((fresh, duplicate dup v) ∷ []))
  unfolding dlist_append
  append-nil dup dtor v =
      let e = element null null (duplicate dup v) in
      let h = write m.heap fresh (some e) in
      rw
        (
          alloc-ok (handle dup dtor []) v,
          is_new,
          set_next-ok (record m { heap = h }) fresh e ne (write_self _ _ _) null,
          set_prev-ok (record m { heap = write h fresh (some e) }) fresh e ne (write_self _ _ _)
              null,
        )
        (refl, refl, (write_self _ _ _, ne, refl, tt), refl)

  module _ (p : Ptr) (w : ℕ) (xs : Chain) (links : Joined m.heap null null ((p, w) ∷ xs))
      (unused : m.heap fresh ≡ none) (room : length xs + 2 < word_size) where
    append-cons :
        (dup : Option (ℕ → ℕ)) (dtor : Bool) (v : ℕ)
        → Returns (dlist_append fresh (handle dup dtor ((p, w) ∷ xs)) v m) (
            Becomes m
              (handle dup dtor ((p, w) ∷ xs))
              (((p, w) ∷ xs) ++ (fresh, duplicate dup v) ∷ []))
    unfolding dlist_append
    append-cons dup dtor v =
        let ys : Chain = (p, w) ∷ xs in
        let (e, found, stop, some_tail) = last_lem m.heap null null p w xs links in
        let t = back_or xs p in
        let out : on_chain fresh ys ≡ false =
          not_has_of_none m.heap fresh null null ys links unused in
        let other : t == fresh ≡ false =
          ==_false_sym fresh t (ne_of_has t fresh ys (on_chain-back_or p w xs) out) in
        let n = element null null (duplicate dup v) in
        let h₁ = write m.heap fresh (some n) in
        let h₂ = write h₁ fresh (some n) in
        let h₃ = write h₂ t (some (record e { next = fresh })) in
        let found₂ : h₂ t ≡ some e =
          write_other h₁ fresh t (some n) other
          ∙ (write_other m.heap fresh t (some n) other ∙ found) in
        let new₃ : h₃ fresh ≡ some n =
          write_other h₂ t fresh _ (ne_of_has t fresh ys (on_chain-back_or p w xs) out)
          ∙ write_self _ _ _ in
        let left =
          frame-write h₃ fresh (some (element null t (duplicate dup v))) null fresh ys
            (Joined-set_last h₂ null null fresh p w xs e
              (frame-write h₁ fresh (some n) null null ys
                (frame-write m.heap fresh (some n) null null ys links out) out)
              found₂)
            out in
        let c : Chain = (fresh, duplicate dup v) ∷ [] in
        let longer : increment (suc (length xs)) ≡ suc (length (xs ++ c)) =
          omega (arith, length-append xs c) in
        let end = back_or-append xs c p in
        rw
          (
            alloc-ok (handle dup dtor ((p, w) ∷ xs)) v,
            is_new,
            set_next-ok (record m { heap = h₁ }) fresh n ne (write_self _ _ _) null,
            not_null t some_tail,
            set_next-ok (record m { heap = h₂ }) t e some_tail found₂ fresh,
            set_prev-ok (record m { heap = h₃ }) fresh n ne new₃ t,
          )
          (
            refl,
            (λ i. record { length = longer i; dup = dup; dtor = dtor; head = p; tail = sym end i }),
            Joined-append _ null null ys _ left ((write_self _ _ _, ne, refl, tt))
                (λ a i. ==_or_false fresh a (ne_of_has a fresh ys i out)),
            refl,
          )

-- The list `l` of `m` with data `xs` has become `r.1`, with `ys`; no destructor was called.
abbrev pub Grown : Memory → DList → Chain → Bool × DList → Memory → Type 0
Grown m l ys r m' =
    (r.0 ≡ true)
    × IsDList m'.heap r.1 ys
    × (r.1.dup ≡ l.dup)
    × (r.1.dtor ≡ l.dtor)
    × (m'.destroyed ≡ m.destroyed)

pub Becomes-Grown :
    (m : Memory) (l : DList) (ys : Chain) (r : Bool × DList) (m' : Memory)
    → Becomes m l ys r m'
    → Grown m l ys r m'
Becomes-Grown m l ys (b, l') m' (done, is, links, same) = (
  done,
  subst (λ k. IsDList m'.heap k ys) (sym is) (handle-IsDList m'.heap l.dup l.dtor ys links),
  ap DList.dup is,
  ap DList.dtor is,
  same,
)

append_handle :
    (m : Memory) (fresh : Ptr) (dup : Option (ℕ → ℕ)) (dtor : Bool) (v : ℕ) (xs : Chain)
    → fresh ≢ null
    → m.heap fresh ≡ none
    → length xs + 1 < word_size
    → Joined m.heap null null xs
    → Returns
        (dlist_append fresh (handle dup dtor xs) v m)
        (Becomes m (handle dup dtor xs) (xs ++ (fresh, duplicate dup v) ∷ []))
append_handle m fresh dup dtor v [] ne unused room links = append-nil m fresh ne dup dtor v
append_handle m fresh dup dtor v ((p, w) ∷ xs) ne unused room links =
    append-cons m fresh ne p w xs links unused (omega arith) dup dtor v

-- On a well linked list, with a fresh element from `malloc`, `dlist_append` succeeds without a
-- fault: the list stays well linked and counted, its data are the old ones followed by the new
-- one, passed through `dup` if that is set; both callbacks stay, and no destructor is called.
pub dlist_append-Grown :
    (m : Memory) (l : DList) (xs : Chain) (fresh : Ptr) (v : ℕ)
    → IsDList m.heap l xs
    → fresh ≢ null
    → m.heap fresh ≡ none
    → length xs + 1 < word_size
    → Returns (dlist_append fresh l v m) (Grown m l (xs ++ (fresh, duplicate l.dup v) ∷ []))
dlist_append-Grown m l xs fresh v is ne unused room =
    subst
      (λ k. Returns (dlist_append fresh k v m) (Grown m k (xs ++ (fresh, duplicate k.dup v) ∷ [])))
      (sym (eq_handle m.heap l xs is))
      (Returns-mono _ _ _ (append_handle m fresh l.dup l.dtor v xs ne unused room is.links)
        (Becomes-Grown m (handle l.dup l.dtor xs) _))
