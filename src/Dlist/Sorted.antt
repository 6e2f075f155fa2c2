-- ===== src/Dlist/Sorted.antt =====
-- A pass of dlist_sort of kissc/dlist.c in the memory.
use mathlib.Core.Bool.{or_assoc}
use freebsd_pkg_plugins.Base.{
  ℕ, zero, suc, ◌<◌, ◌≡◌, ◌∙◌, ap, sym, refl, Bool, true, false, ◌||◌, some, [], ◌∷◌, arith, ◌==◌,
  ==_refl, length, Bool-cases, inl, inr,
}
use freebsd_pkg_plugins.Dlist.Memory.{Ptr, Memory, element, ok, write, load-ok, set_content-ok}
use freebsd_pkg_plugins.Dlist.Linked.{
  Chain, Joined, front_or, back_or, on_chain, frame-write, write_other, write_self,
}
use freebsd_pkg_plugins.Dlist.Sort.{sort_pass}
use freebsd_pkg_plugins.Dlist.Bubbles.{low, high, swaps, bubbled}

or-false : (b : Bool) → b ≡ b || false
or-false true = refl
or-false false = refl

or-true : (b : Bool) → true ≡ b || true
or-true true = refl
or-true false = refl

-- memories that differ in the data of a chain only
abbrev pub Spares : Chain → Memory → Memory → Type 0
Spares xs m m' =
    ((a : Ptr) → on_chain a xs ≡ false → m'.heap a ≡ m.heap a) × (m'.destroyed ≡ m.destroyed)

module _ (gt : ℕ → ℕ → Bool) where
  front_or-bubbled : (p v : ℕ) (xs : Chain) (s : Ptr) → front_or (bubbled gt p v xs) s ≡ p
  front_or-bubbled p v [] s = refl
  front_or-bubbled p v ((q, w) ∷ xs) s = refl

  pub on_chain-bubbled :
      (a p v : ℕ) (xs : Chain) → on_chain a (bubbled gt p v xs) ≡ on_chain a ((p, v) ∷ xs)
  on_chain-bubbled a p v [] = refl
  on_chain-bubbled a p v ((q, w) ∷ xs) = rw (on_chain-bubbled a q (high gt v w) xs) refl

  -- one round of the pass
  exchange :
      (k : ℕ) (m : Memory) (b s p v q w : ℕ) (xs : Chain) (swapped : Bool)
      → Joined m.heap b s ((p, v) ∷ (q, w) ∷ xs)
      → s == q ≡ false
      → (m' : Memory) × (sort_pass gt (suc k) s p swapped m
          ≡ sort_pass gt k s q (swapped || gt v w) m')
        × Joined m'.heap b s ((p, low gt v w) ∷ (q, high gt v w) ∷ xs)
        × Spares ((p, v) ∷ (q, w) ∷ xs) m m'
  unfolding sort_pass
  exchange k m b s p v q w xs swapped l other =
      let (at_p, some_p, off_p, (at_q, some_q, off_q, rest)) = l in
      let going : q == s ≡ false = ground arith in
      let apart : q == p ≡ false = ground arith in
      elim (Bool-cases (gt v w)) [
        | inl greater ↦
            let m₁ : Memory = record m { heap = write m.heap p (some (element q b w)) } in
            let at_q₁ : m₁.heap q ≡ some (element (front_or xs s) p w) =
              write_other m.heap p q _ apart ∙ at_q in
            let m₂ : Memory = record m {
              heap = write m₁.heap q (some (element (front_or xs s) p v));
            } in
            (
              m₂,
              rw
                  (
                    load-ok m p _ some_p at_p,
                    going,
                    load-ok m q _ some_q at_q,
                    greater,
                    set_content-ok m p _ some_p at_p w,
                    set_content-ok m₁ q _ some_q at_q₁ v,
                  )
                  (ap (λ f. sort_pass gt k s q f m₂) (or-true swapped)),
              rw greater (
                write_other m₁.heap q p _ (let other : p == q ≡ false = ground arith in other)
                    ∙ write_self m.heap p _,
                some_p,
                off_p,
                (
                  write_self m₁.heap q _,
                  some_q,
                  off_q,
                  frame-write m₁.heap q _ q s xs (frame-write m.heap p _ q s xs rest (ground arith))
                      off_q,
                ),
              ),
              (
                (λ a off.
                    write_other m₁.heap q a _ (ground arith)
                    ∙ write_other m.heap p a _ (ground arith)),
                refl,
              ),
            )
        | inr less ↦ (
          m,
          rw (load-ok m p _ some_p at_p, going, load-ok m q _ some_q at_q, less)
              (ap (λ f. sort_pass gt k s q f m) (or-false swapped)),
          rw less l,
          ((λ a off. refl), refl),
        )
      ]

  -- A pass from an element of a chain up to `s`, which is not in it: what it leaves.
  pub sort_pass-Bubbles :
      (xs : Chain) (k : ℕ) (m : Memory) (b s p v : ℕ) (swapped : Bool)
      → Joined m.heap b s ((p, v) ∷ xs)
      → on_chain s xs ≡ false
      → length xs < k
      → (m' : Memory) × (sort_pass gt k s p swapped m
          ≡ ok (swapped || swaps gt v xs, back_or xs p) m')
        × Joined m'.heap b s (bubbled gt p v xs)
        × Spares ((p, v) ∷ xs) m m'
  unfolding sort_pass
  sort_pass-Bubbles xs zero m b s p v swapped l off room = elim room [ ]
  sort_pass-Bubbles [] (suc k) m b s p v swapped l off room = (
    m,
    rw (load-ok m p _ l.1 l.0, ==_refl s) (ap (λ f. ok (f, p) m) (or-false swapped)),
    l,
    ((λ a out. refl), refl),
  )
  sort_pass-Bubbles ((q, w) ∷ xs) (suc k) m b s p v swapped l off room =
      let (m₁, run₁, l₁, (same₁, calls₁)) = exchange k m b s p v q w xs swapped l (ground arith) in
      let (m₂, run₂, l₂, (same₂, calls₂)) =
        sort_pass-Bubbles xs k m₁ p s q (high gt v w) (swapped || gt v w) l₁.3 (ground arith)
          (omega arith) in
      (
        m₂,
        run₁ ∙ run₂ ∙ ap (λ f. ok (f, back_or xs q) m₂) (or_assoc swapped (gt v w) _),
        (
          same₂ p l₁.2
              ∙ l₁.0
              ∙ ap (λ f. some (element f b (low gt v w)))
                  (sym (front_or-bubbled q (high gt v w) xs s)),
          l.1,
          on_chain-bubbled p q (high gt v w) xs ∙ l₁.2,
          l₂,
        ),
        ((λ a out. same₂ a (ground arith) ∙ same₁ a out), calls₂ ∙ calls₁),
      )
