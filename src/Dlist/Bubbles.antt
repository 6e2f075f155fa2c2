-- ===== src/Dlist/Bubbles.antt =====
-- A pass of dlist_sort on the chain alone: what it leaves where, and how that is ordered.
use mathlib.Core.List.{Perm}
use mathlib.Core.List.Perm
use freebsd_pkg_plugins.Base.{
  ℕ, suc, ◌≡◌, ap, refl, Bool, true, false, ◌||◌, List, [], ◌∷◌, ◌++◌, if◌then◌else◌, length,
  Bool-cases, inl, inr, IsOrder, irreflexive,
}
use freebsd_pkg_plugins.Dlist.Memory.{Ptr}
use freebsd_pkg_plugins.Dlist.Linked.{Chain, back_or}
use freebsd_pkg_plugins.Dlist.Loops.{values}

abbrev pub addresses : Chain → List Ptr
addresses [] = []
addresses ((p, v) ∷ xs) = p ∷ addresses xs

pub true-false : true ≡ false → ⊥
true-false e = cc

module _ (gt : ℕ → ℕ → Bool) where
  abbrev pub low : ℕ → ℕ → ℕ
  low v w = if gt v w then w else v

  abbrev pub high : ℕ → ℕ → ℕ
  high v w = if gt v w then v else w

  -- A pass over `(p, v) ∷ xs` leaves `top v xs` in the last element, `kept p v xs` before it, and
  -- says whether it exchanged anything.
  abbrev pub kept : Ptr → ℕ → Chain → Chain
  kept p v [] = []
  kept p v ((q, w) ∷ xs) = (p, low v w) ∷ kept q (high v w) xs

  abbrev pub top : ℕ → Chain → ℕ
  top v [] = v
  top v ((q, w) ∷ xs) = top (high v w) xs

  abbrev pub swaps : ℕ → Chain → Bool
  swaps v [] = false
  swaps v ((q, w) ∷ xs) = gt v w || swaps (high v w) xs

  abbrev pub bubbled : Ptr → ℕ → Chain → Chain
  bubbled p v xs = kept p v xs ++ (back_or xs p, top v xs) ∷ []

  abbrev pub Below : ℕ → List ℕ → Type 0
  Below x [] = Unit
  Below x (y ∷ ys) = (gt x y ≡ false) × Below x ys

  abbrev pub BelowAll : List ℕ → List ℕ → Type 0
  BelowAll [] ys = Unit
  BelowAll (x ∷ xs) ys = Below x ys × BelowAll xs ys

  -- none of the data is greater than a later one
  abbrev pub Sorted : List ℕ → Type 0
  Sorted [] = Unit
  Sorted (x ∷ xs) = Below x xs × Sorted xs

  pub length-kept : (p v : ℕ) (xs : Chain) → length (kept p v xs) ≡ length xs
  length-kept p v [] = refl
  length-kept p v ((q, w) ∷ xs) = ap suc (length-kept q (high v w) xs)

  pub addresses-bubbled : (p v : ℕ) (xs : Chain) → addresses (bubbled p v xs) ≡ p ∷ addresses xs
  addresses-bubbled p v [] = refl
  addresses-bubbled p v ((q, w) ∷ xs) = ap (λ l. p ∷ l) (addresses-bubbled q (high v w) xs)

  exchanged : (v w : ℕ) (l : List ℕ) → Perm (low v w ∷ high v w ∷ l) (v ∷ w ∷ l)
  exchanged v w l = elim (Bool-cases (gt v w)) [
    | inl greater ↦ rw greater (Perm.swap v w l)
    | inr less ↦ rw less (Perm.refl (v ∷ w ∷ l))
  ]

  pub bubbled-Perm : (p v : ℕ) (xs : Chain) → Perm (values (bubbled p v xs)) (v ∷ values xs)
  bubbled-Perm p v [] = Perm.refl (v ∷ [])
  bubbled-Perm p v ((q, w) ∷ xs) =
      Perm.trans (Perm.cons (low v w) (bubbled-Perm q (high v w) xs)) (exchanged v w (values xs))

  -- a pass that exchanges nothing leaves everything
  pub bubbled-unswapped : (p v : ℕ) (xs : Chain) → swaps v xs ≡ false → bubbled p v xs ≡ (p, v) ∷ xs
  bubbled-unswapped p v [] none = refl
  bubbled-unswapped p v ((q, w) ∷ xs) none = elim (Bool-cases (gt v w)) [
    | inl greater ↦ absurd (true-false (rw greater at none))
    | inr less ↦ rw less (ap (λ l. (p, v) ∷ l) (bubbled-unswapped q w xs (rw less at none)))
  ]

  Below-append : (x : ℕ) (ys zs : List ℕ) → Below x ys → Below x zs → Below x (ys ++ zs)
  Below-append x [] zs b c = c
  Below-append x (y ∷ ys) zs b c = (b.0, Below-append x ys zs b.1 c)

  -- both ends of an exchange are among the two
  Below-low : (v w : ℕ) (ys : List ℕ) → Below v ys → Below w ys → Below (low v w) ys
  Below-low v w ys a b = elim (Bool-cases (gt v w)) [
    | inl greater ↦ rw greater b
    | inr less ↦ rw less a
  ]

  Below-high : (v w : ℕ) (ys : List ℕ) → Below v ys → Below w ys → Below (high v w) ys
  Below-high v w ys a b = elim (Bool-cases (gt v w)) [
    | inl greater ↦ rw greater a
    | inr less ↦ rw less b
  ]

  pub bubbled-BelowAll :
      (p v : ℕ) (xs : Chain) (ys : List ℕ)
      → Below v ys
      → BelowAll (values xs) ys
      → BelowAll (values (kept p v xs)) ys × Below (top v xs) ys
  bubbled-BelowAll p v [] ys a b = (tt, a)
  bubbled-BelowAll p v ((q, w) ∷ xs) ys a b =
      let (rest, last) = bubbled-BelowAll q (high v w) xs ys (Below-high v w ys a b.0) b.1 in
      ((Below-low v w ys a b.0, rest), last)

module _ (gt : ℕ → ℕ → Bool) (order : IsOrder gt) where
  low-high : (v w : ℕ) → gt (low gt v w) (high gt v w) ≡ false
  low-high v w = elim (Bool-cases (gt v w)) [
    | inl greater ↦ rw greater (order.asymmetric v w greater)
    | inr less ↦ rw less less
  ]

  start-top : (v : ℕ) (xs : Chain) → gt v (top gt v xs) ≡ false
  start-top v [] = irreflexive gt order v
  start-top v ((q, w) ∷ xs) =
      order.transitive v (high gt v w) _ (start-high v w) (start-top (high gt v w) xs)
    where
      start-high : (v w : ℕ) → gt v (high gt v w) ≡ false
      start-high v w = elim (Bool-cases (gt v w)) [
        | inl greater ↦ rw greater (irreflexive gt order v)
        | inr less ↦ rw less less
      ]

  -- what a pass keeps is not greater than what it leaves last
  pub kept-BelowAll :
      (p v : ℕ) (xs : Chain) → BelowAll gt (values (kept gt p v xs)) (top gt v xs ∷ [])
  kept-BelowAll p v [] = tt
  kept-BelowAll p v ((q, w) ∷ xs) = (
    (order.transitive (low gt v w) (high gt v w) _ (low-high v w) (start-top (high gt v w) xs), tt),
    kept-BelowAll q (high gt v w) xs,
  )

  Below-mono : (x y : ℕ) (zs : List ℕ) → gt x y ≡ false → Below gt y zs → Below gt x zs
  Below-mono x y [] le b = tt
  Below-mono x y (z ∷ zs) le b = (order.transitive x y z le b.0, Below-mono x y zs le b.1)

  pub swaps-Sorted : (v : ℕ) (xs : Chain) → swaps gt v xs ≡ false → Sorted gt (v ∷ values xs)
  swaps-Sorted v [] none = (tt, tt)
  swaps-Sorted v ((q, w) ∷ xs) none = elim (Bool-cases (gt v w)) [
    | inl greater ↦ absurd (true-false (rw greater at none))
    | inr less ↦
        let sorted = swaps-Sorted w xs (rw less at none) in
        ((less, Below-mono v w (values xs) less sorted.0), sorted)
  ]

module _ (gt : ℕ → ℕ → Bool) where
  pub Sorted-append :
      (xs ys : List ℕ) → Sorted gt xs → BelowAll gt xs ys → Sorted gt ys → Sorted gt (xs ++ ys)
  Sorted-append [] ys s b t = t
  Sorted-append (x ∷ xs) ys s b t = (Below-append gt x xs ys s.0 b.0, Sorted-append xs ys s.1 b.1 t)

  pub BelowAll-cons :
      (xs : List ℕ) (y : ℕ) (ys : List ℕ)
      → BelowAll gt xs (y ∷ [])
      → BelowAll gt xs ys
      → BelowAll gt xs (y ∷ ys)
  BelowAll-cons [] y ys a b = tt
  BelowAll-cons (x ∷ xs) y ys a b = ((a.0.0, b.0), BelowAll-cons xs y ys a.1 b.1)
