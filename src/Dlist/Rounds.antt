-- ===== src/Dlist/Rounds.antt =====
-- The rounds of dlist_sort of kissc/dlist.c: each leaves the greatest of the data after the others.
use mathlib.Core.List.{Perm}
use mathlib.Core.List.Perm
use freebsd_pkg_plugins.Base.{
  ℕ, zero, suc, ◌<◌, ◌≡◌, ◌∙◌, ap, sym, refl, subst, Bool, true, false, [], ◌∷◌, ◌++◌, arith,
  append_assoc, length, Bool-cases, inl, inr, IsOrder,
}
use freebsd_pkg_plugins.Dlist.Memory.{Ptr, null, Heap, Memory, ok}
use freebsd_pkg_plugins.Dlist.Linked.{
  Chain, Joined, Disjoint, front_or, back_or, on_chain, back_or-append, frame, Joined-append,
  Joined-split, Disjoint-split,
}
use freebsd_pkg_plugins.Dlist.Loops.{values}
use freebsd_pkg_plugins.Dlist.Sort.{sort_pass, sort_rounds}
use freebsd_pkg_plugins.Dlist.Sorted.{on_chain-bubbled, Spares, sort_pass-Bubbles}
use freebsd_pkg_plugins.Dlist.Bubbles.{
  true-false, addresses, low, high, kept, top, swaps, bubbled, BelowAll, Sorted, length-kept,
  addresses-bubbled, bubbled-Perm, bubbled-unswapped, bubbled-BelowAll, kept-BelowAll, swaps-Sorted,
  Sorted-append, BelowAll-cons,
}

-- what sorting makes of a chain
abbrev pub SortedChain : (ℕ → ℕ → Bool) → Chain → Chain → Type 0
SortedChain gt xs zs =
    (addresses zs ≡ addresses xs) × Perm (values zs) (values xs) × Sorted gt (values zs)

values-append : (xs ys : Chain) → values (xs ++ ys) ≡ values xs ++ values ys
values-append [] ys = refl
values-append ((p, v) ∷ xs) ys = ap (λ l. v ∷ l) (values-append xs ys)

addresses-append : (xs ys : Chain) → addresses (xs ++ ys) ≡ addresses xs ++ addresses ys
addresses-append [] ys = refl
addresses-append ((p, v) ∷ xs) ys = ap (λ l. p ∷ l) (addresses-append xs ys)

on_chain-null : (h : Heap) (b s : Ptr) (xs : Chain) → Joined h b s xs → on_chain null xs ≡ false
on_chain-null h b s [] l = refl
on_chain-null h b s ((p, v) ∷ xs) l = ground (arith, l.1, on_chain-null h p s xs l.3)

-- where a chain goes on is not in the chain
on_chain-front_or :
    (h : Heap) (b : Ptr) (xs ys : Chain)
    → Joined h b (front_or ys null) xs
    → Disjoint xs ys
    → on_chain (front_or ys null) xs ≡ false
on_chain-front_or h b xs [] l apart = on_chain-null h b null xs l
on_chain-front_or h b xs ((q, w) ∷ ys) l apart = ground (arith, apart q)

elsewhere :
    (a : Ptr) (xs ys : Chain) → Disjoint xs ys → on_chain a ys ≡ true → on_chain a xs ≡ false
elsewhere a xs ys apart i = elim (Bool-cases (on_chain a xs)) [
  | inl both ↦ absurd (true-false (sym i ∙ apart a both))
  | inr out ↦ out
]

module _ (gt : ℕ → ℕ → Bool) where
  -- The chain after a pass over its first part.
  bubbled-Joined :
      (m m₁ : Memory) (p v : ℕ) (xs ys : Chain)
      → Joined m.heap null null (((p, v) ∷ xs) ++ ys)
      → Joined m₁.heap null (front_or ys null) (bubbled gt p v xs)
      → Spares ((p, v) ∷ xs) m m₁
      → Joined m₁.heap null null (bubbled gt p v xs ++ ys)
  bubbled-Joined m m₁ p v xs ys l joined (same, calls) =
      let (left, right) = Joined-split m.heap null null ((p, v) ∷ xs) ys l in
      let apart = Disjoint-split m.heap null null ((p, v) ∷ xs) ys l in
      let last : back_or (bubbled gt p v xs) null ≡ back_or xs p =
        back_or-append (kept gt p v xs) ((back_or xs p, top gt v xs) ∷ []) null in
      let kept_right =
        frame m.heap m₁.heap (back_or xs p) null ys right
          (λ a i. same a (elsewhere a ((p, v) ∷ xs) ys apart i)) in
      Joined-append m₁.heap null null (bubbled gt p v xs) ys joined
        (subst (λ b. Joined m₁.heap b null ys) (sym last) kept_right)
        (λ a i. apart a (sym (on_chain-bubbled gt a p v xs) ∙ i))

  bubbled-front :
      (p v : ℕ) (xs ys : Chain)
      → addresses (bubbled gt p v xs ++ ys) ≡ addresses (((p, v) ∷ xs) ++ ys)
  bubbled-front p v xs ys =
      addresses-append (bubbled gt p v xs) ys
      ∙ ap (λ l. l ++ addresses ys) (addresses-bubbled gt p v xs)
      ∙ ap (λ l. p ∷ l) (sym (addresses-append xs ys))

  bubbled-whole :
      (p v : ℕ) (xs ys : Chain)
      → Perm (values (bubbled gt p v xs ++ ys)) (values (((p, v) ∷ xs) ++ ys))
  bubbled-whole p v xs ys =
      subst (λ l. Perm l (values (((p, v) ∷ xs) ++ ys)))
        (sym (values-append (bubbled gt p v xs) ys))
        (subst (λ l. Perm (values (bubbled gt p v xs) ++ values ys) (v ∷ l))
          (sym (values-append xs ys)) (Perm.append_right (values ys) (bubbled-Perm gt p v xs)))

module _ (gt : ℕ → ℕ → Bool) (order : IsOrder gt) (fuel : ℕ) where
  unfoldable pub Sorts : (k : ℕ) (xs ys : Chain) (m : Memory) (p v : ℕ) → Type 0
  Sorts k xs ys m p v =
      (m' : Memory) × (zs : Chain) × (sort_rounds gt fuel k p (front_or ys null) m ≡ ok tt m')
      × Joined m'.heap null null zs
      × SortedChain gt (((p, v) ∷ xs) ++ ys) zs
      × (m'.destroyed ≡ m.destroyed)

  -- the last round
  sort_rounds-ends :
      (k : ℕ) (xs ys : Chain) (m m₁ : Memory) (p v : ℕ)
      → sort_pass gt fuel (front_or ys null) p false m ≡ ok (swaps gt v xs, back_or xs p) m₁
      → Joined m₁.heap null null (bubbled gt p v xs ++ ys)
      → m₁.destroyed ≡ m.destroyed
      → swaps gt v xs ≡ false
      → Sorted gt (values ys)
      → BelowAll gt (v ∷ values xs) (values ys)
      → Sorts (suc k) xs ys m p v
  unfolding Sorts sort_rounds
  sort_rounds-ends k xs ys m m₁ p v run joined calls still sorted below = (
    m₁,
    ((p, v) ∷ xs) ++ ys,
    rw (run, still) refl,
    subst (λ c. Joined m₁.heap null null (c ++ ys)) (bubbled-unswapped gt p v xs still) joined,
    (
      refl,
      Perm.refl _,
      subst (λ l. Sorted gt (v ∷ l)) (sym (values-append xs ys))
          (Sorted-append gt (v ∷ values xs) (values ys) (swaps-Sorted gt order v xs still) below
            sorted),
    ),
    calls,
  )

  -- Rounds on the elements `(p, v) ∷ xs` before `ys`, which are sorted and not less.
  pub sort_rounds-Sorts :
      (k : ℕ) (xs ys : Chain) (m : Memory) (p v : ℕ)
      → Joined m.heap null null (((p, v) ∷ xs) ++ ys)
      → length xs < k
      → length xs < fuel
      → Sorted gt (values ys)
      → BelowAll gt (v ∷ values xs) (values ys)
      → Sorts k xs ys m p v
  unfolding Sorts sort_rounds
  sort_rounds-Sorts zero xs ys m p v l rounds room sorted below = elim rounds [ ]
  sort_rounds-Sorts (suc k) [] ys m p v l rounds room sorted below =
      let (left, right) = Joined-split m.heap null null ((p, v) ∷ []) ys l in
      let apart = Disjoint-split m.heap null null ((p, v) ∷ []) ys l in
      let (m₁, run, joined, spares) =
        sort_pass-Bubbles gt [] fuel m null (front_or ys null) p v false left refl room in
      sort_rounds-ends k [] ys m m₁ p v run (bubbled-Joined gt m m₁ p v [] ys l joined spares)
        spares.1 refl sorted below
  sort_rounds-Sorts (suc k) ((q, w) ∷ xs) ys m p v l rounds room sorted below =
      let xs' : Chain = (q, w) ∷ xs in
      let (left, right) = Joined-split m.heap null null ((p, v) ∷ xs') ys l in
      let apart = Disjoint-split m.heap null null ((p, v) ∷ xs') ys l in
      let off : on_chain (front_or ys null) xs' ≡ false =
        ground (arith, on_chain-front_or m.heap null ((p, v) ∷ xs') ys left apart) in
      let (m₁, run, joined, spares) =
        sort_pass-Bubbles gt xs' fuel m null (front_or ys null) p v false left off room in
      let whole = bubbled-Joined gt m m₁ p v xs' ys l joined spares in
      elim (Bool-cases (swaps gt v xs')) [
        | inr still ↦ sort_rounds-ends k xs' ys m m₁ p v run whole spares.1 still sorted below
        | inl again ↦
            let (held, topped) = bubbled-BelowAll gt p v xs' (values ys) below.0 below.1 in
            let ys' : Chain = (back_or xs' p, top gt v xs') ∷ ys in
            let moved : bubbled gt p v xs' ++ ys ≡ kept gt p v xs' ++ ys' =
              append_assoc (kept gt p v xs') _ ys in
            let (m', zs, run', joined', (same', perm', sorted'), calls') =
              sort_rounds-Sorts k (kept gt q (high gt v w) xs) ys' m₁ p (low gt v w)
                (subst (Joined m₁.heap null null) moved whole)
                (omega (arith, length-kept gt q (high gt v w) xs))
                (omega (arith, length-kept gt q (high gt v w) xs)) (topped, sorted)
                (BelowAll-cons gt (values (kept gt p v xs')) (top gt v xs') (values ys)
                  (kept-BelowAll gt order p v xs') held) in
            (
              m',
              zs,
              rw (run, again) run',
              joined',
              (
                same' ∙ ap addresses (sym moved) ∙ bubbled-front gt p v xs' ys,
                Perm.trans (subst (λ c. Perm (values zs) (values c)) (sym moved) perm')
                    (bubbled-whole gt p v xs' ys),
                sorted',
              ),
              calls' ∙ spares.1,
            )
      ]
