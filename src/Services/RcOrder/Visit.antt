-- ===== src/Services/RcOrder/Visit.antt =====
-- The walk over the rc.d scripts ends, and meets each script once at most.
use freebsd_pkg_plugins.Base.{
  ℕ, zero, suc, ◌+◌, ◌<◌, ◌≤◌, ◌≡◌, refl, sym, Bool, true, false, ◌||◌, Option, some, List, [], ◌∷◌,
  ◌++◌, ◌==◌, ==→eq, if◌then◌else◌, arith, Bool-cases, inl, inr, ◌∙◌, ap,
}
use mathlib.Core.Bool.{or_assoc}
use freebsd_pkg_plugins.Services.RcOrder.{has, visit_children, visit_script, emit}

abbrev pub Grows : List ℕ → List ℕ → Type 0
Grows seen seen' = (a : ℕ) → has a seen ≡ true → has a seen' ≡ true

-- what the callback saw: new scripts, none twice
abbrev pub Fresh : List ℕ → List ℕ → List ℕ → Type 0
Fresh seen seen' out = (a : ℕ) → has a out ≡ true → (has a seen ≡ false) × (has a seen' ≡ true)

abbrev pub NoRepeat : List ℕ → Type 0
NoRepeat [] = Unit
NoRepeat (x ∷ xs) = (has x xs ≡ false) × NoRepeat xs

-- scripts of `all` that are not visited
abbrev pub unseen : List ℕ → List ℕ → ℕ
unseen [] seen = 0
unseen (a ∷ all) seen = if has a seen then unseen all seen else unseen all seen + 1

has-append :
    (script : ℕ) (before after : List ℕ)
    → has script (before ++ after) ≡ (has script before || has script after)
has-append script [] after = refl
has-append script (other ∷ before) after =
    ap (λ b. (script == other) || b) (has-append script before after)
    ∙ sym (or_assoc (script == other) (has script before) (has script after))

unseen-le : (all seen seen' : List ℕ) → Grows seen seen' → unseen all seen' ≤ unseen all seen
unseen-le [] seen seen' g = omega arith
unseen-le (a ∷ all) seen seen' g = ground (arith, unseen-le all seen seen' g, g a)

unseen-lt :
    (all seen : List ℕ) (s : ℕ)
    → has s all ≡ true
    → has s seen ≡ false
    → unseen all (s ∷ seen) < unseen all seen
unseen-lt [] seen s i o = cc
unseen-lt (a ∷ all) seen s i o =
    ground (arith, unseen-lt all seen s, unseen-le all seen (s ∷ seen) (λ b h. ground arith))

NoRepeat-append :
    (xs ys : List ℕ)
    → NoRepeat xs
    → NoRepeat ys
    → ((a : ℕ) → has a xs ≡ true → has a ys ≡ false)
    → NoRepeat (xs ++ ys)
NoRepeat-append [] ys nx ny apart = ny
NoRepeat-append (x ∷ xs) ys nx ny apart = (
  rw (has-append x xs ys) (ground (arith, apart x)),
  NoRepeat-append xs ys nx.1 ny (λ a h. ground (arith, apart a)),
)

-- One part of the walk: from the visited scripts `seen` to `seen'`, with the callback on `out`.
pub record Walk (seen seen' out : List ℕ) : Type 0 where
  pub grows : Grows seen seen'
  pub fresh : Fresh seen seen' out
  pub no_repeat : NoRepeat out

Walk-append :
    (seen seen₁ seen₂ out₁ out₂ : List ℕ)
    → Walk seen seen₁ out₁
    → Walk seen₁ seen₂ out₂
    → Walk seen seen₂ (out₁ ++ out₂)
Walk-append seen seen₁ seen₂ out₁ out₂ w₁ w₂ = record {
  grows = λ a h. w₂.grows a (w₁.grows a h);
  fresh =
      λ a h. ground (arith, has-append a out₁ out₂, w₁.fresh a, w₂.fresh a, w₁.grows a, w₂.grows a);
  no_repeat =
      NoRepeat-append out₁ out₂ w₁.no_repeat w₂.no_repeat
        (λ a h. ground (arith, w₁.fresh a, w₂.fresh a));
}

Walk-nil : (seen : List ℕ) → Walk seen seen []
Walk-nil seen = record { grows = λ a h. h; fresh = λ a h. cc; no_repeat = tt }

differ : (a s : ℕ) (out : List ℕ) → has a out ≡ true → has s out ≡ false → has a (s ∷ []) ≡ false
differ a s out i o = elim (Bool-cases (a == s)) [
  | inr ne ↦ ground arith
  | inl e ↦ let same = ==→eq a s e in ground (arith, ap (λ b. has b out) same)
]

module _ (children : ℕ → List ℕ) (keep : ℕ → Bool) (reverse : Bool) where
  NoRepeat-emit :
      (s : ℕ) (out : List ℕ)
      → NoRepeat out
      → has s out ≡ false
      → NoRepeat (emit children keep reverse s out)
  unfolding emit
  NoRepeat-emit s out n o = elim (Bool-cases (keep s)) [
    | inr dropped ↦ rw dropped n
    | inl kept ↦ elim (Bool-cases reverse) [
      | inl front ↦ rw (kept, front) (o, n)
      | inr back ↦
          rw (kept, back) (NoRepeat-append out (s ∷ []) n (refl, tt) (λ a h. differ a s out h o))
    ]
  ]

  has-emit :
      (a s : ℕ) (out : List ℕ)
      → has a (emit children keep reverse s out) ≡ true
      → has a (s ∷ out) ≡ true
  unfolding emit
  has-emit a s out h = ground (arith, has-append a out (s ∷ []))

  Walk-emit :
      (seen seen' out : List ℕ) (s : ℕ)
      → has s seen ≡ false
      → Walk (s ∷ seen) seen' out
      → Walk seen seen' (emit children keep reverse s out)
  Walk-emit seen seen' out s new w = record {
    grows = λ a h. w.grows a (ground arith);
    fresh = λ a h. ground (arith, has-emit a s out h, w.fresh a, w.grows a, w.grows s);
    no_repeat = NoRepeat-emit s out w.no_repeat (ground (arith, w.fresh s));
  }

  module _ (all : List ℕ)
      (closed : (s c : ℕ) → has s all ≡ true → has c (children s) ≡ true → has c all ≡ true) where
    -- what a visit with this fuel promises
    abbrev pub Visits : ℕ → (List ℕ → ℕ → Option (List ℕ × List ℕ)) → Type 0
    Visits k visit =
        (seen : List ℕ) (s : ℕ)
        → has s all ≡ true
        → has s seen ≡ false
        → unseen all seen ≤ k
        → (seen' : List ℕ) × (out : List ℕ) × (visit seen s ≡ some (seen', out))
          × Walk seen seen' out

    visit_children-old :
        (visit : List ℕ → ℕ → Option (List ℕ × List ℕ)) (c : ℕ) (cs seen : List ℕ)
        → has c seen ≡ true
        → visit_children children keep reverse visit seen (c ∷ cs)
          ≡ visit_children children keep reverse visit seen cs
    unfolding visit_children
    visit_children-old visit c cs seen old = rw (visit_children, old) refl

    visit_children-new :
        (visit : List ℕ → ℕ → Option (List ℕ × List ℕ)) (c : ℕ) (cs seen : List ℕ)
        → has c seen ≡ false
        → (seen₁ out₁ seen₂ out₂ : List ℕ) → visit seen c ≡ some (seen₁, out₁)
        → visit_children children keep reverse visit seen₁ cs ≡ some (seen₂, out₂)
        → visit_children children keep reverse visit seen (c ∷ cs) ≡ some (seen₂, out₁ ++ out₂)
    unfolding visit_children
    visit_children-new visit c cs seen new seen₁ out₁ seen₂ out₂ run₁ run₂ =
        rw (visit_children, new, run₁, run₂) refl

    visit_children-Walk :
        (k : ℕ) (visit : List ℕ → ℕ → Option (List ℕ × List ℕ))
        → Visits k visit
        → (cs seen : List ℕ) → ((c : ℕ) → has c cs ≡ true → has c all ≡ true)
        → unseen all seen ≤ k
        → (seen' : List ℕ) × (out : List ℕ) × (visit_children children keep reverse visit seen cs
            ≡ some (seen', out))
          × Walk seen seen' out
    unfolding visit_children
    visit_children-Walk k visit v [] seen within enough = (seen, [], refl, Walk-nil seen)
    visit_children-Walk k visit v (c ∷ cs) seen within enough = elim (Bool-cases (has c seen)) [
      | inl old ↦
          let (seen', out, run, w) =
            visit_children-Walk k visit v cs seen (λ a h. within a (ground arith)) enough in
          (seen', out, visit_children-old visit c cs seen old ∙ run, w)
      | inr new ↦
          let (seen₁, out₁, run₁, w₁) = v seen c (within c (ground arith)) new enough in
          let (seen₂, out₂, run₂, w₂) =
            visit_children-Walk k visit v cs seen₁ (λ a h. within a (ground arith))
              (omega (arith, unseen-le all seen seen₁ w₁.grows)) in
          (
            seen₂,
            out₁ ++ out₂,
            visit_children-new visit c cs seen new seen₁ out₁ seen₂ out₂ run₁ run₂,
            Walk-append seen seen₁ seen₂ out₁ out₂ w₁ w₂,
          )
    ]

    visit_script-Visits : (k : ℕ) → Visits k (visit_script children keep reverse k)
    unfolding visit_script
    visit_script-Visits zero seen s i o enough = absurd (omega (arith, unseen-lt all seen s i o))
    visit_script-Visits (suc k) seen s i o enough =
        let (seen', out, run, w) =
          visit_children-Walk k (visit_script children keep reverse k) (visit_script-Visits k)
            (children s) (s ∷ seen) (λ c h. closed s c i h)
            (omega (arith, unseen-lt all seen s i o)) in
        (seen', emit children keep reverse s out, rw run, Walk-emit seen seen' out s o w)

    -- Where the children of every script are among the scripts `all`, a walk from an unvisited
    -- script ends, with as many rounds of fuel as there are unvisited scripts; the callback sees
    -- only scripts that were not visited before, each once at most, and all are visited afterwards.
    pub visit_script-Walk :
        (k : ℕ) (seen : List ℕ) (s : ℕ)
        → has s all ≡ true
        → has s seen ≡ false
        → unseen all seen ≤ k
        → (seen' : List ℕ) × (out : List ℕ) × (visit_script children keep reverse k seen s
            ≡ some (seen', out))
          × Walk seen seen' out
    visit_script-Walk = visit_script-Visits
