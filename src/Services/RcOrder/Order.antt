-- ===== src/Services/RcOrder/Order.antt =====
-- The order in which services_db_rcorder_iter of plugins/services/services_db.c calls the callback.
use freebsd_pkg_plugins.Base.{
  ℕ, zero, suc, ◌<◌, ◌≡◌, ◌⊎◌, inl, inr, ◌∙◌, ap, sym, refl, subst, Bool, true, false, some, List,
  [], ◌∷◌, ◌++◌, ◌==◌, ==→eq, ==_refl, arith, Bool-cases,
}
use freebsd_pkg_plugins.Services.RcOrder.{has, visit_script, visit_children, emit, roots_loop}
use freebsd_pkg_plugins.Services.RcOrder.Covered.{
  onto, onto-append, has-onto, true-not-false, all-seen, Covered, Covered-append,
}

module _ (children : ℕ → List ℕ) (keep : ℕ → Bool) where
  module _ (rank : ℕ → ℕ) (acyclic : (s c : ℕ) → has c (children s) ≡ true → rank c < rank s) where
    -- What was seen and is kept has been emitted, if its rank is below `r`.
    abbrev Emitted : ℕ → List ℕ → List ℕ → Type 0
    Emitted r seen emitted =
        (x : ℕ) → has x seen ≡ true → keep x ≡ true → rank x < r → has x emitted ≡ true

    seen-before :
        (c : ℕ) (seen : List ℕ) (x : ℕ)
        → has x (c ∷ seen) ≡ true
        → rank x < rank c
        → has x seen ≡ true
    seen-before c seen x i lt = elim (Bool-cases (x == c)) [
      | inl same ↦ absurd (omega (arith, lt, ap rank (==→eq x c same)))
      | inr other ↦ rw other at i
    ]

    fresh-low :
        (r c : ℕ) (seen : List ℕ) (x : ℕ)
        → rank c < r
        → (has x (c ∷ seen) ≡ true) ⊎ (rank x < rank c)
        → (has x seen ≡ true) ⊎ (rank x < r)
    fresh-low r c seen x low (inr lt) = inr (omega arith)
    fresh-low r c seen x low (inl i) = elim (Bool-cases (x == c)) [
      | inl same ↦ inr (omega (arith, low, ap rank (==→eq x c same)))
      | inr other ↦ inl (rw other at i)
    ]

    -- what a walk that starts with `seen` and `emitted` leaves, on scripts of a rank below `r`
    Walked : ℕ → List ℕ → List ℕ → List ℕ → List ℕ → Type 0
    Walked r seen emitted seen' out =
        Covered children keep emitted out
        × Emitted r seen' (onto out emitted)
        × ((x : ℕ) → has x seen' ≡ true → (has x seen ≡ true) ⊎ (rank x < r))
        × ((x : ℕ) → has x seen ≡ true → has x seen' ≡ true)

    children-Walked :
        (k r : ℕ) (cs seen emitted : List ℕ)
        → ((c : ℕ) → has c cs ≡ true → rank c < r)
        → ((c : ℕ) (seen emitted : List ℕ)
            → rank c < r
            → Emitted r seen emitted
            → (seen' : List ℕ) × (out : List ℕ) × (visit_script children keep false k seen c
                ≡ some (seen', out))
              × Walked r seen emitted seen' out
              × (has c seen' ≡ true))
        → Emitted r seen emitted
        → (seen' : List ℕ) × (out : List ℕ) × (visit_children children keep false
              (visit_script children keep false k)
              seen
              cs
            ≡ some (seen', out))
          × Walked r seen emitted seen' out
          × ((c : ℕ) → has c cs ≡ true → has c seen' ≡ true)
    unfolding visit_children Walked
    children-Walked k r [] seen emitted low visit inv =
        (seen, [], refl, (tt, inv, (λ x i. inl i), (λ x i. i)), (λ c i. cc))
    children-Walked k r (c ∷ cs) seen emitted low visit inv = elim (Bool-cases (has c seen)) [
      | inl old ↦
          let (seen', out, run, (covered, kept, new, stays), all) =
            children-Walked k r cs seen emitted (λ d i. low d (ground arith)) visit inv in
          (
            seen',
            out,
            rw (visit_children, old) run,
            (covered, kept, new, stays),
            all-seen c cs seen' (stays c old) all,
          )
      | inr fresh ↦
          let self : has c (c ∷ cs) ≡ true = ground (arith, ==_refl c) in
          let (seen₁, out₁, run₁, (covered₁, kept₁, new₁, stays₁), visited) =
            visit c seen emitted (low c self) inv in
          let (seen₂, out₂, run₂, (covered₂, kept₂, new₂, stays₂), all) =
            children-Walked k r cs seen₁ (onto out₁ emitted) (λ d i. low d (ground arith)) visit
              kept₁ in
          (
            seen₂,
            out₁ ++ out₂,
            rw (visit_children, fresh, run₁, run₂) refl,
            (
              Covered-append children keep out₁ out₂ emitted covered₁ covered₂,
              subst (Emitted r seen₂) (sym (onto-append out₁ out₂ emitted)) kept₂,
              λ x i. elim (new₂ x i) [ inl j ↦ new₁ x j | inr lt ↦ inr lt ],
              λ x i. stays₂ x (stays₁ x i),
            ),
            all-seen c cs seen₂ (stays₂ c visited) all,
          )
    ]

    visit-Walked :
        (k r c : ℕ) (seen emitted : List ℕ)
        → rank c < k
        → rank c < r
        → Emitted r seen emitted
        → (seen' : List ℕ) × (out : List ℕ) × (visit_script children keep false k seen c
            ≡ some (seen', out))
          × Walked r seen emitted seen' out
          × (has c seen' ≡ true)
    unfolding visit_script emit Walked
    visit-Walked zero r c seen emitted deep low inv = elim deep [ ]
    visit-Walked (suc k) r c seen emitted deep low inv =
        let (seen', out, run, (covered, kept, new, stays), all) =
          children-Walked k (rank c) (children c) (c ∷ seen) emitted (acyclic c)
            (λ d s e lt i. visit-Walked k (rank c) d s e (omega arith) lt i)
            (λ x i kx lt. inv x (seen-before c seen x i lt) kx (omega (arith, low, lt))) in
        let others : (x : ℕ)
            → has x seen' ≡ true
            → keep x ≡ true
            → rank x < r
            → x == c ≡ false
            → has x (onto out emitted) ≡ true =
          λ x i kx lt other. elim (new x i) [
            | inl j ↦ has-onto x out emitted (inv x (rw other at j) kx lt)
            | inr below ↦ kept x i kx below
          ] in
        let visited : has c seen' ≡ true = stays c (ground (arith, ==_refl c)) in
        elim (Bool-cases (keep c)) [
          | inl kc ↦ (
            seen',
            out ++ c ∷ [],
            rw (visit_script, run, kc) refl,
            (
              Covered-append children keep out (c ∷ []) emitted covered
                  ((λ d i kd. kept d (all d i) kd (acyclic c d i)), tt),
              (λ x i kx lt.
                  subst (λ l. has x l ≡ true) (sym (onto-append out (c ∷ []) emitted))
                    (elim (Bool-cases (x == c)) [
                      | inl same ↦ ground arith
                      | inr other ↦ ground (arith, others x i kx lt other)
                    ])),
              (λ x i. fresh-low r c seen x low (new x i)),
              λ x i. stays x (ground arith),
            ),
            visited,
          )
          | inr dropped ↦ (
            seen',
            out,
            rw (visit_script, run, dropped) refl,
            (
              covered,
              (λ x i kx lt. elim (Bool-cases (x == c)) [
                | inl same ↦ absurd (true-not-false (sym kx ∙ ap keep (==→eq x c same) ∙ dropped))
                | inr other ↦ others x i kx lt other
              ]),
              (λ x i. fresh-low r c seen x low (new x i)),
              λ x i. stays x (ground arith),
            ),
            visited,
          )
        ]

    roots-Walked :
        (k : ℕ) (rs seen emitted : List ℕ)
        → ((s : ℕ) → has s rs ≡ true → rank s < k)
        → Emitted k seen emitted
        → (seen' : List ℕ) × (out : List ℕ) × (roots_loop children keep false k seen rs
            ≡ some (seen', out))
          × Walked k seen emitted seen' out
          × ((s : ℕ) → has s rs ≡ true → has s seen' ≡ true)
    unfolding roots_loop Walked
    roots-Walked k [] seen emitted low inv =
        (seen, [], refl, (tt, inv, (λ x i. inl i), (λ x i. i)), (λ c i. cc))
    roots-Walked k (c ∷ rs) seen emitted low inv =
        let deep = low c (ground (arith, ==_refl c)) in
        let (seen₁, out₁, run₁, (covered₁, kept₁, new₁, stays₁), visited) =
          visit-Walked k k c seen emitted deep deep inv in
        let (seen₂, out₂, run₂, (covered₂, kept₂, new₂, stays₂), all) =
          roots-Walked k rs seen₁ (onto out₁ emitted) (λ d i. low d (ground arith)) kept₁ in
        (
          seen₂,
          out₁ ++ out₂,
          rw (run₁, run₂) refl,
          (
            Covered-append children keep out₁ out₂ emitted covered₁ covered₂,
            subst (Emitted k seen₂) (sym (onto-append out₁ out₂ emitted)) kept₂,
            (λ x i. elim (new₂ x i) [ inl j ↦ new₁ x j | inr lt ↦ inr lt ]),
            λ x i. stays₂ x (stays₁ x i),
          ),
          all-seen c rs seen₂ (stays₂ c visited) all,
        )

-- how the iteration over the roots ends
abbrev pub IteratesInOrder : (ℕ → List ℕ) → (ℕ → Bool) → ℕ → List ℕ → Type 0
IteratesInOrder children keep k roots =
    (seen : List ℕ) × (out : List ℕ) × (roots_loop children keep false k [] roots
      ≡ some (seen, out))
    × Covered children keep [] out
    × ((s : ℕ) → has s roots ≡ true → has s seen ≡ true)

-- Where the children form no cycle, so that every child has a lower rank, the iteration in the
-- normal direction ends, on more fuel than the rank of any root; it sees every root, and calls the
-- callback on a script only after all those of its children that are kept.
pub roots_loop-IteratesInOrder :
    (children : ℕ → List ℕ) (keep : ℕ → Bool) (rank : ℕ → ℕ) (k : ℕ) (roots : List ℕ)
    → ((s c : ℕ) → has c (children s) ≡ true → rank c < rank s)
    → ((s : ℕ) → has s roots ≡ true → rank s < k)
    → IteratesInOrder children keep k roots
unfolding Walked
roots_loop-IteratesInOrder children keep rank k roots acyclic low =
    let (seen, out, run, (covered, kept, new, stays), all) =
      roots-Walked children keep rank acyclic k roots [] [] low (λ x i. cc) in
    (seen, out, run, covered, all)
