-- ===== src/Services/RcOrder/Roots.antt =====
-- Which scripts services_db_scan_system of plugins/services/services_db.c takes for roots.
use freebsd_pkg_plugins.Base.{
  ℕ, ◌↔◌, ◌≡◌, refl, ap, sym, ◌∙◌, Bool, true, false, ◌&&◌, Option, List, [], ◌∷◌, ◌==◌, ==→eq,
  ==_refl, arith, if◌then◌else◌, Bool-cases, inl, inr,
}
use freebsd_pkg_plugins.Services.RcOrder.{has}
use freebsd_pkg_plugins.Services.RcOrder.Relations.{
  Relations, relate_scripts, find_roots, IsMutual, no_relations, scan_relations,
  relate_scripts-IsMutual,
}

abbrev is_empty : List ℕ → Bool
is_empty [] = true
is_empty (p ∷ ps) = false

find_roots-step :
    (r : Relations) (t : ℕ) (ts : List ℕ)
    → find_roots r (t ∷ ts)
      ≡ (if is_empty (r.parents t) then t ∷ find_roots r ts else find_roots r ts)
unfolding find_roots
find_roots-step r t ts = by_parents (r.parents t)
  where
    by_parents :
        (l : List ℕ)
        → elim l [ [] ↦ t ∷ find_roots r ts | p ∷ ps ↦ find_roots r ts ]
          ≡ (if is_empty l then t ∷ find_roots r ts else find_roots r ts)
    by_parents [] = refl
    by_parents (p ∷ ps) = refl

has-find_roots :
    (r : Relations) (s : ℕ) (scripts : List ℕ)
    → has s (find_roots r scripts) ≡ (has s scripts && is_empty (r.parents s))
unfolding find_roots
has-find_roots r s [] = refl
has-find_roots r s (t ∷ ts) = rw (find_roots-step r t ts) (elim (Bool-cases (s == t)) [
  | inl same ↦
      let alike : is_empty (r.parents t) ≡ is_empty (r.parents s) =
        ap (λ a. is_empty (r.parents a)) (sym (==→eq s t same)) in
      rw (alike, same)
        (elim (Bool-cases (is_empty (r.parents s))) [
          | inl orphan ↦ rw (orphan, same) refl
          | inr child ↦ rw child (has-find_roots r s ts ∙ ground arith)
        ])
  | inr other ↦ elim (Bool-cases (is_empty (r.parents t))) [
    | inl orphan ↦ rw (orphan, other) (has-find_roots r s ts)
    | inr child ↦ rw (child, other) (has-find_roots r s ts)
  ]
])

none-is_empty : (l : List ℕ) → ((p : ℕ) → has p l ≡ false) → is_empty l ≡ true
none-is_empty [] none = refl
none-is_empty (p ∷ ps) none = ground (arith, none p, ==_refl p)

is_empty-none : (l : List ℕ) → is_empty l ≡ true → (p : ℕ) → has p l ≡ false
is_empty-none [] e p = refl
is_empty-none (q ∷ ps) e p = cc

-- Once the scripts are related, the roots are those of the scripts that are no script's child.
pub scan_relations-orphans :
    (provides : ℕ → Option (List ℕ)) (requires befores : ℕ → List ℕ) (scripts : List ℕ) (s : ℕ)
    → let (r, roots) = scan_relations provides requires befores scripts in
      (has s roots ≡ true) ↔ ((has s scripts ≡ true) × ((p : ℕ) → has s (r.children p) ≡ false))
unfolding scan_relations
scan_relations-orphans provides requires befores scripts s =
    let r : Relations = relate_scripts provides requires befores no_relations scripts in
    let alike : IsMutual r =
      relate_scripts-IsMutual provides requires befores no_relations scripts (λ p c. refl) in
    let root = has-find_roots r s scripts in
    (
      λ h. (ground arith, λ p. alike p s ∙ is_empty-none (r.parents s) (ground arith) p),
      λ k.
          let none = none-is_empty (r.parents s) (λ p. sym (alike p s) ∙ k.1 p) in
          root ∙ ground (arith, k.0),
    )
