-- ===== src/Services/RcOrder/Covered.antt =====
-- Scripts in an order in which each stands after its children, for services_db_rcorder_iter of
-- plugins/services/services_db.c.
use freebsd_pkg_plugins.Base.{
  ℕ, ◌≡◌, inl, inr, sym, refl, subst, Bool, true, false, List, [], ◌∷◌, ◌++◌, ◌==◌, ==→eq, arith,
  Bool-cases,
}
use freebsd_pkg_plugins.Services.RcOrder.{has}

-- `emitted`, with what comes after it
abbrev pub onto : List ℕ → List ℕ → List ℕ
onto [] emitted = emitted
onto (x ∷ out) emitted = onto out (x ∷ emitted)

pub onto-append : (xs ys emitted : List ℕ) → onto (xs ++ ys) emitted ≡ onto ys (onto xs emitted)
onto-append [] ys emitted = refl
onto-append (x ∷ xs) ys emitted = onto-append xs ys (x ∷ emitted)

pub has-onto :
    (a : ℕ) (out emitted : List ℕ) → has a emitted ≡ true → has a (onto out emitted) ≡ true
has-onto a [] emitted i = i
has-onto a (x ∷ out) emitted i = has-onto a out (x ∷ emitted) (ground arith)

pub true-not-false : true ≡ false → ⊥
true-not-false e = cc

pub all-seen :
    (c : ℕ) (cs seen : List ℕ)
    → has c seen ≡ true
    → ((d : ℕ) → has d cs ≡ true → has d seen ≡ true)
    → (d : ℕ) → has d (c ∷ cs) ≡ true
    → has d seen ≡ true
all-seen c cs seen here all d i = elim (Bool-cases (d == c)) [
  | inl same ↦ subst (λ a. has a seen ≡ true) (sym (==→eq d c same)) here
  | inr other ↦ all d (rw other at i)
]

module _ (children : ℕ → List ℕ) (keep : ℕ → Bool) where
  -- Each script of `out` stands after those of its children that are kept.
  abbrev pub Covered : List ℕ → List ℕ → Type 0
  Covered emitted [] = Unit
  Covered emitted (s ∷ out) =
      ((c : ℕ) → has c (children s) ≡ true → keep c ≡ true → has c emitted ≡ true)
      × Covered (s ∷ emitted) out

  pub Covered-append :
      (xs ys emitted : List ℕ)
      → Covered emitted xs
      → Covered (onto xs emitted) ys
      → Covered emitted (xs ++ ys)
  Covered-append [] ys emitted a b = b
  Covered-append (x ∷ xs) ys emitted a b = (a.0, Covered-append xs ys (x ∷ emitted) a.1 b)
