-- ===== src/ParseNum/Scan.antt =====
-- The loop over digits, for the number that they stand for.
use freebsd_pkg_plugins.Base.{
  ℕ, ◌+◌, ◌-◌, ◌*◌, ◌%◌, ◌<◌, ◌≤◌, ◌≡◌, refl, sym, ap, ◌∙◌, subst, Bool, Bool-cases, true, false,
  ◌&&◌, ◌||◌, some, List, [], ◌∷◌, ◌==◌, ==→eq, ltb, leb, arith, inl, inr, pos,
}
use native.Mathlib.Nat.{mod-eq_of_lt, mul-le-mul_left, mul-le-mul_right}
use freebsd_pkg_plugins.ParseNum.{
  Any, any_digit, any_over, Scanned, digit_of, accumulate, overflows, digits_loop,
}

-- the number that digits stand for, after those of `acc`
abbrev pub number : (base acc : ℕ) → List ℕ → ℕ
number base acc [] = acc
number base acc (b ∷ s) = number base (acc * base + (b - 48)) s

-- digits of a base up to 10
abbrev pub AllDigits : ℕ → List ℕ → Type 0
AllDigits base [] = Unit
AllDigits base (b ∷ s) = (48 ≤ b) × (b < 48 + base) × AllDigits base s

mod_whole : (p c size : ℕ) → p + c < size → (p % size + c) % size ≡ p + c
mod_whole p c size lt =
    let inner : p % size ≡ p = mod-eq_of_lt (omega arith) in rw inner (mod-eq_of_lt lt)

number-grows : (base acc : ℕ) (s : List ℕ) → 0 < base → acc ≤ number base acc s
number-grows base acc [] some_base = omega arith
number-grows base acc (b ∷ s) some_base =
    omega
      (arith, number-grows base (acc * base + (b - 48)) s some_base, mul-le-mul_left acc some_base)

next-le : (a b base : ℕ) → a < b → a * base + base ≤ b * base
next-le a b base h = omega (arith, mul-le-mul_right base h)

abbrev pub test : (cutoff cutlim acc c : ℕ) → Bool
test cutoff cutlim acc c = ltb cutoff acc || (acc == cutoff && ltb cutlim c)

-- a product is taken below the limit exactly when the test lets it pass
test-over :
    (base acc c cutoff cutlim : ℕ)
    → cutlim < base
    → test cutoff cutlim acc c ≡ true
    → cutoff * base + cutlim < acc * base + c
test-over base acc c cutoff cutlim limit h = elim (Bool-cases (ltb cutoff acc)) [
  | inl e ↦ let more = next-le cutoff acc base (ground arith) in omega arith
  | inr e ↦
      let same : acc ≡ cutoff = ground arith in
      let bigger : cutlim < c = ground arith in omega (arith, ap (λ n. n * base) same)
]

test-within :
    (base acc c cutoff cutlim : ℕ)
    → c < base
    → test cutoff cutlim acc c ≡ false
    → acc * base + c ≤ cutoff * base + cutlim
test-within base acc c cutoff cutlim small h = elim (Bool-cases (acc == cutoff)) [
  | inl e ↦
      let same = ==→eq acc cutoff e in
      let bounded : c ≤ cutlim = ground arith in omega (arith, ap (λ n. n * base) same)
  | inr e ↦ let below : acc < cutoff = ground arith in omega (arith, next-le acc cutoff base below)
]

digit_of-decimal :
    (base b : ℕ) → 48 ≤ b → b < 48 + base → base ≤ 10 → digit_of base b ≡ some (pos (b - 48))
unfolding digit_of
digit_of-decimal base b low high ten = ground arith

module _ (base cutoff cutlim : ℕ) (some_base : 0 < base) (ten : base ≤ 10) (limit : cutlim < base)
    (size : ℕ) (wide : cutoff * base + cutlim < size) where
  abbrev pub most : ℕ
  most = cutoff * base + cutlim

  abbrev pub scan : Any → ℕ → List ℕ → Scanned
  scan = digits_loop size base cutoff cutlim

  scan-over : (acc : ℕ) (s : List ℕ) → AllDigits base s → (scan any_over acc s).any ≡ any_over
  unfolding digits_loop overflows
  scan-over acc [] digits = refl
  scan-over acc (b ∷ s) digits =
      let small : leb base (b - 48) ≡ false = ground (arith, digits.0, digits.1) in
      rw (digits_loop, digit_of-decimal base b digits.0 digits.1 ten, small)
        (scan-over acc s digits.2)

  scan-full :
      (any : Any) (acc b : ℕ) (s : List ℕ)
      → overflows cutoff cutlim any acc (pos (b - 48)) ≡ true
      → AllDigits base (b ∷ s)
      → scan any acc (b ∷ s) ≡ scan any_over acc s
  unfolding digits_loop
  scan-full any acc b s over digits =
      let small : leb base (b - 48) ≡ false = ground (arith, digits.0, digits.1) in
      rw (digits_loop, digit_of-decimal base b digits.0 digits.1 ten, small, over) refl

  scan-next :
      (any : Any) (acc b : ℕ) (s : List ℕ)
      → overflows cutoff cutlim any acc (pos (b - 48)) ≡ false
      → AllDigits base (b ∷ s)
      → acc * base + (b - 48) ≤ most
      → scan any acc (b ∷ s) ≡ scan any_digit (acc * base + (b - 48)) s
  unfolding digits_loop accumulate
  scan-next any acc b s within digits le =
      let small : leb base (b - 48) ≡ false = ground (arith, digits.0, digits.1) in
      let whole : (acc * base % size + (b - 48)) % size ≡ acc * base + (b - 48) =
        mod_whole (acc * base) (b - 48) size (omega (arith, wide)) in
      rw (digits_loop, digit_of-decimal base b digits.0 digits.1 ten, small, within)
        (ap (λ n. scan any_digit n s) whole)

  -- what the scan of digits leaves, for the number they stand for
  abbrev pub Reads : ℕ → Scanned → Type 0
  Reads n r =
      (n ≤ most → r ≡ record { any = any_digit; acc = n; stopped = false; rest = [] })
      × (most < n → r.any ≡ any_over)

  pub scan-Reads-first :
      (any : Any) (acc b : ℕ) (s : List ℕ)
      → overflows cutoff cutlim any acc (pos (b - 48)) ≡ test cutoff cutlim acc (b - 48)
      → AllDigits base (b ∷ s)
      → ((acc' : ℕ) → acc' ≤ most → Reads (number base acc' s) (scan any_digit acc' s))
      → Reads (number base acc (b ∷ s)) (scan any acc (b ∷ s))
  scan-Reads-first any acc b s same digits rest =
      let acc' = acc * base + (b - 48) in
      elim (Bool-cases (test cutoff cutlim acc (b - 48))) [
        | inl over ↦
            let big = test-over base acc (b - 48) cutoff cutlim limit over in
            let grows = number-grows base acc' s some_base in
            (
              λ le. absurd (omega arith),
              λ lt.
                  ap (λ r. r.any) (scan-full any acc b s (same ∙ over) digits)
                  ∙ scan-over acc s digits.2,
            )
        | inr within ↦
            let small : b - 48 < base = omega (arith, digits.0, digits.1) in
            let le = test-within base acc (b - 48) cutoff cutlim small within in
            subst (Reads (number base acc' s))
              (sym (scan-next any acc b s (same ∙ within) digits le)) (rest acc' le)
      ]

  pub scan-Reads :
      (s : List ℕ)
      → AllDigits base s
      → (acc : ℕ) → acc ≤ most
      → Reads (number base acc s) (scan any_digit acc s)
  unfolding digits_loop overflows
  scan-Reads [] digits acc le = (λ h. refl, λ h. absurd (omega arith))
  scan-Reads (b ∷ s) digits acc le =
      scan-Reads-first any_digit acc b s refl digits (scan-Reads s digits.2)
