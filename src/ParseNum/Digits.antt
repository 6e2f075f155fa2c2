-- ===== src/ParseNum/Digits.antt =====
-- The number that a text of digits stands for.
use freebsd_pkg_plugins.Base.{
  if◌then◌else◌, ℕ, zero, suc, ◌+◌, ◌-◌, ◌*◌, ◌/◌, ◌%◌, ◌^◌, ◌<◌, ◌≤◌, ◌≡◌, refl, ap, ◌∙◌,
  Bool-cases, true, false, none, some, List, [], ◌∷◌, ◌==◌, ltb, arith, inl, inr,
}
use native.Mathlib.Nat.{div-add-mod', mod-lt}
use freebsd_pkg_plugins.ParseNum.{
  any_none, any_digit, any_over, Scanned, overflows, digits_loop, finish, skip_prefix, skip_sign,
  strnto_unsigned, no_err, too_large,
}
use freebsd_pkg_plugins.ParseNum.Scan.{number, AllDigits, scan-Reads-first, scan-Reads}

-- the text starts with a digit, and no prefix follows
pub skip_sign-digit : (b : ℕ) (s : List ℕ) → 48 ≤ b → skip_sign (b ∷ s) ≡ (false, b ∷ s)
unfolding skip_sign
skip_sign-digit b s low = ground arith

pub skip_prefix-digits :
    (wanted lower upper base : ℕ) (s : List ℕ)
    → AllDigits 10 s
    → 57 < lower
    → 57 < upper
    → skip_prefix wanted lower upper base s ≡ (base, s)
unfolding skip_prefix
skip_prefix-digits wanted lower upper base [] digits l u = refl
skip_prefix-digits wanted lower upper base (z ∷ []) digits l u = refl
skip_prefix-digits wanted lower upper base (z ∷ x ∷ s) digits l u =
    let first : x == lower ≡ false = ground (arith, digits.2.0) in
    let second : x == upper ≡ false = ground (arith, digits.2.0) in ground arith

pub AllDigits-ten : (base : ℕ) (s : List ℕ) → base ≤ 10 → AllDigits base s → AllDigits 10 s
AllDigits-ten base [] ten digits = tt
AllDigits-ten base (b ∷ s) ten digits =
    (digits.0, omega (arith, digits.1), AllDigits-ten base s ten digits.2)

strnto_unsigned-plain :
    (width after base b : ℕ) (s : List ℕ)
    → 2 ≤ base
    → base ≤ 10
    → AllDigits base (b ∷ s)
    → strnto_unsigned width (b ∷ s) after base none none
      ≡ finish (2 ^ width) false none none (
          digits_loop
            (2 ^ width)
            base
            ((2 ^ width - 1) / base)
            ((2 ^ width - 1) % base)
            any_none
            0
            (b ∷ s))
unfolding strnto_unsigned
strnto_unsigned-plain width after base b s two ten digits =
    let all = AllDigits-ten base (b ∷ s) ten digits in
    let given : base == 0 ≡ false = ground arith in
    let low : ltb base 2 ≡ false = ground arith in
    let high : ltb 36 base ≡ false = ground arith in
    rw
      (
        skip_sign-digit b s digits.0,
        skip_prefix-digits 2 98 66 base (b ∷ s) all (omega arith) (omega arith),
        skip_prefix-digits 16 120 88 base (b ∷ s) all (omega arith) (omega arith),
        given,
        low,
        high,
      )
      refl

ltb→< : (a b : ℕ) → ltb a b ≡ true → a < b
ltb→< a b h = ground arith

ltb→≤ : (a b : ℕ) → ltb a b ≡ false → b ≤ a
ltb→≤ a b h = ground arith

pub pow_pos : (width : ℕ) → 0 < 2 ^ width
pow_pos zero = omega arith
pow_pos (suc width) = omega (arith, pow_pos width)

finish-over :
    (size : ℕ) (r : Scanned)
    → r.any ≡ any_over
    → ((finish size false none none r).error ≡ too_large)
      × ((finish size false none none r).ret ≡ some (size - 1))
unfolding finish
finish-over size r over = (
  ap (λ a. (finish size false none none (record r { any = a })).error) over,
  ap (λ a. (finish size false none none (record r { any = a })).ret) over,
)

scan-width :
    (width base b : ℕ) (s : List ℕ)
    → 2 ≤ base
    → base ≤ 10
    → AllDigits base (b ∷ s)
    → (number base 0 (b ∷ s) ≤ 2 ^ width - 1
        → digits_loop
            (2 ^ width)
            base
            ((2 ^ width - 1) / base)
            ((2 ^ width - 1) % base)
            any_none
            0
            (b ∷ s)
          ≡ record { any = any_digit; acc = number base 0 (b ∷ s); stopped = false; rest = [] })
      × (2 ^ width - 1 < number base 0 (b ∷ s)
          → (digits_loop
              (2 ^ width)
              base
              ((2 ^ width - 1) / base)
              ((2 ^ width - 1) % base)
              any_none
              0
              (b ∷ s)).any
            ≡ any_over)
unfolding overflows
scan-width width base b s two ten digits =
    let cutoff = (2 ^ width - 1) / base in
    let cutlim = (2 ^ width - 1) % base in
    let whole : cutoff * base + cutlim ≡ 2 ^ width - 1 = div-add-mod' (2 ^ width - 1) base in
    let wide : cutoff * base + cutlim < 2 ^ width = omega (arith, whole, pow_pos width) in
    let limit : cutlim < base = mod-lt (2 ^ width - 1) (omega arith) in
    let reads =
      scan-Reads-first base cutoff cutlim (omega arith) ten limit (2 ^ width) wide any_none 0 b s
        refl digits
        (scan-Reads base cutoff cutlim (omega arith) ten limit (2 ^ width) wide s digits.2) in
    (λ le. reads.0 (omega (arith, whole)), λ lt. reads.1 (omega (arith, whole)))

-- A text of one digit or more, in a base given as 2 to 10 and without bounds, is read as the number
-- that it stands for where this fits the type, and that is no error; else the error is `too_large`,
-- with the type's greatest number.
pub strnto_unsigned-number :
    (width after base b : ℕ) (s : List ℕ)
    → 2 ≤ base
    → base ≤ 10
    → AllDigits base (b ∷ s)
    → ((strnto_unsigned width (b ∷ s) after base none none).error
        ≡ (if ltb (number base 0 (b ∷ s)) (2 ^ width) then no_err else too_large))
      × ((strnto_unsigned width (b ∷ s) after base none none).ret
          ≡ some (
              if ltb (number base 0 (b ∷ s)) (2 ^ width)
              then number base 0 (b ∷ s)
              else 2 ^ width - 1))
unfolding finish
strnto_unsigned-number width after base b s two ten digits =
    let run = strnto_unsigned-plain width after base b s two ten digits in
    let reads = scan-width width base b s two ten digits in
    let room = pow_pos width in
    elim (Bool-cases (ltb (number base 0 (b ∷ s)) (2 ^ width))) [
      | inl fits ↦
          let below = ltb→< (number base 0 (b ∷ s)) (2 ^ width) fits in
          let all = run ∙ ap (finish (2 ^ width) false none none) (reads.0 (omega arith)) in
          rw fits (ap (λ r. r.error) all, ap (λ r. r.ret) all)
      | inr over ↦
          let beyond = ltb→≤ (number base 0 (b ∷ s)) (2 ^ width) over in
          let (error, ret) = finish-over (2 ^ width) _ (reads.1 (omega arith)) in
          rw over (ap (λ r. r.error) run ∙ error, ap (λ r. r.ret) run ∙ ret)
    ]
