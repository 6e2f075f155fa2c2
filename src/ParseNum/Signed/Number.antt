-- ===== src/ParseNum/Signed/Number.antt =====
-- The number that a sign and a text of digits stand for.
use freebsd_pkg_plugins.Base.{
  if◌then◌else◌, ℕ, ◌+◌, ◌-◌, ◌*◌, ◌/◌, ◌%◌, ◌^◌, ◌<◌, ◌≤◌, ◌≡◌, refl, ap, ◌∙◌, Bool, Bool-cases,
  true, false, none, some, List, [], ◌∷◌, ◌==◌, ltb, leb, arith, inl, inr, ℤ, pos, negsuc,
}
use native.Mathlib.Nat.{div-add-mod', mod-lt, mod-eq_of_lt, mod_self}
use freebsd_pkg_plugins.ParseNum.{
  any_none, any_digit, any_over, Scanned, overflows, digits_loop, skip_sign, no_err, too_small,
  too_large,
}
use freebsd_pkg_plugins.ParseNum.Scan.{number, AllDigits, scan-Reads-first, scan-Reads}
use freebsd_pkg_plugins.ParseNum.Digits.{
  skip_sign-digit, skip_prefix-digits, AllDigits-ten, pow_pos,
}
use freebsd_pkg_plugins.ParseNum.Signed.{to_signed, finish_signed, limit_of, strnto_signed}

-- the digits, behind a minus where there is one
abbrev pub signed_text : (negative : Bool) → List ℕ → List ℕ
signed_text negative s = if negative then 45 ∷ s else s

abbrev pub with_sign : (negative : Bool) → ℕ → ℤ
with_sign false n = pos n
with_sign true n = if n == 0 then pos 0 else negsuc (n - 1)

skip_sign-minus : (s : List ℕ) → skip_sign (45 ∷ s) ≡ (true, s)
unfolding skip_sign
skip_sign-minus s = refl

-- a text of a sign and digits, without a prefix
strnto_signed-digits :
    (negative : Bool) (width after base b c : ℕ) (s t : List ℕ)
    → skip_sign (c ∷ t) ≡ (negative, b ∷ s)
    → 2 ≤ base
    → base ≤ 10
    → AllDigits base (b ∷ s)
    → strnto_signed width (c ∷ t) after base none none
      ≡ finish_signed (2 ^ (width - 1)) negative none none (
          digits_loop
            (2 * 2 ^ (width - 1))
            base
            (limit_of (2 ^ (width - 1)) negative / base)
            (limit_of (2 ^ (width - 1)) negative % base)
            any_none
            0
            (b ∷ s))
unfolding strnto_signed
strnto_signed-digits negative width after base b c s t sign two ten digits =
    let all = AllDigits-ten base (b ∷ s) ten digits in
    let given : base == 0 ≡ false = ground arith in
    let low : ltb base 2 ≡ false = ground arith in
    let high : ltb 36 base ≡ false = ground arith in
    rw
      (
        sign,
        skip_prefix-digits 2 98 66 base (b ∷ s) all (omega arith) (omega arith),
        skip_prefix-digits 16 120 88 base (b ∷ s) all (omega arith) (omega arith),
        given,
        low,
        high,
      )
      refl

strnto_signed-plain :
    (negative : Bool) (width after base b : ℕ) (s : List ℕ)
    → 2 ≤ base
    → base ≤ 10
    → AllDigits base (b ∷ s)
    → strnto_signed width (signed_text negative (b ∷ s)) after base none none
      ≡ finish_signed (2 ^ (width - 1)) negative none none (
          digits_loop
            (2 * 2 ^ (width - 1))
            base
            (limit_of (2 ^ (width - 1)) negative / base)
            (limit_of (2 ^ (width - 1)) negative % base)
            any_none
            0
            (b ∷ s))
strnto_signed-plain true width after base b s two ten digits =
    strnto_signed-digits true width after base b 45 s (b ∷ s) (skip_sign-minus (b ∷ s)) two ten
      digits
strnto_signed-plain false width after base b s two ten digits =
    strnto_signed-digits false width after base b b s s (skip_sign-digit b s digits.0) two ten
      digits

-- the number read, as a value of the signed type
to_signed-sign :
    (half : ℕ) (negative : Bool) (n : ℕ)
    → 0 < half
    → n ≤ limit_of half negative
    → to_signed half (if negative then (2 * half - n) % (2 * half) else n) ≡ with_sign negative n
to_signed-sign half false n some_half fits =
    let small : ltb n half ≡ true = ground arith in rw small refl
to_signed-sign half true n some_half fits = elim (Bool-cases (n == 0)) [
  | inl none_read ↦
      let whole : (2 * half - n) % (2 * half) ≡ 0 =
        ap (λ m. m % (2 * half)) (ground arith) ∙ mod_self (2 * half) in
      let small : ltb 0 half ≡ true = ground arith in
      ap (to_signed half) whole ∙ rw (none_read, small) refl
  | inr read ↦
      let whole : (2 * half - n) % (2 * half) ≡ 2 * half - n = mod-eq_of_lt (ground arith) in
      let big : ltb (2 * half - n) half ≡ false = ground arith in
      ap (to_signed half) whole ∙ rw (read, big) (ap negsuc (ground arith))
]

limit_of-wide : (half : ℕ) (negative : Bool) → 0 < half → limit_of half negative < 2 * half
limit_of-wide half true some_half = omega arith
limit_of-wide half false some_half = omega arith

-- the loop, with the limits of a sign
scan-sign :
    (half base b : ℕ) (negative : Bool) (s : List ℕ)
    → 0 < half
    → 2 ≤ base
    → base ≤ 10
    → AllDigits base (b ∷ s)
    → (number base 0 (b ∷ s) ≤ limit_of half negative
        → digits_loop
            (2 * half)
            base
            (limit_of half negative / base)
            (limit_of half negative % base)
            any_none
            0
            (b ∷ s)
          ≡ record { any = any_digit; acc = number base 0 (b ∷ s); stopped = false; rest = [] })
      × (limit_of half negative < number base 0 (b ∷ s)
          → (digits_loop
              (2 * half)
              base
              (limit_of half negative / base)
              (limit_of half negative % base)
              any_none
              0
              (b ∷ s)).any
            ≡ any_over)
unfolding overflows
scan-sign half base b negative s some_half two ten digits =
    let most = limit_of half negative in
    let cutoff = most / base in
    let cutlim = most % base in
    let whole : cutoff * base + cutlim ≡ most = div-add-mod' most base in
    let wide : cutoff * base + cutlim < 2 * half =
      omega (arith, whole, limit_of-wide half negative some_half) in
    let limit : cutlim < base = mod-lt most (omega arith) in
    let reads =
      scan-Reads-first base cutoff cutlim (omega arith) ten limit (2 * half) wide any_none 0 b s
        refl digits
        (scan-Reads base cutoff cutlim (omega arith) ten limit (2 * half) wide s digits.2) in
    (λ le. reads.0 (omega (arith, whole)), λ lt. reads.1 (omega (arith, whole)))

finish_signed-over :
    (half : ℕ) (negative : Bool) (r : Scanned)
    → r.any ≡ any_over
    → ((finish_signed half negative none none r).error
        ≡ (if negative then too_small else too_large))
      × ((finish_signed half negative none none r).ret
          ≡ some (if negative then negsuc (half - 1) else pos (half - 1)))
unfolding finish_signed
finish_signed-over half true r over = (
  ap (λ a. (finish_signed half true none none (record r { any = a })).error) over,
  ap (λ a. (finish_signed half true none none (record r { any = a })).ret) over,
)
finish_signed-over half false r over = (
  ap (λ a. (finish_signed half false none none (record r { any = a })).error) over,
  ap (λ a. (finish_signed half false none none (record r { any = a })).ret) over,
)

leb→≤ : (a b : ℕ) → leb a b ≡ true → a ≤ b
leb→≤ a b h = ground arith

leb→< : (a b : ℕ) → leb a b ≡ false → b < a
leb→< a b h = ground arith

-- A text of one digit or more, behind a minus or not, in a base given as 2 to 10 and without bounds,
-- is read as the number that it stands for where this fits the signed type, and that is no error;
-- else the error is `too_small` behind a minus and `too_large` without, with the least number of the
-- type or the greatest.
pub strnto_signed-number :
    (negative : Bool) (width after base b : ℕ) (s : List ℕ)
    → 2 ≤ base
    → base ≤ 10
    → AllDigits base (b ∷ s)
    → ((strnto_signed width (signed_text negative (b ∷ s)) after base none none).error ≡ (
        if leb (number base 0 (b ∷ s)) (limit_of (2 ^ (width - 1)) negative)
        then no_err
        else if negative
        then too_small
        else too_large))
      × ((strnto_signed width (signed_text negative (b ∷ s)) after base none none).ret
          ≡ some (
              if leb (number base 0 (b ∷ s)) (limit_of (2 ^ (width - 1)) negative)
              then with_sign negative (number base 0 (b ∷ s))
              else if negative
              then negsuc (2 ^ (width - 1) - 1)
              else pos (2 ^ (width - 1) - 1)))
unfolding finish_signed
strnto_signed-number negative width after base b s two ten digits =
    let half = 2 ^ (width - 1) in
    let run = strnto_signed-plain negative width after base b s two ten digits in
    let room = pow_pos (width - 1) in
    let reads = scan-sign half base b negative s room two ten digits in
    elim (Bool-cases (leb (number base 0 (b ∷ s)) (limit_of half negative))) [
      | inl fits ↦
          let below : number base 0 (b ∷ s) ≤ limit_of half negative = leb→≤ _ _ fits in
          let all = run ∙ ap (finish_signed half negative none none) (reads.0 below) in
          rw fits (
            ap (λ r. r.error) all,
            ap (λ r. r.ret) all
                ∙ ap some (to_signed-sign half negative (number base 0 (b ∷ s)) room below),
          )
      | inr over ↦
          let beyond : limit_of half negative < number base 0 (b ∷ s) = leb→< _ _ over in
          let (error, ret) = finish_signed-over half negative _ (reads.1 beyond) in
          rw over (ap (λ r. r.error) run ∙ error, ap (λ r. r.ret) run ∙ ret)
    ]
