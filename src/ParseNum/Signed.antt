-- ===== src/ParseNum/Signed.antt =====
-- The parsers of signed numbers of kissc/parsenum.c: the functions that the macro `parse_signed` makes,
-- for a type of `width` bits. The loop over the digits is that of the unsigned parsers.
pub mod Number
use freebsd_pkg_plugins.Base.{
  ℕ, ◌+◌, ◌-◌, ◌*◌, ◌/◌, ◌%◌, ◌^◌, Bool, true, false, not, ◌||◌, Option, none, some, List, [], ◌∷◌,
  ◌==◌, ltb, if◌then◌else◌, ℤ, pos, negsuc, below,
}
use freebsd_pkg_plugins.ParseNum.{
  ParseNumError, no_err, no_digit_found, non_digit_found, invalid_base, too_small, too_large,
  less_than_min, greater_than_max, any_none, any_digit, any_over, Scanned, digits_loop, skip_sign,
  skip_prefix, byte_at,
}

-- What a call leaves: the error, `*ret` where it is set, the text from `*endptr`.
pub record ParsedSigned : Type 0 where
  pub error : ParseNumError
  pub ret : Option ℤ
  pub rest : List ℕ

-- a value of the unsigned type in the signed one; `half` is half of their number
abbrev pub to_signed : (half : ℕ) → ℕ → ℤ
to_signed half n = if ltb n half then pos n else negsuc (2 * half - 1 - n)

abbrev pub signed_bound_error : (low high : Option ℤ) → ℤ → ParseNumError
signed_bound_error low high n =
    if elim high [ none ↦ false | some most ↦ below most n ]
    then greater_than_max
    else if elim low [ none ↦ false | some least ↦ below n least ]
    then less_than_min
    else no_err

-- the end, after the loop; `low` and `high` are `min` and `max`
unfoldable pub finish_signed :
    (half : ℕ) (negative : Bool) (low high : Option ℤ) → Scanned → ParsedSigned
finish_signed half negative low high r = elim r.any [
  | any_over ↦
      if negative
      then record { error = too_small; ret = some (negsuc (half - 1)); rest = r.rest }
      else record { error = too_large; ret = some (pos (half - 1)); rest = r.rest }
  | any_none ↦
      if not r.stopped
      then record { error = no_digit_found; ret = none; rest = r.rest }
      else record { error = non_digit_found; ret = some (pos 0); rest = r.rest }
  | any_digit ↦
      let n = to_signed half (if negative then (2 * half - r.acc) % (2 * half) else r.acc) in
      record {
        error = if r.stopped then non_digit_found else signed_bound_error low high n;
        ret = some n;
        rest = r.rest;
      }
]

-- the greatest number that fits behind the sign
abbrev pub limit_of : (half : ℕ) (negative : Bool) → ℕ
limit_of half negative = if negative then half else half - 1

-- `strntoint8_t` and the like
unfoldable pub strnto_signed :
    (width : ℕ) → List ℕ → (after base : ℕ) (low high : Option ℤ) → ParsedSigned
unfolding digits_loop skip_prefix skip_sign finish_signed
strnto_signed width [] after base low high =
    finish_signed (2 ^ (width - 1)) false low high
      (record { any = any_none; acc = 0; stopped = false; rest = [] })
strnto_signed width (b ∷ text) after base low high =
    let half = 2 ^ (width - 1) in
    let (negative, s₀) = skip_sign (b ∷ text) in
    let (base₁, s₁) = skip_prefix 2 98 66 base s₀ in
    let (base₂, s₂) = skip_prefix 16 120 88 base₁ s₁ in
    let radix : ℕ = if base₂ == 0 then (if byte_at after s₂ == 48 then 8 else 10) else base₂ in
    let cutoff = limit_of half negative in
    if ltb radix 2 || ltb 36 radix
    then record { error = invalid_base; ret = none; rest = s₂ }
    else finish_signed half negative low high
        (digits_loop (2 * half) radix (cutoff / radix) (cutoff % radix) any_none 0 s₂)

-- `strtoint8_t` and the like
unfoldable pub strto_signed : (width : ℕ) → List ℕ → (base : ℕ) (low high : Option ℤ) → ParsedSigned
unfolding strnto_signed
strto_signed width text base low high = strnto_signed width text 0 base low high
