-- ===== src/ParseNum.antt =====
-- The parsers of unsigned numbers of kissc/parsenum.c: the functions that the macro `parse_unsigned`
-- makes, for a type of `width` bits, and `char` signed. Those of `parse_signed` stand in Signed.
--
-- The text is the bytes from `nptr` to `end`, and `after` the byte at `end`, which is read too.
pub mod Digits
pub mod Scan
pub mod Signed
mod Examples
use freebsd_pkg_plugins.Base.{
  ℕ, zero, suc, ◌+◌, ◌-◌, ◌*◌, ◌/◌, ◌%◌, ◌^◌, Bool, true, false, not, ◌&&◌, ◌||◌, Option, none,
  some, List, [], ◌∷◌, ◌==◌, ltb, leb, if◌then◌else◌, ℤ, pos, negsuc,
}

pub data ParseNumError : Type 0 where
  no_err : ParseNumError
  no_digit_found : ParseNumError
  non_digit_found : ParseNumError
  invalid_base : ParseNumError
  too_small : ParseNumError
  too_large : ParseNumError
  less_than_min : ParseNumError
  greater_than_max : ParseNumError

-- What a call leaves: the error, `*ret` where it is set, the text from `*endptr`.
pub record ParsedNumber : Type 0 where
  pub error : ParseNumError
  pub ret : Option ℕ
  pub rest : List ℕ

-- the variable `any`: 0, 1 or -1
pub data Any : Type 0 where
  any_none : Any
  any_digit : Any
  any_over : Any

-- What the loop over the digits leaves; `stopped` at a byte that is no digit.
pub record Scanned : Type 0 where
  pub any : Any
  pub acc : ℕ
  pub stopped : Bool
  pub rest : List ℕ

-- the difference of two bytes
abbrev pub minus : ℕ → ℕ → ℤ
minus a b = if leb b a then pos (a - b) else negsuc (b - a - 1)

-- the variable `c` for a byte, if it can be a digit
unfoldable pub digit_of : (base c : ℕ) → Option ℤ
digit_of base c =
    if leb 48 c && leb c 57
    then some (minus c 48)
    else if ltb 10 base && leb 65 c && leb c 90
    then some (minus c (65 + 10))
    else if ltb 10 base && leb 97 c && leb c 122
    then some (minus c (97 + 10))
    else none

abbrev pub at_least : ℤ → ℕ → Bool
at_least (pos n) b = leb b n
at_least (negsuc n) b = false

abbrev pub above : ℤ → ℕ → Bool
above (pos n) b = ltb b n
above (negsuc n) b = false

-- `acc *= base; acc += c;` in an unsigned type of this many values
unfoldable pub accumulate : (size base acc : ℕ) → ℤ → ℕ
accumulate size base acc (pos n) = (acc * base % size + n) % size
accumulate size base acc (negsuc n) = (acc * base % size + size - (n + 1) % size) % size

-- the test before a digit is taken
unfoldable pub overflows : (cutoff cutlim : ℕ) → Any → (acc : ℕ) → ℤ → Bool
overflows cutoff cutlim any_over acc c = true
overflows cutoff cutlim any_none acc c = ltb cutoff acc || (acc == cutoff && above c cutlim)
overflows cutoff cutlim any_digit acc c = ltb cutoff acc || (acc == cutoff && above c cutlim)

module _ (size base cutoff cutlim : ℕ) where
  unfoldable pub digits_loop : Any → (acc : ℕ) → List ℕ → Scanned
  unfolding digit_of accumulate overflows
  digits_loop any acc [] = record { any = any; acc = acc; stopped = false; rest = [] }
  digits_loop any acc (b ∷ s) = elim (digit_of base b) [
    | none ↦ record { any = any; acc = acc; stopped = true; rest = b ∷ s }
    | some c ↦
        if at_least c base
        then record { any = any; acc = acc; stopped = true; rest = b ∷ s }
        else if overflows cutoff cutlim any acc c
        then digits_loop any_over acc s
        else digits_loop any_digit (accumulate size base acc c) s
  ]

-- the byte at the position of the text
abbrev pub byte_at : (after : ℕ) → List ℕ → ℕ
byte_at after [] = after
byte_at after (b ∷ s) = b

-- a prefix 0 and one of two letters, for a base that is 0 or this one
unfoldable pub skip_prefix : (wanted lower upper base : ℕ) → List ℕ → ℕ × List ℕ
skip_prefix wanted lower upper base [] = (base, [])
skip_prefix wanted lower upper base (z ∷ []) = (base, z ∷ [])
skip_prefix wanted lower upper base (z ∷ x ∷ s) =
    if (base == 0 || base == wanted) && z == 48 && (x == lower || x == upper)
    then (wanted, s)
    else (base, z ∷ x ∷ s)

-- the sign: whether it is a minus, and the text after it
unfoldable pub skip_sign : List ℕ → Bool × List ℕ
skip_sign [] = (false, [])
skip_sign (b ∷ s) = if b == 45 then (true, s) else (false, if b == 43 then s else b ∷ s)

abbrev pub bound_error : (low high : Option ℕ) → ℕ → ParseNumError
bound_error low high n =
    if elim high [ none ↦ false | some most ↦ ltb most n ]
    then greater_than_max
    else if elim low [ none ↦ false | some least ↦ ltb n least ]
    then less_than_min
    else no_err

-- the end, after the loop; `low` and `high` are `min` and `max`
unfoldable pub finish : (size : ℕ) (negative : Bool) (low high : Option ℕ) → Scanned → ParsedNumber
finish size negative low high r = elim r.any [
  | any_over ↦ record { error = too_large; ret = some (size - 1); rest = r.rest }
  | any_none ↦
      if not r.stopped
      then record { error = no_digit_found; ret = none; rest = r.rest }
      else record { error = non_digit_found; ret = some 0; rest = r.rest }
  | any_digit ↦
      let n = if negative then (size - r.acc) % size else r.acc in
      record {
        error = if r.stopped then non_digit_found else bound_error low high n;
        ret = some n;
        rest = r.rest;
      }
]

-- `strntouint8_t` and the like
unfoldable pub strnto_unsigned :
    (width : ℕ) → List ℕ → (after base : ℕ) (low high : Option ℕ) → ParsedNumber
unfolding digits_loop skip_prefix skip_sign finish
strnto_unsigned width [] after base low high =
    finish (2 ^ width) false low high
      (record { any = any_none; acc = 0; stopped = false; rest = [] })
strnto_unsigned width (b ∷ text) after base low high =
    let size = 2 ^ width in
    let (negative, s₀) = skip_sign (b ∷ text) in
    let (base₁, s₁) = skip_prefix 2 98 66 base s₀ in
    let (base₂, s₂) = skip_prefix 16 120 88 base₁ s₁ in
    let radix : ℕ = if base₂ == 0 then (if byte_at after s₂ == 48 then 8 else 10) else base₂ in
    if ltb radix 2 || ltb 36 radix
    then record { error = invalid_base; ret = none; rest = s₂ }
    else finish size negative low high
        (digits_loop size radix ((size - 1) / radix) ((size - 1) % radix) any_none 0 s₂)

-- `strtouint8_t` and the like
unfoldable pub strto_unsigned :
    (width : ℕ) → List ℕ → (base : ℕ) (low high : Option ℕ) → ParsedNumber
unfolding strnto_unsigned
strto_unsigned width text base low high = strnto_unsigned width text 0 base low high
