-- ===== src/ParseNum/Examples.antt =====
-- The theorems on numbers at the text "255" and a byte.
use freebsd_pkg_plugins.Base.{◌-◌, ◌^◌, ◌≡◌, none, some, [], ◌∷◌, arith, ltb, if◌then◌else◌}
use freebsd_pkg_plugins.ParseNum.{strnto_unsigned, no_err, too_large}
use freebsd_pkg_plugins.ParseNum.Scan.{number}
use freebsd_pkg_plugins.Base.{◌≡◌, refl, true, leb, pos, negsuc}
use freebsd_pkg_plugins.ParseNum.{too_small}
use freebsd_pkg_plugins.ParseNum.Signed.{strnto_signed, limit_of}
use freebsd_pkg_plugins.ParseNum.Signed.Number.{signed_text, with_sign, strnto_signed-number}
use freebsd_pkg_plugins.ParseNum.Digits.{strnto_unsigned-number}

number_example :
    ((strnto_unsigned 8 (50 ∷ 53 ∷ 53 ∷ []) 0 10 none none).error
      ≡ (if ltb (number 10 0 (50 ∷ 53 ∷ 53 ∷ [])) (2 ^ 8) then no_err else too_large))
    × ((strnto_unsigned 8 (50 ∷ 53 ∷ 53 ∷ []) 0 10 none none).ret
        ≡ some (
            if ltb (number 10 0 (50 ∷ 53 ∷ 53 ∷ [])) (2 ^ 8)
            then number 10 0 (50 ∷ 53 ∷ 53 ∷ [])
            else 2 ^ 8 - 1))
number_example =
    strnto_unsigned-number 8 0 10 50 (53 ∷ 53 ∷ []) (omega arith) (omega arith)
      (omega arith, omega arith, (omega arith, omega arith, (omega arith, omega arith, tt)))

-- "-128" in eight bits
signed_example :
    ((strnto_signed 8 (signed_text true (49 ∷ 50 ∷ 56 ∷ [])) 0 10 none none).error ≡ (
      if leb (number 10 0 (49 ∷ 50 ∷ 56 ∷ [])) (limit_of (2 ^ (8 - 1)) true)
      then no_err
      else if true
      then too_small
      else too_large))
    × ((strnto_signed 8 (signed_text true (49 ∷ 50 ∷ 56 ∷ [])) 0 10 none none).ret
        ≡ some (
            if leb (number 10 0 (49 ∷ 50 ∷ 56 ∷ [])) (limit_of (2 ^ (8 - 1)) true)
            then with_sign true (number 10 0 (49 ∷ 50 ∷ 56 ∷ []))
            else if true
            then negsuc (2 ^ (8 - 1) - 1)
            else pos (2 ^ (8 - 1) - 1)))
signed_example =
    strnto_signed-number true 8 0 10 49 (50 ∷ 56 ∷ []) (omega arith) (omega arith)
      (omega arith, omega arith, (omega arith, omega arith, (omega arith, omega arith, tt)))

signed_test : (strnto_signed 8 (45 ∷ 49 ∷ 50 ∷ 56 ∷ []) 0 10 none none).ret ≡ some (negsuc 127)
unfolding strnto_signed
signed_test = refl
