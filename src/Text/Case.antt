-- ===== src/Text/Case.antt =====
-- The case functions of kissc/ascii_case.c, and the keys of kissc/hashtable.c that are texts.
--
-- A byte is a number below 256, a text stands at an address up to its NUL, and an `int` result is a
-- ℤ. `memory` is what is read; nothing is written. The loops of the functions that stop at a NUL or
-- at a difference take fuel.
use Prim.Native.Nat.{bit_xor}
use freebsd_pkg_plugins.Base.{
  ℕ, zero, suc, ◌+◌, ◌-◌, ◌*◌, ◌%◌, ◌^◌, Bool, false, not, ◌&&◌, ◌||◌, Option, none, some, List, [],
  ◌∷◌, ◌==◌, ltb, if◌then◌else◌, word_size, ℤ, pos, negsuc,
}
use freebsd_pkg_plugins.Text.{Memory}

-- the tables
abbrev pub lower : List ℕ
lower =
    0 ∷ 1 ∷ 2 ∷ 3 ∷ 4 ∷ 5 ∷ 6 ∷ 7 ∷ 8 ∷ 9 ∷ 10 ∷ 11 ∷ 12 ∷ 13 ∷ 14 ∷ 15 ∷ 16 ∷ 17 ∷ 18 ∷ 19 ∷ 20
    ∷ 21 ∷ 22 ∷ 23 ∷ 24 ∷ 25 ∷ 26 ∷ 27 ∷ 28 ∷ 29 ∷ 30 ∷ 31 ∷ 32 ∷ 33 ∷ 34 ∷ 35 ∷ 36 ∷ 37 ∷ 38 ∷ 39
    ∷ 40 ∷ 41 ∷ 42 ∷ 43 ∷ 44 ∷ 45 ∷ 46 ∷ 47 ∷ 48 ∷ 49 ∷ 50 ∷ 51 ∷ 52 ∷ 53 ∷ 54 ∷ 55 ∷ 56 ∷ 57 ∷ 58
    ∷ 59 ∷ 60 ∷ 61 ∷ 62 ∷ 63 ∷ 64 ∷ 97 ∷ 98 ∷ 99 ∷ 100 ∷ 101 ∷ 102 ∷ 103 ∷ 104 ∷ 105 ∷ 106 ∷ 107
    ∷ 108 ∷ 109 ∷ 110 ∷ 111 ∷ 112 ∷ 113 ∷ 114 ∷ 115 ∷ 116 ∷ 117 ∷ 118 ∷ 119 ∷ 120 ∷ 121 ∷ 122 ∷ 91
    ∷ 92 ∷ 93 ∷ 94 ∷ 95 ∷ 96 ∷ 97 ∷ 98 ∷ 99 ∷ 100 ∷ 101 ∷ 102 ∷ 103 ∷ 104 ∷ 105 ∷ 106 ∷ 107 ∷ 108
    ∷ 109 ∷ 110 ∷ 111 ∷ 112 ∷ 113 ∷ 114 ∷ 115 ∷ 116 ∷ 117 ∷ 118 ∷ 119 ∷ 120 ∷ 121 ∷ 122 ∷ 123 ∷ 124
    ∷ 125 ∷ 126 ∷ 127 ∷ 128 ∷ 129 ∷ 130 ∷ 131 ∷ 132 ∷ 133 ∷ 134 ∷ 135 ∷ 136 ∷ 137 ∷ 138 ∷ 139 ∷ 140
    ∷ 141 ∷ 142 ∷ 143 ∷ 144 ∷ 145 ∷ 146 ∷ 147 ∷ 148 ∷ 149 ∷ 150 ∷ 151 ∷ 152 ∷ 153 ∷ 154 ∷ 155 ∷ 156
    ∷ 157 ∷ 158 ∷ 159 ∷ 160 ∷ 161 ∷ 162 ∷ 163 ∷ 164 ∷ 165 ∷ 166 ∷ 167 ∷ 168 ∷ 169 ∷ 170 ∷ 171 ∷ 172
    ∷ 173 ∷ 174 ∷ 175 ∷ 176 ∷ 177 ∷ 178 ∷ 179 ∷ 180 ∷ 181 ∷ 182 ∷ 183 ∷ 184 ∷ 185 ∷ 186 ∷ 187 ∷ 188
    ∷ 189 ∷ 190 ∷ 191 ∷ 192 ∷ 193 ∷ 194 ∷ 195 ∷ 196 ∷ 197 ∷ 198 ∷ 199 ∷ 200 ∷ 201 ∷ 202 ∷ 203 ∷ 204
    ∷ 205 ∷ 206 ∷ 207 ∷ 208 ∷ 209 ∷ 210 ∷ 211 ∷ 212 ∷ 213 ∷ 214 ∷ 215 ∷ 216 ∷ 217 ∷ 218 ∷ 219 ∷ 220
    ∷ 221 ∷ 222 ∷ 223 ∷ 224 ∷ 225 ∷ 226 ∷ 227 ∷ 228 ∷ 229 ∷ 230 ∷ 231 ∷ 232 ∷ 233 ∷ 234 ∷ 235 ∷ 236
    ∷ 237 ∷ 238 ∷ 239 ∷ 240 ∷ 241 ∷ 242 ∷ 243 ∷ 244 ∷ 245 ∷ 246 ∷ 247 ∷ 248 ∷ 249 ∷ 250 ∷ 251 ∷ 252
    ∷ 253 ∷ 254 ∷ 255 ∷ []

abbrev pub upper : List ℕ
upper =
    0 ∷ 1 ∷ 2 ∷ 3 ∷ 4 ∷ 5 ∷ 6 ∷ 7 ∷ 8 ∷ 9 ∷ 10 ∷ 11 ∷ 12 ∷ 13 ∷ 14 ∷ 15 ∷ 16 ∷ 17 ∷ 18 ∷ 19 ∷ 20
    ∷ 21 ∷ 22 ∷ 23 ∷ 24 ∷ 25 ∷ 26 ∷ 27 ∷ 28 ∷ 29 ∷ 30 ∷ 31 ∷ 32 ∷ 33 ∷ 34 ∷ 35 ∷ 36 ∷ 37 ∷ 38 ∷ 39
    ∷ 40 ∷ 41 ∷ 42 ∷ 43 ∷ 44 ∷ 45 ∷ 46 ∷ 47 ∷ 48 ∷ 49 ∷ 50 ∷ 51 ∷ 52 ∷ 53 ∷ 54 ∷ 55 ∷ 56 ∷ 57 ∷ 58
    ∷ 59 ∷ 60 ∷ 61 ∷ 62 ∷ 63 ∷ 64 ∷ 65 ∷ 66 ∷ 67 ∷ 68 ∷ 69 ∷ 70 ∷ 71 ∷ 72 ∷ 73 ∷ 74 ∷ 75 ∷ 76 ∷ 77
    ∷ 78 ∷ 79 ∷ 80 ∷ 81 ∷ 82 ∷ 83 ∷ 84 ∷ 85 ∷ 86 ∷ 87 ∷ 88 ∷ 89 ∷ 90 ∷ 91 ∷ 92 ∷ 93 ∷ 94 ∷ 95 ∷ 96
    ∷ 65 ∷ 66 ∷ 67 ∷ 68 ∷ 69 ∷ 70 ∷ 71 ∷ 72 ∷ 73 ∷ 74 ∷ 75 ∷ 76 ∷ 77 ∷ 78 ∷ 79 ∷ 80 ∷ 81 ∷ 82 ∷ 83
    ∷ 84 ∷ 85 ∷ 86 ∷ 87 ∷ 88 ∷ 89 ∷ 90 ∷ 123 ∷ 124 ∷ 125 ∷ 126 ∷ 127 ∷ 128 ∷ 129 ∷ 130 ∷ 131 ∷ 132
    ∷ 133 ∷ 134 ∷ 135 ∷ 136 ∷ 137 ∷ 138 ∷ 139 ∷ 140 ∷ 141 ∷ 142 ∷ 143 ∷ 144 ∷ 145 ∷ 146 ∷ 147 ∷ 148
    ∷ 149 ∷ 150 ∷ 151 ∷ 152 ∷ 153 ∷ 154 ∷ 155 ∷ 156 ∷ 157 ∷ 158 ∷ 159 ∷ 160 ∷ 161 ∷ 162 ∷ 163 ∷ 164
    ∷ 165 ∷ 166 ∷ 167 ∷ 168 ∷ 169 ∷ 170 ∷ 171 ∷ 172 ∷ 173 ∷ 174 ∷ 175 ∷ 176 ∷ 177 ∷ 178 ∷ 179 ∷ 180
    ∷ 181 ∷ 182 ∷ 183 ∷ 184 ∷ 185 ∷ 186 ∷ 187 ∷ 188 ∷ 189 ∷ 190 ∷ 191 ∷ 192 ∷ 193 ∷ 194 ∷ 195 ∷ 196
    ∷ 197 ∷ 198 ∷ 199 ∷ 200 ∷ 201 ∷ 202 ∷ 203 ∷ 204 ∷ 205 ∷ 206 ∷ 207 ∷ 208 ∷ 209 ∷ 210 ∷ 211 ∷ 212
    ∷ 213 ∷ 214 ∷ 215 ∷ 216 ∷ 217 ∷ 218 ∷ 219 ∷ 220 ∷ 221 ∷ 222 ∷ 223 ∷ 224 ∷ 225 ∷ 226 ∷ 227 ∷ 228
    ∷ 229 ∷ 230 ∷ 231 ∷ 232 ∷ 233 ∷ 234 ∷ 235 ∷ 236 ∷ 237 ∷ 238 ∷ 239 ∷ 240 ∷ 241 ∷ 242 ∷ 243 ∷ 244
    ∷ 245 ∷ 246 ∷ 247 ∷ 248 ∷ 249 ∷ 250 ∷ 251 ∷ 252 ∷ 253 ∷ 254 ∷ 255 ∷ []

-- `table[i]`
unfoldable pub entry : List ℕ → ℕ → ℕ
entry [] i = 0
entry (x ∷ xs) zero = x
entry (x ∷ xs) (suc i) = entry xs i

unfoldable pub ascii_isupper : ℕ → Bool
ascii_isupper c = entry upper (c % 256) == c % 256

unfoldable pub ascii_toupper : ℕ → ℕ
ascii_toupper c = entry upper (c % 256)

unfoldable pub ascii_islower : ℕ → Bool
ascii_islower c = entry lower (c % 256) == c % 256

unfoldable pub ascii_tolower : ℕ → ℕ
ascii_tolower c = entry lower (c % 256)

-- `a - b` as an `int`
abbrev pub difference : ℕ → ℕ → ℤ
difference a b = if ltb a b then negsuc (b - a - 1) else pos (a - b)

-- `a - b` of two `size_t`, as an `int`
abbrev pub int_difference : ℕ → ℕ → ℤ
int_difference a b =
    let d = (a + word_size - b) % word_size % 2 ^ 32 in
    if ltb d (2 ^ 31) then pos d else negsuc (2 ^ 32 - 1 - d)

module _ (memory : Memory) where
  -- the loop of ascii_memcasecmp and of ascii_strcasecmp_l: `none` where the bytes are all equal
  unfoldable pub memcase_loop : (str1 str2 n : ℕ) → Option ℤ
  memcase_loop str1 str2 zero = none
  memcase_loop str1 str2 (suc n) =
      let c1 = ascii_toupper (memory str1) in
      let c2 = ascii_toupper (memory str2) in
      let rest = memcase_loop (str1 + 1) (str2 + 1) n in
      if c1 == c2 then rest else some (difference c1 c2)

  unfoldable pub ascii_memcasecmp : (str1 str2 n : ℕ) → ℤ
  unfolding memcase_loop
  ascii_memcasecmp str1 str2 n =
      if str1 == str2 then pos 0 else elim (memcase_loop str1 str2 n) [ none ↦ pos 0 | some d ↦ d ]

  unfoldable pub ascii_strcasecmp_l : (str1 str1_len str2 str2_len : ℕ) → ℤ
  unfolding memcase_loop
  ascii_strcasecmp_l str1 str1_len str2 str2_len =
      let min_len = if ltb str2_len str1_len then str2_len else str1_len in
      if str1 == str2
      then int_difference str1_len str2_len
      else elim (memcase_loop str1 str2 min_len) [
        | none ↦ int_difference str1_len str2_len
        | some d ↦ d
      ]

  unfoldable pub strcase_loop : (fuel str1 str2 : ℕ) → Option ℤ
  strcase_loop zero str1 str2 = none
  strcase_loop (suc k) str1 str2 =
      let c1 = ascii_toupper (memory str1) in
      let c2 = ascii_toupper (memory str2) in
      let rest = strcase_loop k (str1 + 1) (str2 + 1) in
      if memory str1 == 0 then some (pos 0) else if c1 == c2 then rest else some (difference c1 c2)

  unfoldable pub ascii_strcasecmp : (fuel str1 str2 : ℕ) → Option ℤ
  unfolding strcase_loop
  ascii_strcasecmp fuel str1 str2 =
      if str1 == str2 then some (pos 0) else strcase_loop fuel str1 str2

  -- The `do` loop of ascii_strncasecmp and ascii_strncasecmp_l: `--n` wraps below 0.
  unfoldable pub strncase_loop : (fuel str1 str2 n : ℕ) → Option ℤ
  strncase_loop zero str1 str2 n = none
  strncase_loop (suc k) str1 str2 n =
      let c1 = ascii_toupper (memory str1) in
      let c2 = ascii_toupper (memory str2) in
      let n' = (n + word_size - 1) % word_size in
      let rest = strncase_loop k (str1 + 1) (str2 + 1) n' in
      if memory str1 == 0
      then some (pos 0)
      else if (c1 == c2) && not (n' == 0)
      then rest
      else some (difference (c1 % 256) (c2 % 256))

  unfoldable pub ascii_strncasecmp : (fuel str1 str2 n : ℕ) → Option ℤ
  unfolding strncase_loop
  ascii_strncasecmp fuel str1 str2 n =
      if (str1 == str2) || (n == 0) then some (pos 0) else strncase_loop fuel str1 str2 n

  abbrev pub min_of : ℕ → ℕ → ℕ
  min_of a b = if ltb a b then a else b

  unfoldable pub ascii_strncasecmp_l : (fuel str1 str1_len str2 str2_len n : ℕ) → Option ℤ
  unfolding strncase_loop
  ascii_strncasecmp_l fuel str1 str1_len str2 str2_len n =
      if (str1 == str2) || (n == 0)
      then some (pos 0)
      else strncase_loop fuel str1 str2 (min_of n (min_of str1_len str2_len))

  -- the address, `none` for NULL
  memcasechr_loop : (uc str n : ℕ) → Option ℕ
  memcasechr_loop uc str zero = none
  memcasechr_loop uc str (suc n) =
      let rest = memcasechr_loop uc (str + 1) n in
      if uc == ascii_toupper (memory str) then some str else rest

  unfoldable pub ascii_memcasechr : (str c n : ℕ) → Option ℕ
  unfolding memcasechr_loop
  ascii_memcasechr str c n = memcasechr_loop (ascii_toupper (c % 256)) str n

  -- A key is a pointer; 0 is NULL.
  unfoldable pub ascii_equal_ci : (fuel k1 k2 : ℕ) → Option Bool
  unfolding ascii_strcasecmp
  ascii_equal_ci fuel k1 k2 =
      if (k1 == 0) || (k2 == 0) then some (k1 == k2) else elim (ascii_strcasecmp fuel k1 k2) [
        | none ↦ none
        | some (pos d) ↦ some (d == 0)
        | some (negsuc d) ↦ some false
      ]

-- one round of the hash functions, on what the byte counts for
abbrev pub mix : ℕ → ℕ → ℕ
mix h c = bit_xor ((h + h * 2 ^ 5 % word_size) % word_size) c % word_size

module _ (memory : Memory) where
  unfoldable pub ascii_hash_loop : (byte : ℕ → ℕ) (fuel h str : ℕ) → Option ℕ
  ascii_hash_loop byte zero h str = none
  ascii_hash_loop byte (suc k) h str =
      let rest = ascii_hash_loop byte k (mix h (byte (memory str))) (str + 1) in
      if memory str == 0 then some h else rest

  -- `*str` is a `char`, which has a sign.
  unfoldable pub ascii_hash_cs : (fuel k : ℕ) → Option ℕ
  unfolding ascii_hash_loop
  ascii_hash_cs fuel k =
      ascii_hash_loop (λ c. if ltb c 128 then c else word_size + c - 256) fuel 5381 k

  unfoldable pub ascii_hash_ci : (fuel k : ℕ) → Option ℕ
  unfolding ascii_hash_loop
  ascii_hash_ci fuel k = ascii_hash_loop ascii_toupper fuel 5381 k
