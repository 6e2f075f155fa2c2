-- ===== src/Text/Caseless.antt =====
-- What the case functions of kissc/ascii_case.c answer: the tables, and comparison up to case.
use freebsd_pkg_plugins.Base.{
  ℕ, zero, suc, ◌+◌, ◌-◌, ◌%◌, ◌<◌, ◌≡◌, ◌∙◌, ap, sym, refl, subst, Bool, true, false, ◌&&◌, some,
  List, [], ◌∷◌, ◌++◌, ◌==◌, ==_refl, ==→eq, leb, if◌then◌else◌, arith, length, Bool-cases, inl,
  inr, ℤ, pos, negsuc,
}
use freebsd_pkg_plugins.Text.{Memory}
use freebsd_pkg_plugins.Text.CopyLoop.{Holds, IsText}
use freebsd_pkg_plugins.Text.Case.{
  lower, upper, entry, ascii_toupper, ascii_tolower, difference, strcase_loop, ascii_strcasecmp,
}

follows : (ℕ → ℕ) → ℕ → List ℕ → Bool
follows f i [] = true
follows f i (x ∷ xs) = (x == f i) && follows f (suc i) xs

follows-entry :
    (f : ℕ → ℕ) (i j : ℕ) (xs : List ℕ)
    → follows f i xs ≡ true
    → j < length xs
    → entry xs j ≡ f (i + j)
unfolding follows entry
follows-entry f i j [] all lt = elim lt [ ]
follows-entry f i zero (x ∷ xs) all lt = ==→eq x (f i) (ground arith) ∙ ap f (omega arith)
follows-entry f i (suc j) (x ∷ xs) all lt =
    follows-entry f (suc i) j xs (ground arith) (omega arith) ∙ ap f (omega arith)

abbrev pub upper_of : ℕ → ℕ
upper_of c = if leb 97 c && leb c 122 then c - 32 else c

abbrev pub lower_of : ℕ → ℕ
lower_of c = if leb 65 c && leb c 90 then c + 32 else c

upper_table : follows upper_of 0 upper ≡ true
unfolding follows
upper_table = refl

lower_table : follows lower_of 0 lower ≡ true
unfolding follows
lower_table = refl

-- On a byte, the tables of ascii_case.c turn the letters from `a` to `z` into those from `A` to `Z`,
-- the other way around, and leave the other bytes.
pub ascii_case-eq :
    (c : ℕ) → c < 256 → (ascii_toupper c ≡ upper_of c) × (ascii_tolower c ≡ lower_of c)
unfolding ascii_toupper ascii_tolower
ascii_case-eq c byte =
    let same : c % 256 ≡ c = omega arith in
    let start : 0 + c ≡ c = omega arith in
    (
      ap (entry upper) same ∙ follows-entry upper_of 0 c upper upper_table byte ∙ ap upper_of start,
      ap (entry lower) same ∙ follows-entry lower_of 0 c lower lower_table byte ∙ ap lower_of start,
    )

abbrev pub is_zero : ℤ → Bool
is_zero (pos n) = n == 0
is_zero (negsuc n) = false

-- whether the bytes at an address begin with these, ignoring the case
abbrev pub begins : Memory → List ℕ → ℕ → Bool
begins m [] a = true
begins m (x ∷ xs) a = (ascii_toupper x == ascii_toupper (m a)) && begins m xs (a + 1)

difference-is_zero : (a b : ℕ) → a == b ≡ false → is_zero (difference a b) ≡ false
difference-is_zero a b other = ground arith

begins-own : (m : Memory) (xs : List ℕ) (a : ℕ) → Holds m a (xs ++ 0 ∷ []) → begins m xs a ≡ true
begins-own m [] a held = refl
begins-own m (x ∷ xs) a held =
    let here : ascii_toupper x == ascii_toupper (m a) ≡ true =
      subst (λ c. ascii_toupper x == ascii_toupper c ≡ true) (sym held.0)
        (==_refl (ascii_toupper x)) in
    rw here (begins-own m xs (a + 1) held.1)

strcase_loop-begins :
    (m : Memory) (xs : List ℕ) (fuel str1 str2 : ℕ)
    → Holds m str1 (xs ++ 0 ∷ [])
    → IsText xs
    → length xs < fuel
    → (r : ℤ) × (strcase_loop m fuel str1 str2 ≡ some r) × (is_zero r ≡ begins m xs str2)
unfolding strcase_loop
strcase_loop-begins m [] zero str1 str2 held text room = elim room [ ]
strcase_loop-begins m (x ∷ xs) zero str1 str2 held text room = elim room [ ]
strcase_loop-begins m [] (suc k) str1 str2 held text room =
    (pos 0, rw (strcase_loop, held.0) refl, refl)
strcase_loop-begins m (x ∷ xs) (suc k) str1 str2 held text room =
    let more : x == 0 ≡ false = ground (arith, text.0) in
    let (r, run, zero_iff) =
      strcase_loop-begins m xs k (str1 + 1) (str2 + 1) held.1 text.1 (omega arith) in
    elim (Bool-cases (ascii_toupper x == ascii_toupper (m str2))) [
      | inl same ↦ (r, rw (strcase_loop, held.0, more, same) run, rw same zero_iff)
      | inr other ↦ (
        difference (ascii_toupper x) (ascii_toupper (m str2)),
        rw (strcase_loop, held.0, more, other) refl,
        rw other (difference-is_zero _ _ other),
      )
    ]

-- ascii_strcasecmp ends, on fuel for the bytes of the first text with its NUL, and answers 0
-- exactly where the second text begins with the first, ignoring the case: also where it goes on.
ascii_strcasecmp-begins :
    (m : Memory) (xs : List ℕ) (fuel str1 str2 : ℕ)
    → Holds m str1 (xs ++ 0 ∷ [])
    → IsText xs
    → length xs < fuel
    → (r : ℤ) × (ascii_strcasecmp m fuel str1 str2 ≡ some r) × (is_zero r ≡ begins m xs str2)
unfolding ascii_strcasecmp
ascii_strcasecmp-begins m xs fuel str1 str2 held text room = elim (Bool-cases (str1 == str2)) [
  | inl same ↦ (
    pos 0,
    rw same refl,
    sym (ap (begins m xs) (sym (==→eq str1 str2 same)) ∙ begins-own m xs str1 held),
  )
  | inr apart ↦ rw apart (strcase_loop-begins m xs fuel str1 str2 held text room)
]
