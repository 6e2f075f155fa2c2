-- ===== src/Zint/Units.antt =====
-- The units of a period: the text that names one, case aside, and its seconds.
use freebsd_pkg_plugins.Base.{
  codes, ◌||◌, same_text, ℕ, zero, suc, ◌+◌, ◌-◌, ◌%◌, ◌<◌, ◌≤◌, ◌≡◌, refl, Bool, not, ◌&&◌, Option,
  none, some, List, [], ◌∷◌, map, arith, inl, inr, if◌then◌else◌, ◌==◌, leb, length, get_elem?,
  word_size, is_some, Bool-cases,
}
use freebsd_pkg_plugins.Zint.Retention.{RetentionUnit, retention_units}

abbrev pub take : ℕ → List ℕ → List ℕ
take zero s = []
take (suc n) [] = []
take (suc n) (c ∷ s) = c ∷ take n s

abbrev pub lower : ℕ → ℕ
lower c = if leb 65 c && leb c 90 then c + 32 else c

-- the text is this word, case aside
abbrev pub names : List ℕ → List ℕ → Bool
names p word = same_text (map lower p) (map lower word)

-- the seconds of the unit that the text names, in full, case aside
abbrev pub unit_seconds : List ℕ → List RetentionUnit → Option ℕ
unit_seconds p [] = none
unit_seconds p (u ∷ us) = if names p u.name then some u.value else unit_seconds p us

pub same_text-take :
    (s t : List ℕ)
    → (same_text (take (length t) (map lower s)) (take (length t) (map lower t))
        && not (is_some (get_elem? s (length t))))
      ≡ names s t
same_text-take [] [] = refl
same_text-take (c ∷ s) [] = refl
same_text-take [] (d ∷ t) = refl
same_text-take (c ∷ s) (d ∷ t) = elim (Bool-cases (lower c == lower d)) [
  | inl e ↦ rw e (same_text-take s t)
  | inr e ↦ rw e refl
]

-- the table's lengths are those of the names
abbrev pub Measured : List RetentionUnit → Type 0
Measured [] = Unit
Measured (u ∷ us) = (u.name_len ≡ length u.name) × Measured us

-- `strncasecmp` answers 0 where the first `n` bytes are the same, case aside.
abbrev pub IsStrncasecmp : (List ℕ → List ℕ → ℕ → Bool) → Type 0
IsStrncasecmp equal_to =
    (s t : List ℕ) (n : ℕ)
    → equal_to s t n ≡ same_text (take n (map lower s)) (take n (map lower t))

pub wrap_back :
    (now m : ℕ) → m ≤ now → now < word_size → (now + word_size - m) % word_size ≡ now - m
wrap_back now m le lt = omega arith

-- the seconds of a unit that is named in full, case aside: a month has 30 days, a year 365
abbrev pub unit_of : List ℕ → Option ℕ
unit_of p =
    if names p (codes "day") || names p (codes "days")
    then some 86400
    else if names p (codes "week") || names p (codes "weeks")
    then some 604800
    else if names p (codes "month") || names p (codes "months")
    then some 2592000
    else if names p (codes "year") || names p (codes "years")
    then some 31536000
    else none

pub unit_seconds-unit_of : (p : List ℕ) → unit_seconds p retention_units ≡ unit_of p
unit_seconds-unit_of p =
    either_spelling (names p (codes "day")) (names p (codes "days")) (names p (codes "week"))
      (names p (codes "weeks")) (names p (codes "month")) (names p (codes "months"))
      (names p (codes "year")) (names p (codes "years"))
  where
    either_spelling :
        (day days week weeks month months year years : Bool)
        → ◌≡◌ {A = Option ℕ}
            (if days
              then some 86400
              else if day
              then some 86400
              else if weeks
              then some 604800
              else if week
              then some 604800
              else if months
              then some 2592000
              else if month
              then some 2592000
              else if years
              then some 31536000
              else if year
              then some 31536000
              else none)
            (if day || days
              then some 86400
              else if week || weeks
              then some 604800
              else if month || months
              then some 2592000
              else if year || years
              then some 31536000
              else none)
    either_spelling day days week weeks month months year years = ground arith
