-- ===== src/History/Date/Guess.antt =====
-- How set_date of date.re tells years, months and days apart.
use freebsd_pkg_plugins.Base.{
  ℕ, ◌≡◌, refl, not, ◌&&◌, Option, none, some, List, [], ◌∷◌, ◌==◌, arith, if◌then◌else◌, ℤ, pos,
}
use freebsd_pkg_plugins.History.Date.{
  Tm, is_year, is_month, guess_year, guess_month, date_set, no_year, no_month, assign_date, set_day,
  set_month, set_date,
}

-- Of two numbers, the month and the day, where only one reading makes a month of the month.
abbrev pub month_and_day : ℕ → ℕ → Option (ℕ × ℕ)
month_and_day a b =
    if a == b
    then (if is_month a then some (a, b) else none)
    else if is_month a && not (is_month b)
    then some (a, b)
    else if is_month b && not (is_month a)
    then some (b, a)
    else none

guess_month-two :
    (a b : ℕ)
    → guess_month (a ∷ b ∷ [])
      ≡ elim (month_and_day a b) [ none ↦ none | some r ↦ some (r.0, r.1 ∷ []) ]
unfolding guess_month
guess_month-two a b = ground arith

set_date-two :
    (tm : Tm) (y : ℤ) (a b : ℕ)
    → set_date tm (some y) none none (a ∷ b ∷ [])
      ≡ elim (month_and_day a b) [ none ↦ no_month | some r ↦ date_set (assign_date tm y r.0 r.1) ]
unfolding set_date
set_date-two tm y a b =
    by_month (guess_month (a ∷ b ∷ [])) (month_and_day a b) (guess_month-two a b)
  where
    by_month :
        (g : Option (ℕ × List ℕ)) (r : Option (ℕ × ℕ))
        → g ≡ elim r [ none ↦ none | some r ↦ some (r.0, r.1 ∷ []) ]
        → elim g [ none ↦ no_month | some r ↦ set_day tm y r.0 none r.1 ]
          ≡ elim r [ none ↦ no_month | some r ↦ date_set (assign_date tm y r.0 r.1) ]
    by_month g none e = rw e refl
    by_month g (some r) e = rw e refl

-- Of two numbers, the year and the day, where only one can be a year, or both are the same.
abbrev pub year_and_day : ℕ → ℕ → Option (ℕ × ℕ)
year_and_day a b =
    if a == b
    then (if is_year a then none else some (b, a))
    else if is_year a && not (is_year b)
    then some (a, b)
    else if is_year b && not (is_year a)
    then some (b, a)
    else none

guess_year-two :
    (a b : ℕ)
    → guess_year (a ∷ b ∷ [])
      ≡ elim (year_and_day a b) [ none ↦ none | some r ↦ some (r.0, r.1 ∷ []) ]
unfolding guess_year
guess_year-two a b = ground arith

set_date-year :
    (tm : Tm) (m a b : ℕ)
    → set_date tm none (some m) none (a ∷ b ∷ []) ≡ elim (year_and_day a b) [
      | none ↦ no_year
      | some r ↦ date_set (assign_date tm (pos r.0) m r.1)
    ]
unfolding set_date
set_date-year tm m a b = by_year (guess_year (a ∷ b ∷ [])) (year_and_day a b) (guess_year-two a b)
  where
    by_year :
        (g : Option (ℕ × List ℕ)) (r : Option (ℕ × ℕ))
        → g ≡ elim r [ none ↦ none | some r ↦ some (r.0, r.1 ∷ []) ]
        → elim g [ none ↦ no_year | some r ↦ set_month tm (pos r.0) (some m) none r.1 ]
          ≡ elim r [ none ↦ no_year | some r ↦ date_set (assign_date tm (pos r.0) m r.1) ]
    by_year g none e = rw e refl
    by_year g (some r) e = rw e refl

-- Two numbers that the text leaves open are told apart or refused, without a failing assertion. With the
-- year known, the month is the one that can be a month where the other cannot, and either if they are
-- equal. With the month known, the year is the one below 1 or above 31 where the other is not, and the
-- second if they are equal and no year. In all other cases there is no date.
pub set_date-resolves :
    (tm : Tm) (y : ℤ) (m a b : ℕ)
    → (set_date tm (some y) none none (a ∷ b ∷ []) ≡ elim (month_and_day a b) [
      | none ↦ no_month
      | some r ↦ date_set (assign_date tm y r.0 r.1)
    ])
      × (set_date tm none (some m) none (a ∷ b ∷ []) ≡ elim (year_and_day a b) [
        | none ↦ no_year
        | some r ↦ date_set (assign_date tm (pos r.0) m r.1)
      ])
set_date-resolves tm y m a b = (set_date-two tm y a b, set_date-year tm m a b)
