-- ===== src/History/Date/Calendar.antt =====
-- Which dates is_date_valid of date.re accepts.
use freebsd_pkg_plugins.Base.{
  ℕ, zero, suc, ◌+◌, ◌-◌, ◌%◌, ◌≡◌, ◌∙◌, ap, ◌<◌, refl, Bool, Bool-cases, true, false, not, ◌&&◌,
  ◌||◌, Option, none, some, ◌==◌, arith, if◌then◌else◌, ℤ, pos, negsuc, leb, ltb, inl, inr,
  get_elem?,
}
use freebsd_pkg_plugins.History.Date.{
  Tm, months, is_leap_year, components_valid, is_date_valid, outside,
}

-- The days of a month, counted from 0, in the Gregorian calendar.
abbrev pub calendar_days : (leap : Bool) → ℕ → ℕ
calendar_days leap mon = if mon == 1 then (if leap then 29 else 28) else 31 - mon % 7 % 2

abbrev pub day_exists : (leap : Bool) (day : ℕ) → ℤ → Bool
day_exists leap day (negsuc k) = false
day_exists leap day (pos mon) = ltb mon 12 && (leb 1 day && leb day (calendar_days leap mon))

-- the leap years of the Gregorian calendar
abbrev pub is_leap : ℕ → Bool
is_leap y = if y % 100 == 0 then y % 400 == 0 else y % 4 == 0

-- The day is one of the calendar, and the time at most 23:60:60.
abbrev pub date_exists : Tm → Bool
date_exists tm =
    (ltb tm.tm_hour 24 && ltb tm.tm_min 61 && ltb tm.tm_sec 61)
    && day_exists (is_leap (tm.tm_year + 1900)) tm.tm_mday tm.tm_mon

is_leap_year-is_leap : (y : ℕ) → is_leap_year y ≡ is_leap y
unfolding is_leap_year
is_leap_year-is_leap y = ground arith

components_valid-eq :
    (tm : Tm) → components_valid tm ≡ (ltb tm.tm_hour 24 && ltb tm.tm_min 61 && ltb tm.tm_sec 61)
unfolding components_valid
components_valid-eq tm = ground arith

months-calendar :
    (mon : ℕ)
    → mon < 12
    → get_elem? months mon ≡ some (calendar_days false mon, calendar_days true mon)
months-calendar zero h = refl
months-calendar (suc zero) h = refl
months-calendar (suc (suc zero)) h = refl
months-calendar (suc (suc (suc zero))) h = refl
months-calendar (suc (suc (suc (suc zero)))) h = refl
months-calendar (suc (suc (suc (suc (suc zero))))) h = refl
months-calendar (suc (suc (suc (suc (suc (suc zero)))))) h = refl
months-calendar (suc (suc (suc (suc (suc (suc (suc zero))))))) h = refl
months-calendar (suc (suc (suc (suc (suc (suc (suc (suc zero)))))))) h = refl
months-calendar (suc (suc (suc (suc (suc (suc (suc (suc (suc zero))))))))) h = refl
months-calendar (suc (suc (suc (suc (suc (suc (suc (suc (suc (suc zero)))))))))) h = refl
months-calendar (suc (suc (suc (suc (suc (suc (suc (suc (suc (suc (suc zero))))))))))) h = refl
months-calendar (suc (suc (suc (suc (suc (suc (suc (suc (suc (suc (suc (suc n)))))))))))) h =
    absurd (omega arith)

-- the days of the table, by the kind of year
abbrev pick_days : Bool → Option (ℕ × ℕ) → Option ℕ
pick_days leap none = none
pick_days leap (some days) = some (if leap then days.1 else days.0)

-- the test on the day
abbrev day_fits : ℕ → Option ℕ → Option Bool
day_fits day none = none
day_fits day (some days) = some (not (ltb day 1 || ltb days day))

day_fits-calendar :
    (leap : Bool) (day mon : ℕ)
    → mon < 12
    → day_fits day (pick_days leap (get_elem? months mon))
      ≡ some (leb 1 day && leb day (calendar_days leap mon))
day_fits-calendar true day mon h = rw (months-calendar mon h) (ground arith)
day_fits-calendar false day mon h = rw (months-calendar mon h) (ground arith)

-- is_date_valid accepts exactly the days of the Gregorian calendar, from 1900 on, with a time of 23:60:60
-- at most, and never reads past the table of the months.
pub is_date_valid-eq : (tm : Tm) → is_date_valid tm ≡ some (date_exists tm)
unfolding is_date_valid
is_date_valid-eq tm =
    at (components_valid tm) (is_leap_year (tm.tm_year + 1900)) tm.tm_mon
    ∙ ap some (λ t.
      components_valid-eq tm t
      && day_exists (is_leap_year-is_leap (tm.tm_year + 1900) t) tm.tm_mday tm.tm_mon)
  where
    fits :
        (leap : Bool) (m : ℕ)
        → ltb 11 m ≡ false
        → (if ltb 11 m
            then some false
            else some (
                not (
                  ltb tm.tm_mday 1
                  || ltb
                      (if leap then calendar_days true m else calendar_days false m)
                      tm.tm_mday)))
          ≡ some (ltb m 12 && (leb 1 tm.tm_mday && leb tm.tm_mday (calendar_days leap m)))
    fits true m small = ground arith
    fits false m small = ground arith

    at :
        (fine leap : Bool) (mon : ℤ)
        → (if not fine
            then some false
            else if outside mon
            then some false
            else elim (elim mon as (λ x. Option ℕ) [
              | negsuc k ↦ none
              | pos m ↦ elim (get_elem? months m) [
                | none ↦ none
                | some days ↦ some (if leap then days.1 else days.0)
              ]
            ]) [ none ↦ none | some days ↦ some (not (ltb tm.tm_mday 1 || ltb days tm.tm_mday)) ])
          ≡ some (fine && day_exists leap tm.tm_mday mon)
    at false leap mon = refl
    at true leap (negsuc k) = refl
    at true leap (pos m) = elim (Bool-cases (ltb 11 m)) [
      | inl big ↦ ground arith
      | inr small ↦ rw (months-calendar m (ground arith)) (fits leap m small)
    ]
