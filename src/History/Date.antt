-- ===== src/History/Date.antt =====
-- The dates that plugins/history takes from the command line: the functions of date.re, which
-- date_scanner.gen.c holds as they are, around the automaton that re2c makes.
--
-- The scanner hands on numbers without a sign, so that the fields of `struct tm` but the month are
-- natural numbers; the years of `now` are from 1900 on.
pub mod Calendar
pub mod Guess
use freebsd_pkg_plugins.Base.{
  ℕ, zero, suc, ◌+◌, ◌-◌, ◌%◌, Bool, true, false, not, ◌&&◌, ◌||◌, Option, none, some, List, [],
  ◌∷◌, ◌==◌, ltb, leb, if◌then◌else◌, length, get_elem?, ℤ, pos, negsuc,
}

-- the fields of `struct tm` that the functions use
pub record Tm : Type 0 where
  pub tm_sec : ℕ
  pub tm_min : ℕ
  pub tm_hour : ℕ
  pub tm_mday : ℕ
  pub tm_mon : ℤ
  pub tm_year : ℕ

-- days_regular_year and days_leap_year of the table `months`
abbrev pub months : List (ℕ × ℕ)
months =
    (31, 31)
    ∷ (28, 29)
    ∷ (31, 31)
    ∷ (30, 30)
    ∷ (31, 31)
    ∷ (30, 30)
    ∷ (31, 31)
    ∷ (31, 31)
    ∷ (30, 30)
    ∷ (31, 31)
    ∷ (30, 30)
    ∷ (31, 31)
    ∷ []

unfoldable pub is_leap_year : ℕ → Bool
is_leap_year y = y % 4 == 0 && not (y % 100 == 0) || y % 400 == 0

-- `none` where the table is read out of its bounds
unfoldable pub days_in_month : Tm → Option ℕ
unfolding is_leap_year
days_in_month tm = elim tm.tm_mon [
  | negsuc k ↦ none
  | pos mon ↦ elim (get_elem? months mon) [
    | none ↦ none
    | some days ↦ some (if is_leap_year (tm.tm_year + 1900) then days.1 else days.0)
  ]
]

-- the loop over `components`
unfoldable pub components_valid : Tm → Bool
components_valid tm = leb tm.tm_sec 60 && leb tm.tm_min 60 && leb tm.tm_hour 23

abbrev pub outside : ℤ → Bool
outside (negsuc k) = true
outside (pos mon) = ltb 11 mon

unfoldable pub is_date_valid : Tm → Option Bool
unfolding components_valid days_in_month
is_date_valid tm =
    if not (components_valid tm)
    then some false
    else if outside tm.tm_mon
    then some false
    else elim (days_in_month tm) [
      | none ↦ none
      | some days ↦ some (not (ltb tm.tm_mday 1 || ltb days tm.tm_mday))
    ]

unfoldable pub is_year : ℕ → Bool
is_year y = ltb y 1 || ltb 31 y

unfoldable pub is_month : ℕ → Bool
is_month m = leb 1 m && leb m 12

abbrev pub last_of : ℕ → List ℕ → ℕ
last_of x [] = x
last_of x (y ∷ ys) = last_of y ys

abbrev pub all_but_last : ℕ → List ℕ → List ℕ
all_but_last x [] = []
all_but_last x (y ∷ ys) = x ∷ all_but_last y ys

-- The data of the match, and the list without it.
unfoldable pub guess_year : List ℕ → Option (ℕ × List ℕ)
unfolding is_year
guess_year [] = none
guess_year (x ∷ []) = if is_year x then some (x, []) else none
guess_year (x ∷ y ∷ ys) =
    let tail = last_of y ys in
    let by_head = is_year x in
    let by_tail = x == tail || is_year tail in
    if by_head && not by_tail
    then some (x, y ∷ ys)
    else if by_tail && not by_head
    then some (tail, all_but_last x (y ∷ ys))
    else none

-- the test in the loop of guess_month, on the match so far
abbrev pub matches_month : Option ℕ → ℕ → Bool
matches_month none el = is_month el
matches_month (some m) el = not (m == el) && is_month el

-- The loop: the number of matches, and the last one with the list without it, where there is one.
unfoldable pub month_loop : Option ℕ → List ℕ → ℕ × Option (ℕ × List ℕ)
unfolding is_month
month_loop match [] = (0, none)
month_loop match (el ∷ els) =
    let hit = matches_month match el in
    let (count, found) = month_loop (if hit then some el else match) els in
    elim found [
      | some (m, rest) ↦ (if hit then count + 1 else count, some (m, el ∷ rest))
      | none ↦ if hit then (count + 1, some (el, els)) else (count, none)
    ]

unfoldable pub guess_month : List ℕ → Option (ℕ × List ℕ)
unfolding month_loop
guess_month unidentified =
    let (count, found) = month_loop none unidentified in if count == 1 then found else none

pub data DateSet : Type 0 where
  date_set : Tm → DateSet
  no_year : DateSet
  no_month : DateSet
  failed_assertion : DateSet

-- `y` is -1 where the text has no year
unfoldable pub assign_date : Tm → ℤ → (m d : ℕ) → Tm
assign_date tm y m d = record tm {
  tm_year = elim y [ negsuc k ↦ tm.tm_year | pos n ↦ if leb 1900 n then n - 1900 else n ];
  tm_mon = if m == 0 then negsuc 0 else pos (m - 1);
  tm_mday = d;
}

-- the end: the day is given, or the only element left
unfoldable pub set_day : Tm → ℤ → ℕ → Option ℕ → List ℕ → DateSet
unfolding assign_date
set_day tm y m (some d) unidentified = date_set (assign_date tm y m d)
set_day tm y m none [] = failed_assertion
set_day tm y m none (d ∷ []) = date_set (assign_date tm y m d)
set_day tm y m none (d ∷ e ∷ es) = failed_assertion

unfoldable pub set_month : Tm → ℤ → Option ℕ → Option ℕ → List ℕ → DateSet
unfolding guess_month set_day
set_month tm y (some m) d unidentified = set_day tm y m d unidentified
set_month tm y none d unidentified = elim (guess_month unidentified) [
  | none ↦ no_month
  | some r ↦ set_day tm y r.0 d r.1
]

-- A pointer that is NULL is `none`; `unidentified` holds n1, n2 and n3 as far as they are not NULL.
unfoldable pub set_date : Tm → (y : Option ℤ) (m d : Option ℕ) (unidentified : List ℕ) → DateSet
unfolding guess_year set_month
set_date tm (some y) m d unidentified = set_month tm y m d unidentified
set_date tm none m d unidentified = elim (guess_year unidentified) [
  | none ↦ no_year
  | some r ↦ set_month tm (pos r.0) m d r.1
]

-- `now` is what time and gmtime answer, if they do, and `yylex` what the scanner leaves, none where it
-- refuses; the outer option is none where a table is read out of its bounds.
unfoldable pub parse_date :
    (now : Option Tm) (yylex : Tm → Option Tm) (timegm : Tm → ℕ) → Option (Option ℕ)
unfolding is_date_valid
parse_date none yylex timegm = some none
parse_date (some now) yylex timegm =
    elim (yylex (record now { tm_sec = 0; tm_min = 0; tm_hour = 0 })) [
      | none ↦ some none
      | some tm ↦ elim (is_date_valid tm) [
        | none ↦ none
        | some valid ↦ some (if valid then some (timegm tm) else none)
      ]
    ]
