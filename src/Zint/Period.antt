-- ===== src/Zint/Period.antt =====
-- What `retention_parse` makes of a configured value.
use freebsd_pkg_plugins.Base.{
  ℕ, zero, suc, ◌+◌, ◌-◌, ◌*◌, ◌^◌, ◌%◌, ◌<◌, ◌≤◌, ◌≡◌, refl, ap, ◌∙◌, Bool, true, false, ◌&&◌,
  Option, none, some, List, [], ◌∷◌, arith, ◌⊎◌, inl, inr, if◌then◌else◌, word_size, Bool-cases,
  Option-cases, leb,
}
use native.Mathlib.Nat.{mod-eq_of_lt}
use freebsd_pkg_plugins.Zint.Retention.{
  disabled, by_count, by_creation, PkgObject, pkg_null, pkg_bool, pkg_int, pkg_string, pkg_other,
  Strtoll, ParseError, out_of_range, not_positive, unknown_unit, wrong_type, Parsed, RetentionUnit,
  retention_units, units_loop, parse_period, parse_string, retention_parse, failed, succeeded,
  skip_spaces, ℤ, pos, negsuc, is_positive, to_uint64, is_long_bound,
}
use freebsd_pkg_plugins.Zint.Units.{
  unit_of, unit_seconds-unit_of, unit_seconds, same_text-take, Measured, IsStrncasecmp, wrap_back,
}

-- an error that leaves the limit, or a retention that keeps something
abbrev pub IsSafe : ℕ → Parsed → Type 0
IsSafe limit r =
    ((e : ParseError) × (r ≡ failed e limit))
    ⊎ ((l : ℕ) × (r ≡ succeeded disabled l))
    ⊎ ((l : ℕ) × (0 < l) × (r ≡ succeeded by_count l))
    ⊎ ((l : ℕ) × (r ≡ succeeded by_creation l))

-- the time that many seconds before `now`; before the epoch, it wraps around
abbrev pub seconds_before : (now seconds : ℕ) → ℕ
seconds_before now seconds =
    if leb seconds now then now - seconds else (now + word_size - seconds % word_size) % word_size

seconds_before-eq :
    (now n unit : ℕ)
    → now < word_size
    → suc n < 2 ^ 63
    → (now + word_size - suc n % word_size * unit % word_size) % word_size
      ≡ seconds_before now (suc n * unit)
seconds_before-eq now n unit fits small =
    let whole : suc n % word_size ≡ suc n = mod-eq_of_lt (omega arith) in
    elim (Bool-cases (leb (suc n * unit) now)) [
      | inr past ↦ rw (past, whole) refl
      | inl within ↦
          let below : suc n * unit ≤ now = ground arith in
          let period : suc n * unit % word_size ≡ suc n * unit = mod-eq_of_lt (omega arith) in
          rw (within, whole, period) (wrap_back now (suc n * unit) below fits)
    ]

-- the branch of a period, by the unit found
found_unit :
    (now n limit : ℕ) (o : Option ℕ)
    → now < word_size
    → suc n < 2 ^ 63
    → (elim o as (λ x. Parsed) [
      | none ↦ failed unknown_unit limit
      | some unit ↦
          succeeded by_creation
            ((now + word_size - suc n % word_size * unit % word_size) % word_size)
    ])
      ≡ (elim o as (λ x. Parsed) [
        | none ↦ failed unknown_unit limit
        | some unit ↦ succeeded by_creation (seconds_before now (suc n * unit))
      ])
found_unit now n limit none fits small = refl
found_unit now n limit (some unit) fits small =
    ap (succeeded by_creation) (seconds_before-eq now n unit fits small)

module _ (strtoll : List ℕ → Strtoll) (equal_to : List ℕ → List ℕ → ℕ → Bool) (now : ℕ) where
  units_loop-eq :
      IsStrncasecmp equal_to
      → (p : List ℕ) (us : List RetentionUnit) → Measured us
      → units_loop strtoll equal_to now p us ≡ unit_seconds p us
  unfolding units_loop
  units_loop-eq law p [] m = refl
  units_loop-eq law p (u ∷ us) m =
      rw (law p u.name u.name_len, m.0, same_text-take p u.name, units_loop-eq law p us m.1) refl

  measured : Measured retention_units
  measured = ground arith

  parse_period-eq :
      IsStrncasecmp equal_to
      → (n : ℕ) (rest : List ℕ) (limit : ℕ) → now < word_size
      → suc n < 2 ^ 63
      → parse_period strtoll equal_to now (pos (suc n)) rest limit
        ≡ elim (unit_of (skip_spaces rest)) [
          | none ↦ failed unknown_unit limit
          | some unit ↦ succeeded by_creation (seconds_before now (suc n * unit))
        ]
  unfolding parse_period
  parse_period-eq law n rest limit fits past =
      let p = skip_spaces rest in
      rw (units_loop-eq law p retention_units measured, unit_seconds-unit_of p)
        (found_unit now n limit (unit_of p) fits past)

  -- Where strncasecmp compares as documented, the time is a word, and strtoll answers a positive
  -- `long long` in its range, with more text: the text is a period. Its spaces are skipped, and the rest
  -- has to be day, week, month or year, or the plural, in full and in any case. The limit is then the time that many
  -- seconds ago, modulo 2 ^ 64 where that is before the epoch; else the error is that the unit is
  -- unknown, and the limit stays.
  pub parse_string-period :
      IsStrncasecmp equal_to
      → (string : List ℕ) (n c : ℕ) (rest : List ℕ) (limit : ℕ)
      → (strtoll string).value ≡ pos (suc n)
      → (strtoll string).rest ≡ c ∷ rest
      → (strtoll string).erange ≡ false
      → now < word_size
      → suc n < 2 ^ 63
      → retention_parse strtoll equal_to now (pkg_string (some string)) limit
        ≡ elim (unit_of (skip_spaces (c ∷ rest))) [
          | none ↦ failed unknown_unit limit
          | some unit ↦ succeeded by_creation (seconds_before now (suc n * unit))
        ]
  unfolding retention_parse parse_string
  parse_string-period law string n c rest limit value more real fits past =
      rw (more, real)
        (ap (λ v. parse_period strtoll equal_to now v (c ∷ rest) limit) value
          ∙ parse_period-eq law n (c ∷ rest) limit fits past)

  parse_period-IsSafe :
      (value : ℤ) (rest : List ℕ) (limit : ℕ)
      → IsSafe limit (parse_period strtoll equal_to now value rest limit)
  unfolding parse_period
  parse_period-IsSafe value rest limit = elim (Bool-cases (is_positive value)) [
    | inr e ↦ rw e (inl (not_positive, refl))
    | inl e ↦
        elim (Option-cases (units_loop strtoll equal_to now (skip_spaces rest) retention_units)) [
          | inl missing ↦ rw (e, missing) (inl (unknown_unit, refl))
          | inr (unit, found) ↦ rw (e, found) (inr (inr (inr (_, refl))))
        ]
  ]

  whole_number-IsSafe :
      (value : ℤ) (limit : ℕ)
      → ((n : ℕ) → value ≡ pos n → n < 2 ^ 63)
      → IsSafe limit
          (succeeded (if is_positive value then by_count else disabled) (to_uint64 value))
  whole_number-IsSafe (pos zero) limit fits = inr (inl (_, refl))
  whole_number-IsSafe (pos (suc n)) limit fits =
      let small = fits (suc n) refl in inr (inr (inl (_, omega arith, refl)))
  whole_number-IsSafe (negsuc n) limit fits = inr (inl (_, refl))

  number-IsSafe :
      (value : ℤ) (rest : List ℕ) (limit : ℕ)
      → ((n : ℕ) → value ≡ pos n → n < 2 ^ 63)
      → IsSafe limit (elim rest as (λ x. Parsed) [
        | [] ↦ succeeded (if is_positive value then by_count else disabled) (to_uint64 value)
        | c ∷ more ↦ parse_period strtoll equal_to now value (c ∷ more) limit
      ])
  number-IsSafe value [] limit fits = whole_number-IsSafe value limit fits
  number-IsSafe value (c ∷ more) limit fits = parse_period-IsSafe value (c ∷ more) limit

  parse_string-IsSafe :
      ((string : List ℕ) (n : ℕ) → (strtoll string).value ≡ pos n → n < 2 ^ 63)
      → (string : List ℕ) (limit : ℕ)
      → IsSafe limit (parse_string strtoll equal_to now string limit)
  unfolding parse_string
  parse_string-IsSafe range string limit =
      let r = strtoll string in
      elim (Bool-cases (r.erange && is_long_bound r.value)) [
        | inl e ↦ rw e (inl (out_of_range, refl))
        | inr e ↦ rw e (number-IsSafe r.value r.rest limit (range string))
      ]

  -- Where the library's integers are those of a `long long`, the result is an error with the limit as
  -- it was, or the type is `disabled`, `by_creation`, or `by_count` with a limit of 1 at least.
  pub retention_parse-IsSafe :
      ((string : List ℕ) (n : ℕ) → (strtoll string).value ≡ pos n → n < 2 ^ 63)
      → (object : PkgObject) (limit : ℕ) → ((n : ℕ) → object ≡ pkg_int (pos n) → n < 2 ^ 63)
      → IsSafe limit (retention_parse strtoll equal_to now object limit)
  unfolding retention_parse
  retention_parse-IsSafe range pkg_null limit fits = inr (inl (_, refl))
  retention_parse-IsSafe range (pkg_bool true) limit fits = inl (wrong_type, refl)
  retention_parse-IsSafe range (pkg_bool false) limit fits = inr (inl (_, refl))
  retention_parse-IsSafe range (pkg_int (pos zero)) limit fits = inr (inl (_, refl))
  retention_parse-IsSafe range (pkg_int (pos (suc n))) limit fits =
      let small = fits (suc n) refl in inr (inr (inl (_, omega arith, refl)))
  retention_parse-IsSafe range (pkg_int (negsuc n)) limit fits = inr (inl (_, refl))
  retention_parse-IsSafe range (pkg_string none) limit fits = parse_string-IsSafe range [] limit
  retention_parse-IsSafe range (pkg_string (some s)) limit fits = parse_string-IsSafe range s limit
  retention_parse-IsSafe range pkg_other limit fits = inl (wrong_type, refl)
