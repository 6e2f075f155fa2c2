-- ===== src/Zint/Retention.antt =====
-- The retention of plugins/zfs_integration/retention.c, and the order of snapshots of
-- plugins/zfs_integration/snapshot.c.
--
-- A text is the list of its bytes, without the NUL that ends it. The calls of the C library and of
-- pkg are parameters.
pub use freebsd_pkg_plugins.Base.{ℤ, pos, negsuc}
use freebsd_pkg_plugins.Base.{
  ℕ, zero, suc, ◌+◌, ◌-◌, ◌*◌, ◌%◌, ◌^◌, Bool, true, false, not, ◌&&◌, Option, none, some, List, [],
  ◌∷◌, ◌==◌, ltb, leb, if◌then◌else◌, is_some, get_elem?, word_size,
}

-- the conversion to a `uint64_t`
abbrev pub to_uint64 : ℤ → ℕ
to_uint64 (pos n) = n % word_size
to_uint64 (negsuc n) = (word_size - 1 - n % word_size) % word_size

abbrev pub is_positive : ℤ → Bool
is_positive (pos zero) = false
is_positive (pos (suc n)) = true
is_positive (negsuc n) = false

-- LONG_MAX and LONG_MIN
abbrev pub is_long_bound : ℤ → Bool
is_long_bound (pos n) = n == 2 ^ 63 - 1
is_long_bound (negsuc n) = n == 2 ^ 63 - 1

pub data RetentionType : Type 0 where
  disabled : RetentionType
  by_count : RetentionType
  by_creation : RetentionType

-- The answer is kept with the state afterwards.
unfoldable pub retention_disabled_keep : (value limit state : ℕ) → Bool × ℕ
retention_disabled_keep value limit state = (true, state)

unfoldable pub retention_by_count_keep : (value limit state : ℕ) → Bool × ℕ
retention_by_count_keep value limit state =
    let keep = ltb state limit in (keep, if keep then (state + 1) % word_size else state)

unfoldable pub retention_by_creation_keep : (value limit state : ℕ) → Bool × ℕ
retention_by_creation_keep value limit state = (leb limit value, state)

-- `kinds[type].callback`
unfoldable pub callback_of : RetentionType → (value limit state : ℕ) → Bool × ℕ
unfolding retention_disabled_keep retention_by_count_keep retention_by_creation_keep
callback_of disabled = retention_disabled_keep
callback_of by_count = retention_by_count_keep
callback_of by_creation = retention_by_creation_keep

pub record FilterCallbackData : Type 0 where
  pub retention : RetentionType
  pub limit : ℕ
  pub state : ℕ

pub record Snapshot : Type 0 where
  pub name : List ℕ
  pub creation : ℕ
  pub hook : ℤ
  pub version : ℕ

unfoldable pub retention_filter_callback : Snapshot → FilterCallbackData → Bool × FilterCallbackData
unfolding callback_of
retention_filter_callback snap fcd =
    let (keep, state) = callback_of fcd.retention snap.creation fcd.limit fcd.state in
    (keep, record fcd { state = state })

unfoldable pub retention_filter_callback_data_create : RetentionType → ℕ → FilterCallbackData
retention_filter_callback_data_create retention limit = record {
  retention = retention;
  limit = limit;
  state = 0;
}

unfoldable pub retention_filter_callback_data_reset : FilterCallbackData → FilterCallbackData
retention_filter_callback_data_reset fcd = record fcd { state = 0 }

-- The difference of two `uint64_t` is cut to an `int`.
abbrev pub int_size : ℕ
int_size = 2 ^ 32

abbrev pub to_int : ℕ → ℤ
to_int n =
    let low = n % int_size in if ltb low (2 ^ 31) then pos low else negsuc (int_size - 1 - low)

unfoldable pub snapshot_compare_by_creation_date_desc : Snapshot → Snapshot → ℤ
snapshot_compare_by_creation_date_desc sa sb =
    if leb sa.creation sb.creation then to_int (sb.creation - sa.creation) else negsuc 0

pub data PkgObject : Type 0 where
  pkg_null : PkgObject
  pkg_bool : Bool → PkgObject
  pkg_int : ℤ → PkgObject
  pkg_string : Option (List ℕ) → PkgObject
  pkg_other : PkgObject

-- what `strtoll` leaves: its value, the text from `endptr`, whether `errno` is ERANGE
pub record Strtoll : Type 0 where
  pub value : ℤ
  pub rest : List ℕ
  pub erange : Bool

pub data ParseError : Type 0 where
  out_of_range : ParseError
  not_positive : ParseError
  unknown_unit : ParseError
  wrong_type : ParseError

-- What `retention_parse` leaves: the error or the type, and `*limit`.
pub record Parsed : Type 0 where
  pub retention : Option RetentionType
  pub error : Option ParseError
  pub limit : ℕ

pub record RetentionUnit : Type 0 where
  pub name : List ℕ
  pub name_len : ℕ
  pub value : ℕ

abbrev pub day_seconds : ℕ
day_seconds = 24 * (60 * 60)

abbrev pub retention_units : List RetentionUnit
retention_units =
    record { name = 100 ∷ 97 ∷ 121 ∷ 115 ∷ []; name_len = 4; value = day_seconds }
    ∷ record { name = 100 ∷ 97 ∷ 121 ∷ []; name_len = 3; value = day_seconds }
    ∷ record { name = 119 ∷ 101 ∷ 101 ∷ 107 ∷ 115 ∷ []; name_len = 5; value = 7 * day_seconds }
    ∷ record { name = 119 ∷ 101 ∷ 101 ∷ 107 ∷ []; name_len = 4; value = 7 * day_seconds }
    ∷ record {
      name = 109 ∷ 111 ∷ 110 ∷ 116 ∷ 104 ∷ 115 ∷ [];
      name_len = 6;
      value = 30 * day_seconds;
    }
    ∷ record { name = 109 ∷ 111 ∷ 110 ∷ 116 ∷ 104 ∷ []; name_len = 5; value = 30 * day_seconds }
    ∷ record { name = 121 ∷ 101 ∷ 97 ∷ 114 ∷ 115 ∷ []; name_len = 5; value = 365 * day_seconds }
    ∷ record { name = 121 ∷ 101 ∷ 97 ∷ 114 ∷ []; name_len = 4; value = 365 * day_seconds }
    ∷ []

-- the loop over the spaces after the number
unfoldable pub skip_spaces : List ℕ → List ℕ
skip_spaces [] = []
skip_spaces (c ∷ p) = if c == 32 then skip_spaces p else c ∷ p

unfoldable pub failed : ParseError → ℕ → Parsed
failed e limit = record { retention = none; error = some e; limit = limit }

unfoldable pub succeeded : RetentionType → ℕ → Parsed
succeeded r limit = record { retention = some r; error = none; limit = limit }

-- `equal_to` tells whether `strncasecmp` answers 0; `now` is what `time` answers.
module _ (strtoll : List ℕ → Strtoll) (equal_to : List ℕ → List ℕ → ℕ → Bool) (now : ℕ) where
  -- the loop over the units: the seconds of the first that `p` names, case and all the text counted
  unfoldable pub units_loop : List ℕ → List RetentionUnit → Option ℕ
  units_loop p [] = none
  units_loop p (u ∷ us) =
      if equal_to p u.name u.name_len && not (is_some (get_elem? p u.name_len))
      then some u.value
      else units_loop p us

  -- the branch on a number with more text
  unfoldable pub parse_period : ℤ → List ℕ → ℕ → Parsed
  unfolding units_loop skip_spaces failed succeeded
  parse_period value rest limit =
      if not (is_positive value)
      then failed not_positive limit
      else elim (units_loop (skip_spaces rest) retention_units) [
        | none ↦ failed unknown_unit limit
        | some unit ↦
            succeeded by_creation
              ((now + word_size - to_uint64 value * unit % word_size) % word_size)
      ]

  unfoldable pub parse_string : List ℕ → ℕ → Parsed
  unfolding parse_period
  parse_string string limit =
      let r = strtoll string in
      if r.erange && is_long_bound r.value then failed out_of_range limit else elim r.rest [
        | [] ↦ succeeded (if is_positive r.value then by_count else disabled) (to_uint64 r.value)
        | c ∷ rest ↦ parse_period r.value (c ∷ rest) limit
      ]

  unfoldable pub retention_parse : PkgObject → (limit : ℕ) → Parsed
  unfolding parse_string
  retention_parse pkg_null limit = succeeded disabled limit
  retention_parse (pkg_bool b) limit =
      if b then failed wrong_type limit else succeeded disabled limit
  retention_parse (pkg_int n) limit =
      if is_positive n then succeeded by_count (to_uint64 n) else succeeded disabled limit
  retention_parse (pkg_string none) limit = parse_string [] limit
  retention_parse (pkg_string (some s)) limit = parse_string s limit
  retention_parse pkg_other limit = failed wrong_type limit
