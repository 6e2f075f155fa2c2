-- ===== src/Sqlite/Binds.antt =====
-- How sqlite/sqlite.c passes values to a statement and takes them from a row.
--
-- A variadic argument has the type that its caller gives it; `time_t` and `int64_t` are one type.
-- An argument that is read as another
-- type, or a column that does not fit its variable, is named in the result; a failing assertion is
-- `none`.
use freebsd_pkg_plugins.Base.{
  length, ℕ, ◌+◌, Bool, true, false, Option, none, some, List, [], ◌∷◌, ◌==◌, if◌then◌else◌,
}
use mathlib.Core.Option

-- `sqlite_bind_type_t`
pub data BindType : Type 0 where
  type_bool : BindType
  type_int : BindType
  type_int64 : BindType
  type_time : BindType
  type_string : BindType
  type_ignore : BindType

-- the table `sqlite_type_callbacks2`, by a byte
unfoldable pub bind_type_of : ℕ → Option BindType
bind_type_of c =
    if c == 98
    then some type_bool
    else if c == 105
    then some type_int
    else if c == 73
    then some type_int64
    else if c == 116
    then some type_time
    else if c == 115
    then some type_string
    else if c == 45
    then some type_ignore
    else none

-- an argument of statement_bind; a text is a number
pub data Argument : Type 0 where
  int_argument : ℕ → Argument
  int64_argument : ℕ → Argument
  string_argument : Option ℕ → Argument

-- what sqlite3_bind_* is called with
pub data Bound : Type 0 where
  bound_int : ℕ → Bound
  bound_int64 : ℕ → Bound
  bound_text : Option ℕ → Bound
  misread : BindType → Argument → Bound

-- `set_input_bind`, NULL for the type that is ignored
unfoldable pub input_bind : BindType → Argument → Option Bound
input_bind type_ignore a = none
input_bind type_bool (int_argument n) = some (bound_int n)
input_bind type_int (int_argument n) = some (bound_int n)
input_bind type_int64 (int64_argument n) = some (bound_int64 n)
input_bind type_time (int64_argument n) = some (bound_int64 n)
input_bind type_string (string_argument s) = some (bound_text s)
input_bind t a = some (misread t a)

-- The parameters from this number on. A list of arguments that is too short is `none` too.
unfoldable pub bind_loop : (n : ℕ) → List ℕ → List Argument → Option (List (ℕ × Bound))
unfolding bind_type_of input_bind
bind_loop n [] args = some []
bind_loop n (c ∷ binds) [] = none
bind_loop n (c ∷ binds) (a ∷ args) =
    let rest = bind_loop (n + 1) binds args in
    elim (bind_type_of c) [
      | none ↦ none
      | some t ↦ elim (input_bind t a) [
        | none ↦ none
        | some b ↦ Option.map (λ bs. (n, b) ∷ bs) rest
      ]
    ]

-- sqlite3_reset and sqlite3_clear_bindings come before; `parameters` is what
-- sqlite3_bind_parameter_count answers.
unfoldable pub statement_bind :
    (parameters : ℕ) (input_binds : List ℕ) → List Argument → Option (List (ℕ × Bound))
unfolding bind_loop
statement_bind parameters input_binds args =
    let bound = bind_loop 1 input_binds args in
    if length input_binds == parameters then bound else none

-- what a pointer for a column points to
pub data Destination : Type 0 where
  no_destination : Destination
  bool_destination : Destination
  int_destination : Destination
  int64_destination : Destination
  string_destination : Destination

-- `bind_type` of the table `sqlite_type_callbacks`: that of SQLITE_TYPE_INT64 is SQLITE_TYPE_INT
unfoldable pub bind_type : BindType → BindType
bind_type type_bool = type_bool
bind_type type_int = type_int
bind_type type_int64 = type_int
bind_type type_time = type_time
bind_type type_string = type_string
bind_type type_ignore = type_ignore

-- the destination that `set_output_bind` of this type writes
unfoldable pub writes_to : BindType → Destination → Bool
writes_to type_bool bool_destination = true
writes_to type_int int_destination = true
writes_to type_int64 int64_destination = true
writes_to type_time int64_destination = true
writes_to type_string string_destination = true
writes_to type_ignore d = true
writes_to _ _ = false

-- an output bind, and whether its type fits the destination
pub data Column : Type 0 where
  column : BindType → Column
  misfit : BindType → Destination → Column

-- an output bind of statement_to_iterator
unfoldable pub output_bind : BindType → Destination → Column
unfolding bind_type writes_to
output_bind t no_destination = column type_ignore
output_bind t d = if writes_to (bind_type t) d then column (bind_type t) else misfit (bind_type t) d

-- A list of destinations that is too short is `none` too.
unfoldable pub statement_to_iterator : List ℕ → List Destination → Option (List Column)
unfolding bind_type_of output_bind
statement_to_iterator [] ds = some []
statement_to_iterator (c ∷ binds) [] = none
statement_to_iterator (c ∷ binds) (d ∷ ds) =
    let rest = statement_to_iterator binds ds in
    elim (bind_type_of c) [ none ↦ none | some t ↦ Option.map (λ os. output_bind t d ∷ os) rest ]
