-- ===== src/History/Queries.antt =====
-- Whether the statements of plugin_history.c and the arguments of their callers have the same types.
use freebsd_pkg_plugins.Base.{ℕ, ◌≡◌, refl, Bool, true, false, some, List, [], ◌∷◌}
use freebsd_pkg_plugins.Sqlite.Binds.{
  type_int, type_time, type_string, type_ignore, bound_int, bound_int64, bound_text, misread,
  int64_argument, int64_destination, Column, column, misfit, statement_bind, statement_to_iterator,
}
use freebsd_pkg_plugins.History.{
  QueryOptions, list_input, list_output, search_input, search_output, list_arguments,
  search_arguments, list_destinations, search_destinations,
}

-- one of the name and the origin, and the four columns behind them
abbrev pub line_columns : (use_origin : Bool) → List Column
line_columns true =
    column type_ignore
    ∷ column type_string
    ∷ column type_string
    ∷ column type_string
    ∷ column type_string
    ∷ column type_int
    ∷ []
line_columns false =
    column type_string
    ∷ column type_ignore
    ∷ column type_string
    ∷ column type_string
    ∷ column type_string
    ∷ column type_int
    ∷ []

list_output-fits :
    (qo : QueryOptions) (b : Bool)
    → statement_to_iterator list_output (list_destinations (record qo { use_origin = b }))
      ≡ some (column type_int ∷ column type_time ∷ column type_string ∷ line_columns b)
unfolding statement_to_iterator
list_output-fits qo true = refl
list_output-fits qo false = refl

search_output-misfits :
    (qo : QueryOptions) (b : Bool)
    → statement_to_iterator search_output (search_destinations (record qo { use_origin = b }))
      ≡ some (misfit type_int int64_destination ∷ column type_string ∷ line_columns b)
unfolding statement_to_iterator
search_output-misfits qo true = refl
search_output-misfits qo false = refl

-- Listing the history is well typed for all options: both limits in time, the operations and the
-- limit are bound to the parameters 1 to 4, and each of the nine columns fits its variable. Searching
-- it never is: of the five parameters the two limits in time, of 64 bits, are read as `int`, and of the
-- eight columns the first, the time, is taken as an `int` for a `time_t`; all others fit.
pub queries-typed :
    (qo : QueryOptions) (searched : ℕ)
    → (statement_bind 4 list_input (list_arguments qo)
        ≡ some (
            (1, bound_int64 qo.from)
            ∷ (2, bound_int64 qo.to)
            ∷ (3, bound_int qo.operations)
            ∷ (4, bound_int qo.limit)
            ∷ []))
      × (statement_to_iterator list_output (list_destinations qo)
          ≡ some (
              column type_int ∷ column type_time ∷ column type_string ∷ line_columns qo.use_origin))
      × (statement_bind 5 search_input (search_arguments qo searched)
          ≡ some (
              (1, bound_text (some searched))
              ∷ (2, bound_int qo.operations)
              ∷ (3, misread type_int (int64_argument qo.from))
              ∷ (4, misread type_int (int64_argument qo.to))
              ∷ (5, bound_int qo.limit)
              ∷ []))
      × (statement_to_iterator search_output (search_destinations qo)
          ≡ some
              (misfit type_int int64_destination ∷ column type_string ∷ line_columns qo.use_origin))
unfolding statement_bind statement_to_iterator
queries-typed qo searched =
    (refl, list_output-fits qo qo.use_origin, refl, search_output-misfits qo qo.use_origin)
