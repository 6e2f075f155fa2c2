-- ===== src/History/Examples.antt =====
-- The theorems on the history at two jobs and at a few dates.
use freebsd_pkg_plugins.Base.{◌≡◌, refl, true, false, none, some, List, [], ◌∷◌, pos}
use freebsd_pkg_plugins.Sqlite.Binds.{
  statement_bind, statement_to_iterator, bound_int, bound_int64, bound_text, misread, misfit,
  column, type_int, type_time, type_string, int64_argument, int64_destination,
}
use freebsd_pkg_plugins.History.{
  QueryOptions, query_options_init, list_input, list_output, search_input, search_output,
  list_arguments, search_arguments, list_destinations, search_destinations, Job, Line, fetch_empty,
  fetch_error, Recording, handle_hooks, jobs_upgrade, operation_name, upgraded,
  stmt_search_line_exact_ci,
}
use freebsd_pkg_plugins.History.Options.{
  OptionChar, option_delete, option_glob, option_upgrade, option_case_sensitive, option_limit,
  parsed_options, parse_options,
}
use freebsd_pkg_plugins.History.Options.Asked.{requested, or_else, last_search, parse_options-asked}
use freebsd_pkg_plugins.History.Queries.{line_columns, queries-typed}
use freebsd_pkg_plugins.History.Recorded.{AllOrNothing, lines_of, handle_hooks-AllOrNothing}
use freebsd_pkg_plugins.History.Date.{
  Tm, is_date_valid, set_date, assign_date, date_set, no_month, no_year,
}
use freebsd_pkg_plugins.History.Date.Guess.{month_and_day, year_and_day, set_date-resolves}
use freebsd_pkg_plugins.History.Date.Calendar.{date_exists, is_date_valid-eq}

abbrev last_year : QueryOptions
last_year = record {
  limit = 10;
  statement = stmt_search_line_exact_ci;
  operations = 7;
  use_origin = true;
  from = 1000;
  to = 2000;
}

queries_test :
    (statement_bind 4 list_input (list_arguments last_year)
      ≡ some (
          (1, bound_int64 1000)
          ∷ (2, bound_int64 2000)
          ∷ (3, bound_int 7)
          ∷ (4, bound_int 10)
          ∷ []))
    × (statement_to_iterator list_output (list_destinations last_year)
        ≡ some (column type_int ∷ column type_time ∷ column type_string ∷ line_columns true))
    × (statement_bind 5 search_input (search_arguments last_year 5)
        ≡ some (
            (1, bound_text (some 5))
            ∷ (2, bound_int 7)
            ∷ (3, misread type_int (int64_argument 1000))
            ∷ (4, misread type_int (int64_argument 2000))
            ∷ (5, bound_int 10)
            ∷ []))
    × (statement_to_iterator search_output (search_destinations last_year)
        ≡ some (misfit type_int int64_destination ∷ column type_string ∷ line_columns true))
queries_test = queries-typed last_year 5

abbrev two_jobs : List Job
two_jobs =
    record { package_texts = 1; solved_install = true }
    ∷ record { package_texts = 2; solved_install = false }
    ∷ []

abbrev two_lines : List Line
two_lines =
    record { texts = 1; operation = 1; command_id = 9 }
    ∷ record { texts = 2; operation = 4; command_id = 9 }
    ∷ []

abbrev recorded : Recording
recorded = record { succeeded = true; committed = some two_lines }

recorded_test :
    handle_hooks (λ lines line. fetch_empty) true fetch_error 9 true jobs_upgrade two_jobs
    ≡ some recorded
unfolding handle_hooks
recorded_test = refl

recorded_example : AllOrNothing (lines_of jobs_upgrade 9 two_jobs) recorded
recorded_example =
    handle_hooks-AllOrNothing (λ lines line. fetch_empty) true fetch_error 9 true jobs_upgrade
      two_jobs recorded recorded_test

operation_name_test : operation_name 4 ≡ upgraded
unfolding operation_name
operation_name_test = refl

abbrev now : Tm
now = record { tm_sec = 0; tm_min = 0; tm_hour = 0; tm_mday = 15; tm_mon = pos 5; tm_year = 117 }

-- 29 february 2000, and that of 2100
valid_test : is_date_valid (assign_date now (pos 2000) 2 29) ≡ some true
unfolding is_date_valid assign_date
valid_test = refl

invalid_test : is_date_valid (assign_date now (pos 2100) 2 29) ≡ some false
unfolding is_date_valid assign_date
invalid_test = refl

valid_example : is_date_valid now ≡ some (date_exists now)
valid_example = is_date_valid-eq now

resolves_example :
    (set_date now (some (pos 2016)) none none (12 ∷ 25 ∷ []) ≡ elim (month_and_day 12 25) [
      | none ↦ no_month
      | some r ↦ date_set (assign_date now (pos 2016) r.0 r.1)
    ])
    × (set_date now none (some 3) none (12 ∷ 25 ∷ []) ≡ elim (year_and_day 12 25) [
      | none ↦ no_year
      | some r ↦ date_set (assign_date now (pos r.0) 3 r.1)
    ])
resolves_example = set_date-resolves now (pos 2016) 3 12 25

abbrev command_options : List OptionChar
command_options =
    option_delete
    ∷ option_glob
    ∷ option_upgrade
    ∷ option_case_sensitive
    ∷ option_delete
    ∷ option_limit (some 5)
    ∷ []

requested_test : requested command_options ≡ 6
requested_test = refl

options_example :
    (q : QueryOptions) × (parse_options (query_options_init 1000) command_options
      ≡ parsed_options q)
    × (q.operations ≡ requested command_options)
    × (q.statement ≡ or_else stmt_search_line_exact_ci (last_search command_options))
options_example = parse_options-asked 1000 command_options refl
