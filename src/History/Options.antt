-- ===== src/History/Options.antt =====
-- The options of the command `history`, in pkg_history_main of plugin_history.c.
--
-- An option carries what strtoint32_t and parse_date answer for its argument, none where they refuse.
pub mod Asked
use freebsd_pkg_plugins.Base.{
  ℕ, zero, suc, ◌+◌, ◌*◌, ◌/◌, ◌%◌, ◌≡◌, refl, subst, sym, ap, ◌∙◌, Bool, Bool-cases, true, false,
  ◌||◌, Option, none, some, List, [], ◌∷◌, ◌==◌, if◌then◌else◌, inl, inr, arith,
}
use freebsd_pkg_plugins.History.{
  QueryOptions, HistoryStatement, stmt_search_line_exact, stmt_search_line_exact_ci,
  stmt_search_line_glob, op_install, op_deinstall, op_upgrade, op_all,
}

-- the values of getopt_long
pub data OptionChar : Type 0 where
  option_delete : OptionChar
  option_install : OptionChar
  option_upgrade : OptionChar
  option_case_sensitive : OptionChar
  option_glob : OptionChar
  option_origin : OptionChar
  option_limit : Option ℕ → OptionChar
  option_from : Option ℕ → OptionChar
  option_to : Option ℕ → OptionChar
  option_unknown : OptionChar

-- `operations |= op`, where `op` is one bit
unfoldable pub or_operation : ℕ → ℕ → ℕ
or_operation operations op = if operations / op % 2 == 0 then operations + op else operations

pub data Parsed : Type 0 where
  parsed_options : QueryOptions → Parsed
  usage_shown : Parsed
  invalid_argument : Parsed

-- One round of the loop.
unfoldable pub take_option : QueryOptions → OptionChar → Parsed
unfolding or_operation
take_option qo option_delete =
    parsed_options (record qo { operations = or_operation qo.operations op_deinstall })
take_option qo option_install =
    parsed_options (record qo { operations = or_operation qo.operations op_install })
take_option qo option_upgrade =
    parsed_options (record qo { operations = or_operation qo.operations op_upgrade })
take_option qo option_case_sensitive =
    parsed_options (record qo { statement = stmt_search_line_exact })
take_option qo option_glob = parsed_options (record qo { statement = stmt_search_line_glob })
take_option qo option_origin = parsed_options (record qo { use_origin = true })
take_option qo (option_limit (some n)) = parsed_options (record qo { limit = n })
take_option qo (option_limit none) = invalid_argument
take_option qo (option_from (some t)) = parsed_options (record qo { from = t })
take_option qo (option_from none) = invalid_argument
take_option qo (option_to (some t)) = parsed_options (record qo { to = t })
take_option qo (option_to none) = invalid_argument
take_option qo option_unknown = usage_shown

unfoldable pub options_loop : QueryOptions → List OptionChar → Parsed
unfolding take_option
options_loop qo [] = parsed_options qo
options_loop qo (c ∷ cs) = elim (take_option qo c) [
  | parsed_options qo' ↦ options_loop qo' cs
  | usage_shown ↦ usage_shown
  | invalid_argument ↦ invalid_argument
]

-- the test after the loop
abbrev pub all_if_none : QueryOptions → QueryOptions
all_if_none qo = record qo { operations = if qo.operations == 0 then op_all else qo.operations }

unfoldable pub parse_options : QueryOptions → List OptionChar → Parsed
unfolding options_loop
parse_options qo cs = elim (options_loop qo cs) [
  | parsed_options qo' ↦ parsed_options (all_if_none qo')
  | usage_shown ↦ usage_shown
  | invalid_argument ↦ invalid_argument
]
