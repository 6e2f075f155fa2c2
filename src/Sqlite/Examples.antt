-- ===== src/Sqlite/Examples.antt =====
-- The theorems on the wrapper of sqlite3 at three statements, and at a missing file.
use freebsd_pkg_plugins.Base.{
  ℕ, ◌+◌, ◌≡◌, ◌⊎◌, refl, true, false, Option, none, some, List, [], ◌∷◌, ◌==◌, pos, if◌then◌else◌,
  codes, length,
}
use freebsd_pkg_plugins.Sqlite.{
  Statement, sqlite_stmt_prepare, stat_missing, sqlite_open, sqlite_create_or_migrate, step_failed,
}
use freebsd_pkg_plugins.Sqlite.Prepared.{
  AllPrepared, NonePrepared, opened_handles, backwards, sqlite_stmt_prepare-all_or_none,
}
use freebsd_pkg_plugins.Sqlite.Binds.{
  statement_to_iterator, int64_destination, misfit, type_int, bound_text, bound_int, bound_int64,
  statement_bind, Argument, int_argument, int64_argument, string_argument,
}
use freebsd_pkg_plugins.Sqlite.Typed.{clean, asked_from, statement_bind-asked}
use freebsd_pkg_plugins.Sqlite.Opened.{IsAllowed, sqlite_open-IsAllowed}

-- the third text is refused
abbrev prepare_at : ℕ → Option ℕ
prepare_at text = if text == 3 then none else some (text + 10)

abbrev new_statement : ℕ → Statement
new_statement text = record {
  statement = text;
  input_binds = [];
  output_binds = [];
  prepared = none;
}

abbrev three_statements : List Statement
three_statements = new_statement 1 ∷ new_statement 2 ∷ new_statement 3 ∷ []

prepare_test :
    sqlite_stmt_prepare prepare_at three_statements ≡ (false, three_statements, 12 ∷ 11 ∷ [])
unfolding sqlite_stmt_prepare
prepare_test = refl

prepare_example :
    ((sqlite_stmt_prepare prepare_at three_statements).0 ≡ true)
      × AllPrepared prepare_at (sqlite_stmt_prepare prepare_at three_statements).1
      × ((sqlite_stmt_prepare prepare_at three_statements).2 ≡ [])
    ⊎ ((sqlite_stmt_prepare prepare_at three_statements).0 ≡ false)
      × NonePrepared (sqlite_stmt_prepare prepare_at three_statements).1
      × ((sqlite_stmt_prepare prepare_at three_statements).2
          ≡ backwards (opened_handles prepare_at three_statements))
prepare_example =
    sqlite_stmt_prepare-all_or_none prepare_at three_statements (refl, (refl, (refl, tt)))

open_example :
    IsAllowed stat_missing true false
      (sqlite_open stat_missing true false true (λ f. true) true (some (pos 2)))
open_example = sqlite_open-IsAllowed false true (λ f. true) true (some (pos 2)) stat_missing true

-- the type of a column of 64 bits is that of an `int`
int64_test :
    statement_to_iterator (codes "I") (int64_destination ∷ [])
    ≡ some (misfit type_int int64_destination ∷ [])
unfolding statement_to_iterator
int64_test = refl

-- a step that fails is reported as a success, with nothing created
migrate_test : sqlite_create_or_migrate (λ log s. true) (pos 0) (some step_failed) 1 [] ≡ (true, [])
unfolding sqlite_create_or_migrate
migrate_test = refl

-- a text and an `int`, and a limit in time that comes where the letter asks for an `int`
abbrev three_arguments : List Argument
three_arguments = string_argument (some 4) ∷ int_argument 7 ∷ int64_argument 1000 ∷ []

bind_example :
    clean (statement_bind 3 (codes "sit") three_arguments)
    ≡ (if length (codes "sit") == 3 then asked_from 1 (codes "sit") three_arguments else none)
bind_example = statement_bind-asked 3 (codes "sit") three_arguments

-- only the format string with a `t` at that place reads all of them
bind_test :
    (clean (statement_bind 3 (codes "sii") three_arguments) ≡ none)
    × (statement_bind 3 (codes "sit") three_arguments
        ≡ some ((1, bound_text (some 4)) ∷ (2, bound_int 7) ∷ (3, bound_int64 1000) ∷ []))
    × (statement_bind 4 (codes "sit") three_arguments ≡ none)
unfolding statement_bind clean
bind_test = (refl, refl, refl)
