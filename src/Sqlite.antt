-- ===== src/Sqlite.antt =====
-- The wrapper of sqlite3 in sqlite/sqlite.c.
--
-- The functions of sqlite3 are arguments. A text of SQL and a prepared statement are numbers.
pub mod Prepared
pub mod Opened
pub mod Binds
mod Typed
mod Examples
use freebsd_pkg_plugins.Base.{
  below, ℕ, zero, suc, ◌+◌, Bool, true, false, not, ◌&&◌, Option, none, some, List, [], ◌∷◌, ◌++◌,
  ltb, ℤ, pos, negsuc, if◌then◌else◌,
}

-- `sqlite_statement_t`
pub record Statement : Type 0 where
  pub statement : ℕ
  pub input_binds : List ℕ
  pub output_binds : List ℕ
  pub prepared : Option ℕ

module _ (prepare_v2 : ℕ → Option ℕ) where
  -- The loop of sqlite_stmt_prepare: whether all are prepared, how many were before the failing one,
  -- and the statements. Where sqlite3_prepare_v2 fails it sets the pointer to NULL.
  unfoldable pub prepare_loop : List Statement → Bool × ℕ × List Statement
  prepare_loop [] = (true, 0, [])
  prepare_loop (s ∷ ss) = elim (prepare_v2 s.statement) [
    | none ↦ (false, 0, record s { prepared = none } ∷ ss)
    | some h ↦
        let (ok, i, rest) = prepare_loop ss in (ok, suc i, record s { prepared = some h } ∷ rest)
  ]

abbrev pub handle_of : Option ℕ → List ℕ
handle_of none = []
handle_of (some h) = h ∷ []

-- `while (i-- != 0)`: the statements, and those finalized, in the order of the calls
unfoldable pub unprepare_loop : ℕ → List Statement → List Statement × List ℕ
unprepare_loop zero ss = (ss, [])
unprepare_loop (suc i) [] = ([], [])
unprepare_loop (suc i) (s ∷ ss) =
    let (rest, finalized) = unprepare_loop i ss in
    (record s { prepared = none } ∷ rest, finalized ++ handle_of s.prepared)

-- Whether it succeeded, the statements, and those finalized.
unfoldable pub sqlite_stmt_prepare :
    (prepare_v2 : ℕ → Option ℕ) → List Statement → Bool × List Statement × List ℕ
unfolding prepare_loop unprepare_loop
sqlite_stmt_prepare prepare_v2 statements =
    let (ok, i, ss) = prepare_loop prepare_v2 statements in
    let (ss', finalized) = unprepare_loop i ss in
    if ok then (true, ss, []) else (false, ss', finalized)

-- the handles that are finalized, in order
unfoldable pub sqlite_stmt_finalize : List Statement → List ℕ
sqlite_stmt_finalize [] = []
sqlite_stmt_finalize (s ∷ ss) = handle_of s.prepared ++ sqlite_stmt_finalize ss

pub data StepResult : Type 0 where
  step_row : StepResult
  step_done : StepResult
  step_failed : StepResult

-- Versions are signed numbers of 64 bits.
pub record Migration : Type 0 where
  pub version : ℤ
  pub statement : ℕ

-- `exec` is whether sqlite3_exec is SQLITE_OK, by the statements that ran before, the newest first.
module _ (exec : List ℕ → ℕ → Bool) where
  -- whether the last result is SQLITE_OK, and the statements that ran, the newest first
  unfoldable pub migrations_loop : (user_version : ℤ) → List ℕ → List Migration → Bool × List ℕ
  migrations_loop user_version log [] = (true, log)
  migrations_loop user_version log (m ∷ ms) =
      let here = migrations_loop user_version (m.statement ∷ log) ms in
      let past = migrations_loop user_version log ms in
      if below user_version m.version
      then (if exec log m.statement then here else (false, m.statement ∷ log))
      else past

  -- `step` is what the step over `PRAGMA table_info` answers, none where its text cannot be made or
  -- prepared.
  unfoldable pub sqlite_create_or_migrate :
      (user_version : ℤ) (step : Option StepResult) (create : ℕ) → List Migration → Bool × List ℕ
  unfolding migrations_loop
  sqlite_create_or_migrate user_version none create ms = (false, [])
  sqlite_create_or_migrate user_version (some step_done) create ms = (exec [] create, create ∷ [])
  sqlite_create_or_migrate user_version (some step_row) create ms =
      migrations_loop user_version [] ms
  sqlite_create_or_migrate user_version (some step_failed) create ms = (true, [])

pub data PkgError : Type 0 where
  epkg_ok : PkgError
  epkg_nodb : PkgError
  epkg_fatal : PkgError

-- the three ways stat(2) ends
pub data Stat : Type 0 where
  stat_found : Stat
  stat_missing : Stat
  stat_failed : Stat

unfoldable pub check_db_file : Stat → PkgError
check_db_file stat_found = epkg_ok
check_db_file stat_missing = epkg_nodb
check_db_file stat_failed = epkg_fatal

pub data OpenFlags : Type 0 where
  open_readonly : OpenFlags
  open_readwrite : OpenFlags
  open_create : OpenFlags

-- `flags` where the database is opened, none where it is not
unfoldable pub open_flags : (root write : Bool) → PkgError → PkgError × Option OpenFlags
open_flags root write epkg_fatal = (epkg_fatal, none)
open_flags true write epkg_nodb = (epkg_fatal, some open_create)
open_flags true write epkg_ok = (epkg_fatal, some (if write then open_readwrite else open_readonly))
open_flags false write epkg_nodb = (epkg_nodb, none)
open_flags false write epkg_ok = (epkg_fatal, some open_readonly)

-- What sqlite_open leaves: its status, how it opened the file, and whether `*dbh` is set, then with
-- the user version of the file.
pub record Opening : Type 0 where
  pub status : PkgError
  pub opened : Option OpenFlags
  pub dbh : Option ℤ

-- `ready` is whether malloc and sqlite3_initialize succeed, `opens` whether sqlite3_open_v2 does,
-- `prepares` whether the own statement is prepared, `version` what it then reads.
unfoldable pub sqlite_open :
    (stat : Stat) (root write ready : Bool) (opens : OpenFlags → Bool) (prepares : Bool)
    (version : Option ℤ)
    → Opening
unfolding check_db_file open_flags
sqlite_open stat root write ready opens prepares version =
    let (early, flags) = open_flags root write (check_db_file stat) in
    elim flags [
      | none ↦ record { status = early; opened = none; dbh = none }
      | some f ↦
          if not ready
          then record { status = epkg_fatal; opened = none; dbh = none }
          else if not (opens f && prepares)
          then record { status = epkg_fatal; opened = some f; dbh = none }
          else elim version [
            | none ↦ record { status = epkg_fatal; opened = some f; dbh = none }
            | some v ↦ record { status = epkg_ok; opened = some f; dbh = some v }
          ]
    ]
