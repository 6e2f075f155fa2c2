-- ===== src/History.antt =====
-- plugins/history: what is recorded of the operations of pkg, and how it is queried.
--
-- Texts of packages and commands are numbers. What pkg and sqlite answer is an argument.
pub mod Recorded
pub mod Queries
pub mod Options
pub mod Date
mod Examples
use freebsd_pkg_plugins.Base.{
  ℕ, zero, suc, ◌+◌, ◌^◌, Bool, true, false, not, ◌&&◌, Option, none, some, List, [], ◌∷◌, ◌++◌,
  ◌==◌, if◌then◌else◌, codes,
}
use freebsd_pkg_plugins.Sqlite.Binds.{
  Argument, int_argument, int64_argument, string_argument, Destination, int_destination,
  int64_destination, string_destination, no_destination,
}

-- `1 << PKG_SHIFT_OP_INSTALL` and the like
abbrev pub op_install : ℕ
op_install = 1

abbrev pub op_deinstall : ℕ
op_deinstall = 2

abbrev pub op_upgrade : ℕ
op_upgrade = 4

abbrev pub op_all : ℕ
op_all = 7

pub data JobType : Type 0 where
  jobs_install : JobType
  jobs_deinstall : JobType
  jobs_autoremove : JobType
  jobs_upgrade : JobType
  jobs_fetch : JobType

-- The switch on the type of the jobs, with `PKG_SOLVED_INSTALL == solved_type`; `none` is the failing
-- assertion.
unfoldable pub operation_of : JobType → (solved_install : Bool) → Option ℕ
operation_of jobs_install solved_install = some op_install
operation_of jobs_deinstall solved_install = some op_deinstall
operation_of jobs_autoremove solved_install = some op_deinstall
operation_of jobs_upgrade solved_install = some (if solved_install then op_install else op_upgrade)
operation_of jobs_fetch solved_install = none

-- `operation_names`, and "???"
pub data OperationName : Type 0 where
  installed : OperationName
  deleted : OperationName
  upgraded : OperationName
  unknown_operation : OperationName

unfoldable pub operation_loop : (i : ℕ) → List OperationName → ℕ → OperationName
operation_loop i [] operation = unknown_operation
operation_loop i (n ∷ names) operation =
    let rest = operation_loop (i + 1) names operation in if operation == 2 ^ i then n else rest

unfoldable pub operation_name : ℕ → OperationName
unfolding operation_loop
operation_name operation = operation_loop 0 (installed ∷ deleted ∷ upgraded ∷ []) operation

-- a job: the attributes of its package, and whether it is solved by an installation
pub record Job : Type 0 where
  pub package_texts : ℕ
  pub solved_install : Bool

-- a row of the table of packages
pub record Line : Type 0 where
  pub texts : ℕ
  pub operation : ℕ
  pub command_id : ℕ

-- the answers of statement_fetch: -1, 0 and 1
pub data Fetched : Type 0 where
  fetch_error : Fetched
  fetch_empty : Fetched
  fetch_row : Fetched

-- `insert` is what statement_fetch answers for a line, after those inserted so far (the oldest first).
module _ (insert : List Line → Line → Fetched) (job_type : JobType) (command_id : ℕ) where
  -- `fetch_status` and the lines inserted when the loop ends; `none` is the failing assertion
  unfoldable pub lines_loop : Fetched → List Line → List Job → Option (Fetched × List Line)
  unfolding operation_of
  lines_loop status lines [] = some (status, lines)
  lines_loop status lines (job ∷ jobs) = elim (operation_of job_type job.solved_install) [
    | none ↦ none
    | some operation ↦
        let line : Line = record {
          texts = job.package_texts;
          operation = operation;
          command_id = command_id;
        } in
        elim (insert lines line) [
          | fetch_error ↦ some (fetch_error, lines)
          | fetch_empty ↦ lines_loop fetch_empty (lines ++ line ∷ []) jobs
          | fetch_row ↦ lines_loop fetch_row (lines ++ line ∷ []) jobs
        ]
  ]

-- What the hook leaves: whether its status is EPKG_OK, and the lines that were committed.
pub record Recording : Type 0 where
  pub succeeded : Bool
  pub committed : Option (List Line)

abbrev pub nothing_recorded : Recording
nothing_recorded = record { succeeded = false; committed = none }

-- after the loop: the test on `fetch_status`, and the commit
unfoldable pub commit_lines : (commits : Bool) → Fetched × List Line → Recording
commit_lines commits (fetch_empty, lines) =
    if commits then record { succeeded = true; committed = some lines } else nothing_recorded
commit_lines commits (fetch_error, lines) = nothing_recorded
commit_lines commits (fetch_row, lines) = nothing_recorded

-- `ready` is whether the database is opened, the command line read and joined, and the transaction
-- begun; `created` what statement_fetch answers for the command, which is not looked at; `last_id` what
-- sqlite_last_insert_id then answers.
unfoldable pub handle_hooks :
    (insert : List Line → Line → Fetched) (ready : Bool) (created : Fetched) (last_id : ℕ)
    (commits : Bool)
    → JobType
    → List Job
    → Option Recording
unfolding lines_loop commit_lines
handle_hooks insert ready created last_id commits job_type jobs =
    if not ready
    then some nothing_recorded
    else elim (lines_loop insert job_type last_id fetch_empty [] jobs) [
      | none ↦ none
      | some r ↦ some (commit_lines commits r)
    ]

-- the enumeration of the statements
pub data HistoryStatement : Type 0 where
  stmt_create_command : HistoryStatement
  stmt_create_line : HistoryStatement
  stmt_list_line : HistoryStatement
  stmt_search_line_exact : HistoryStatement
  stmt_search_line_exact_ci : HistoryStatement
  stmt_search_line_glob : HistoryStatement

-- `query_options_t`
pub record QueryOptions : Type 0 where
  pub limit : ℕ
  pub statement : HistoryStatement
  pub operations : ℕ
  pub use_origin : Bool
  pub from : ℕ
  pub to : ℕ

unfoldable pub query_options_init : (now : ℕ) → QueryOptions
query_options_init now = record {
  limit = 100;
  statement = stmt_search_line_exact_ci;
  operations = 0;
  use_origin = false;
  from = 0;
  to = now;
}

-- the binds of STMT_LIST_LINE, and of STMT_SEARCH_LINE_BY_NAME
abbrev pub list_input : List ℕ
list_input = codes "ttii"

abbrev pub list_output : List ℕ
list_output = codes "itssssssi"

abbrev pub search_input : List ℕ
search_input = codes "siiii"

abbrev pub search_output : List ℕ
search_output = codes "issssssi"

-- the arguments that display_history_full and display_history_search pass
abbrev pub list_arguments : QueryOptions → List Argument
list_arguments qo =
    int64_argument qo.from
    ∷ int64_argument qo.to
    ∷ int_argument qo.operations
    ∷ int_argument qo.limit
    ∷ []

abbrev pub search_arguments : QueryOptions → ℕ → List Argument
search_arguments qo searched =
    string_argument (some searched)
    ∷ int_argument qo.operations
    ∷ int64_argument qo.from
    ∷ int64_argument qo.to
    ∷ int_argument qo.limit
    ∷ []

-- one of the name and the origin is taken
abbrev pub name_destinations : Bool → List Destination
name_destinations true = no_destination ∷ string_destination ∷ []
name_destinations false = string_destination ∷ no_destination ∷ []

-- repo, old_version, new_version, operation
abbrev pub line_destinations : List Destination
line_destinations =
    string_destination ∷ string_destination ∷ string_destination ∷ int_destination ∷ []

abbrev pub list_destinations : QueryOptions → List Destination
list_destinations qo =
    int_destination
    ∷ int64_destination
    ∷ string_destination
    ∷ (name_destinations qo.use_origin ++ line_destinations)

abbrev pub search_destinations : QueryOptions → List Destination
search_destinations qo =
    int64_destination ∷ string_destination ∷ (name_destinations qo.use_origin ++ line_destinations)
