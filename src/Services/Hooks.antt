-- ===== src/Services/Hooks.antt =====
-- The hook of plugins/services/plugin_services.c: from the packages that pkg deletes or upgrades to the
-- services that are stopped or restarted.
--
-- The jobs are what pkg_jobs_iter answers, in order; the blocklist is the configured one. What a scan
-- of the system leaves is an argument, and what the kernel answers.
pub mod Chosen
pub mod Selects
mod Examples
use freebsd_pkg_plugins.Base.{
  ℕ, Bool, true, false, Option, none, some, List, [], ◌∷◌, if◌then◌else◌,
}
use freebsd_pkg_plugins.Services.Monitor.{Start, KernelEvent}
use freebsd_pkg_plugins.Services.Selection.{
  Selection, ServicesResult, Command, services_selection_block, services_selection_handle,
  action_stop, action_restart,
}
use freebsd_pkg_plugins.Services.Db.{ServicesDb}
use freebsd_pkg_plugins.Services.Db.Packages.{
  services_db_add_services_from_package_to_services_selection,
}

-- `solved_type`
pub data Solved : Type 0 where
  solved_delete : Solved
  solved_upgrade : Solved
  solved_other : Solved

unfoldable pub block_loop : Selection → List ℕ → Selection
block_loop ss [] = ss
block_loop ss (name ∷ blocklist) = block_loop (services_selection_block ss name) blocklist

-- the two tests on a job
unfoldable pub select_job : ServicesDb → Selection → Solved → (pkg_name : ℕ) → Selection
select_job db ss solved_delete name =
    services_db_add_services_from_package_to_services_selection db ss name action_stop false
select_job db ss solved_upgrade name =
    services_db_add_services_from_package_to_services_selection db ss name action_restart true
select_job db ss solved_other name = ss

unfoldable pub jobs_loop : ServicesDb → Selection → List (Solved × ℕ) → Selection
unfolding select_job
jobs_loop db ss [] = ss
jobs_loop db ss ((solved, name) ∷ jobs) = jobs_loop db (select_job db ss solved name) jobs

-- the selection that the hook handles; `upgrading` is whether the job is an upgrade
unfoldable pub selected : (upgrading : Bool) → List ℕ → ServicesDb → List (Solved × ℕ) → Selection
unfolding block_loop jobs_loop
selected upgrading blocklist db jobs =
    jobs_loop db (if upgrading then block_loop [] blocklist else []) jobs

-- What the hook leaves: whether its status is EPKG_OK, the commands it ran, the result it prints.
pub record HookRun : Type 0 where
  pub succeeded : Bool
  pub ran_commands : List (ℕ × Command)
  pub printed : Option ServicesResult

module _ (start : ℕ → Command → Start) (probes runs : List KernelEvent)
    (kill_failed : ℕ → Bool) where
  -- `scanned` is the success of services_db_scan_system, with the database
  unfoldable pub handle_hooks :
      (upgrading : Bool) → List ℕ → (scanned : Bool × ServicesDb) → List (Solved × ℕ) → HookRun
  unfolding selected
  handle_hooks upgrading blocklist (false, db) jobs = record {
    succeeded = false;
    ran_commands = [];
    printed = none;
  }
  handle_hooks upgrading blocklist (true, db) jobs =
      let h =
        services_selection_handle start probes runs kill_failed
          (selected upgrading blocklist db jobs) in
      record { succeeded = true; ran_commands = h.commands; printed = some h.result }
