-- ===== src/Services/Hooks/Examples.antt =====
-- The theorems on the hook of the services at an upgrade of one package.
use freebsd_pkg_plugins.Base.{ℕ, ◌+◌, ◌≡◌, refl, true, false, ◌&&◌, ◌||◌, List, [], ◌∷◌}
use freebsd_pkg_plugins.Services.Monitor.{
  KernelEvent, child_exit, process_monitor_exec, process_monitor_await, Start, forked,
}
use freebsd_pkg_plugins.Services.RcOrder.{has}
use freebsd_pkg_plugins.Services.Selection.{
  services_selection_handle, services_selection_add_rdep, services_selection_add_direct,
  services_selection_block, Command, enabled_command, restart_command,
}
use freebsd_pkg_plugins.Services.Selection.Blocked.{named, ran}
use freebsd_pkg_plugins.Services.Db.{ServicesDb}
use freebsd_pkg_plugins.Services.Db.Packages.{
  services_db_add_services_from_package_to_services_selection,
}
use freebsd_pkg_plugins.Services.Hooks.{Solved, solved_upgrade, selected, handle_hooks}
use freebsd_pkg_plugins.Services.Hooks.Chosen.{handle_hooks-blocked}
use freebsd_pkg_plugins.Services.Hooks.Selects.{concerned, selected-concerned}

-- the package 5 owns the scripts 1 and 2, and provides a library to 3
abbrev one_package : ServicesDb
one_package = record {
  scripts = [];
  provides = [];
  keywords = [];
  packages = (5, record { rshlibs = 3 ∷ []; owned = 1 ∷ 2 ∷ [] }) ∷ [];
}

abbrev one_job : List (Solved × ℕ)
one_job = (solved_upgrade, 5) ∷ []

abbrev start_at : ℕ → Command → Start
start_at name command = forked (name + 6) false false

abbrev exits : List KernelEvent
exits = child_exit 8 0 ∷ child_exit 9 0 ∷ []

-- the service 1 is on the blocklist
commands_test :
    (handle_hooks start_at exits exits
      (λ q. false)
      true
      (1 ∷ [])
      (true, one_package)
      one_job).ran_commands
    ≡ (2, enabled_command) ∷ (3, enabled_command) ∷ (2, restart_command) ∷ (3, restart_command) ∷ []
unfolding handle_hooks services_selection_handle
    services_db_add_services_from_package_to_services_selection services_selection_add_rdep
    services_selection_add_direct services_selection_block process_monitor_exec
    process_monitor_await
commands_test = refl

hook_blocked_example :
    ran 1
      (handle_hooks start_at exits exits
        (λ q. false)
        true
        (1 ∷ [])
        (true, one_package)
        one_job).ran_commands
    ≡ false
hook_blocked_example =
    handle_hooks-blocked start_at exits exits (λ q. false) (1 ∷ []) (true, one_package) one_job 1
      refl

selected_example :
    named 3 (selected true (1 ∷ []) one_package one_job)
    ≡ ((true && has 3 (1 ∷ [])) || concerned one_package 3 one_job)
selected_example = selected-concerned true (1 ∷ []) one_package one_job 3
