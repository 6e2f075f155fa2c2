-- ===== src/Services/Runs.antt =====
-- The theorems on services at two children, and at a blocked service.
use freebsd_pkg_plugins.Base.{
  ℕ, ◌+◌, ◌≡◌, refl, true, false, some, List, [], ◌∷◌, ◌==◌, if◌then◌else◌, arith,
}
use freebsd_pkg_plugins.Services.Monitor.{
  Child, ProcessMonitor, KernelEvent, child_exit, interrupted, process_monitor_await, Start, forked,
}
use freebsd_pkg_plugins.Services.Monitor.Once.{
  reports, pending, Awaited, process_monitor_await-Once,
}
use freebsd_pkg_plugins.Services.Selection.{
  Selection, ServiceData, action_restart, services_selection_handle, Command,
  services_selection_add, find_service,
}
use freebsd_pkg_plugins.Services.Selection.Blocked.{
  NamesOnce, ran, services_selection_handle-Blocked,
}
use freebsd_pkg_plugins.Services.Selection.Entries.{merged, services_selection_add-Merges}

abbrev waiting : ℕ → Child
waiting d = record { data_ = d; exited = false; status = 1 }

abbrev two_children : ProcessMonitor
two_children = record { children = (7, waiting 1) ∷ (8, waiting 2) ∷ []; active_children_count = 2 }

abbrev one_exit : List KernelEvent
one_exit = interrupted ∷ child_exit 8 0 ∷ []

one_exit-Awaited : Awaited one_exit two_children.children
one_exit-Awaited q h = ground arith

await_example :
    reports 7 (process_monitor_await one_exit (λ q. false) two_children).1
    ≡ pending 7 two_children.children
await_example =
    process_monitor_await-Once one_exit (λ q. false) two_children (refl, (refl, tt)) (refl, tt)
      one_exit-Awaited (λ q. refl) 7

abbrev blocked_service : ServiceData
blocked_service = record {
  name = 1;
  flags = record { direct = true; blocked = true };
  action = action_restart;
}

abbrev open_service : ServiceData
open_service = record {
  name = 2;
  flags = record { direct = true; blocked = false };
  action = action_restart;
}

abbrev two_services : Selection
two_services = blocked_service ∷ open_service ∷ []

abbrev start_at : ℕ → Command → Start
start_at name command = forked (name + 6) false false

blocked_example :
    ran 1 (services_selection_handle start_at one_exit one_exit (λ q. false) two_services).commands
    ≡ false
blocked_example =
    services_selection_handle-Blocked start_at one_exit one_exit (λ q. false) two_services 1
      blocked_service (refl, (refl, tt)) refl refl

services_selection_add_example :
    NamesOnce (
      services_selection_add two_services 3 action_restart
        (record { direct = true; blocked = false }))
    × ((other : ℕ)
        → find_service other (
            services_selection_add two_services 3 action_restart
              (record { direct = true; blocked = false }))
          ≡ (if other == 3
              then some (
                  merged
                    (find_service 3 two_services)
                    3
                    action_restart
                    (record { direct = true; blocked = false }))
              else find_service other two_services))
services_selection_add_example =
    services_selection_add-Merges 3 action_restart (record { direct = true; blocked = false })
      two_services (refl, (refl, tt))
