-- ===== src/Services/Selection.antt =====
-- The services that an upgrade stops or restarts: plugins/services/services_selection.c and
-- services_result.c.
--
-- A service is named by its text's address. The table of the selection is read as its entries in the
-- order of insertion, one for a name; an entry is changed in place through its pointer. A child's
-- data is the entry of that name.

pub mod Blocked
pub mod Entries
use freebsd_pkg_plugins.Base.{
  ℕ, zero, suc, ◌+◌, ◌-◌, Bool, true, false, not, ◌&&◌, ◌||◌, Option, none, some, List, [], ◌∷◌,
  ◌++◌, ◌==◌, if◌then◌else◌, is_some,
}
use freebsd_pkg_plugins.Services.Monitor.{
  ProcessMonitor, Start, KernelEvent, Callback, exited_call, hanging_call, process_monitor_create,
  process_monitor_exec, process_monitor_await, process_monitor_clear,
}

pub data ServiceAction : Type 0 where
  action_none : ServiceAction
  action_stop : ServiceAction
  action_restart : ServiceAction

pub data ServiceStatus : Type 0 where
  result_failed : ServiceStatus
  result_blocked : ServiceStatus
  result_success : ServiceStatus
  result_probing_failed : ServiceStatus

-- the two bits of `flags`
pub record Flags : Type 0 where
  pub direct : Bool
  pub blocked : Bool

pub record ServiceData : Type 0 where
  pub name : ℕ
  pub flags : Flags
  pub action : ServiceAction

abbrev pub Selection : Type 0
Selection = List ServiceData

unfoldable pub value_create : ℕ → ServiceAction → Flags → ServiceData
value_create name action flags = record { name = name; flags = flags; action = action }

abbrev pub find_service : ℕ → Selection → Option ServiceData
find_service name [] = none
find_service name (sd ∷ ss) = if name == sd.name then some sd else find_service name ss

abbrev pub or_flags : Flags → Flags → Flags
or_flags a b = record { direct = a.direct || b.direct; blocked = a.blocked || b.blocked }

-- the two assignments through the pointer
abbrev pub update_service : ℕ → ServiceAction → Flags → Selection → Selection
update_service name action flags [] = []
update_service name action flags (sd ∷ ss) =
    if name == sd.name
    then record sd { flags = or_flags sd.flags flags; action = action } ∷ ss
    else sd ∷ update_service name action flags ss

unfoldable pub services_selection_add : Selection → ℕ → ServiceAction → Flags → Selection
unfolding value_create
services_selection_add ss name action flags = elim (find_service name ss) [
  | none ↦ ss ++ value_create name action flags ∷ []
  | some sd ↦ update_service name action flags ss
]

unfoldable pub services_selection_block : Selection → ℕ → Selection
unfolding services_selection_add
services_selection_block ss name =
    services_selection_add ss name action_none (record { direct = false; blocked = true })

unfoldable pub services_selection_add_direct : Selection → ℕ → ServiceAction → Selection
unfolding services_selection_add
services_selection_add_direct ss name action =
    services_selection_add ss name action (record { direct = true; blocked = false })

unfoldable pub services_selection_add_rdep : Selection → ℕ → ServiceAction → Selection
unfolding services_selection_add
services_selection_add_rdep ss name action =
    services_selection_add ss name action (record { direct = false; blocked = false })

unfoldable pub services_selection_contains : Selection → ℕ → Bool
services_selection_contains ss name = is_some (find_service name ss)

-- One entry for each call of `dlist_append` on the lists, in order.
pub record ResultEntry : Type 0 where
  pub service : ℕ
  pub of_action : ServiceAction
  pub status : ServiceStatus

abbrev pub ServicesResult : Type 0
ServicesResult = List ResultEntry

unfoldable pub services_result_add :
    ServicesResult → ℕ → ServiceAction → ServiceStatus → ServicesResult
services_result_add sr name action_none status = sr
services_result_add sr name action_stop status =
    sr ++ record { service = name; of_action = action_stop; status = status } ∷ []
services_result_add sr name action_restart status =
    sr ++ record { service = name; of_action = action_restart; status = status } ∷ []

-- the commands that are run, with the service
pub data Command : Type 0 where
  enabled_command : Command
  stop_command : Command
  restart_command : Command

-- What a part of `services_selection_handle` leaves: the result, the monitor, the commands run.
pub record Handled : Type 0 where
  pub result : ServicesResult
  pub monitor : ProcessMonitor
  pub commands : List (ℕ × Command)

-- `start` is what an attempt to run a command meets.
module _ (start : ℕ → Command → Start) where
  -- the loop that asks which services are enabled
  unfoldable pub probe_loop : Selection → ServicesResult → ProcessMonitor → Handled
  unfolding services_result_add
  probe_loop [] sr pm = record { result = sr; monitor = pm; commands = [] }
  probe_loop (sd ∷ ss) sr pm = elim sd.flags.blocked [
    | true ↦ probe_loop ss (services_result_add sr sd.name sd.action result_blocked) pm
    | false ↦
        let (ok, pm') = process_monitor_exec pm (start sd.name enabled_command) sd.name in
        elim ok [
          | false ↦ record { result = sr; monitor = pm'; commands = [] }
          | true ↦
              let h = probe_loop ss sr pm' in
              record h { commands = (sd.name, enabled_command) ∷ h.commands }
        ]
  ]

  abbrev pub command_of : ServiceAction → Command
  command_of action_stop = stop_command
  command_of action_none = restart_command
  command_of action_restart = restart_command

  -- the loop over the enabled services
  unfoldable pub command_loop : List ServiceData → ServicesResult → ProcessMonitor → Handled
  command_loop [] sr pm = record { result = sr; monitor = pm; commands = [] }
  command_loop (sd ∷ ss) sr pm =
      let command = command_of sd.action in
      let (ok, pm') = process_monitor_exec pm (start sd.name command) sd.name in
      elim ok [
        | false ↦ record { result = sr; monitor = pm'; commands = [] }
        | true ↦
            let h = command_loop ss sr pm' in
            record h { commands = (sd.name, command) ∷ h.commands }
      ]

-- `handle_enabled_exited` and `handle_enabled_hanging`: the enabled services, and the result
unfoldable pub handle_enabled :
    Selection → List Callback → ServicesResult → List ServiceData × ServicesResult
unfolding services_result_add
handle_enabled ss [] sr = ([], sr)
handle_enabled ss (exited_call pid status d ∷ calls) sr =
    let (enabled, sr') = handle_enabled ss calls sr in
    elim (find_service d ss) [
      | none ↦ (enabled, sr')
      | some sd ↦ (if status == 0 then sd ∷ enabled else enabled, sr')
    ]
handle_enabled ss (hanging_call pid d ∷ calls) sr = elim (find_service d ss) [
  | none ↦ handle_enabled ss calls sr
  | some sd ↦
      handle_enabled ss calls (services_result_add sr sd.name sd.action result_probing_failed)
]

-- `handle_restart_stop_exited` and `handle_restart_stop_hanging`
unfoldable pub handle_restart_stop : Selection → List Callback → ServicesResult → ServicesResult
unfolding services_result_add
handle_restart_stop ss [] sr = sr
handle_restart_stop ss (exited_call pid status d ∷ calls) sr = elim (find_service d ss) [
  | none ↦ handle_restart_stop ss calls sr
  | some sd ↦
      let outcome = if status == 0 then result_success else result_failed in
      handle_restart_stop ss calls (services_result_add sr sd.name sd.action outcome)
]
handle_restart_stop ss (hanging_call pid d ∷ calls) sr = elim (find_service d ss) [
  | none ↦ handle_restart_stop ss calls sr
  | some sd ↦ handle_restart_stop ss calls (services_result_add sr sd.name sd.action result_failed)
]

-- The two rounds of `services_selection_handle`, with what the kernel answers in each; the
-- allocations succeed.
unfoldable pub services_selection_handle :
    (start : ℕ → Command → Start) (probes runs : List KernelEvent) (kill_failed : ℕ → Bool)
    → Selection
    → Handled
unfolding probe_loop command_loop handle_enabled handle_restart_stop
services_selection_handle start probes runs kill_failed ss =
    let h₁ = probe_loop start ss [] process_monitor_create in
    let (pm₁, calls₁) = process_monitor_await probes kill_failed h₁.monitor in
    let (enabled, sr₁) = handle_enabled ss calls₁ h₁.result in
    let h₂ = command_loop start enabled sr₁ (process_monitor_clear pm₁) in
    let (pm₂, calls₂) = process_monitor_await runs kill_failed h₂.monitor in
    record {
      result = handle_restart_stop ss calls₂ h₂.result;
      monitor = process_monitor_clear pm₂;
      commands = h₁.commands ++ h₂.commands;
    }
