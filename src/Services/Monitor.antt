-- ===== src/Services/Monitor.antt =====
-- The children that plugins/services/process_monitor.c starts and awaits.
--
-- The children stand in the order of the table's list, with the pid as key. What the kernel answers
-- is an argument: the outcome of a start, the events up to the time limit, and which kills fail.
-- Callbacks get the child's data and do not touch the monitor: a run is read as their list.
pub mod Once
pub mod Reported
use freebsd_pkg_plugins.Base.{
  ℕ, zero, suc, ◌+◌, ◌-◌, Bool, true, false, not, ◌&&◌, ◌||◌, Option, none, some, List, [], ◌∷◌,
  ◌++◌, ◌==◌, if◌then◌else◌,
}

pub record Child : Type 0 where
  pub data_ : ℕ
  pub exited : Bool
  pub status : ℕ

abbrev pub Children : Type 0
Children = List (ℕ × Child)

pub record ProcessMonitor : Type 0 where
  pub children : Children
  pub active_children_count : ℕ

-- what `process_monitor_exec` meets
pub data Start : Type 0 where
  argv_failed : Start
  fork_failed : Start
  forked : (pid : ℕ) (kevent_failed malloc_failed : Bool) → Start

-- what the call of `kevent` in the loop gives; the list of them ends with the time limit
pub data KernelEvent : Type 0 where
  child_exit : (pid status : ℕ) → KernelEvent
  other_filter : KernelEvent
  interrupted : KernelEvent
  kevent_error : KernelEvent

pub data Callback : Type 0 where
  exited_call : (pid status data_ : ℕ) → Callback
  hanging_call : (pid data_ : ℕ) → Callback

abbrev pub find_child : ℕ → Children → Option Child
find_child pid [] = none
find_child pid ((p, c) ∷ cs) = if pid == p then some c else find_child pid cs

unfoldable pub child_create : ℕ → Child
child_create data_ = record { data_ = data_; exited = false; status = 1 }

abbrev pub process_monitor_create : ProcessMonitor
process_monitor_create = record { children = []; active_children_count = 0 }

unfoldable pub process_monitor_clear : ProcessMonitor → ProcessMonitor
process_monitor_clear pm = record { children = []; active_children_count = 0 }

-- The pid is known already only if the table keeps a child with it: then that child stays.
unfoldable pub register_pid :
    ProcessMonitor
    → (pid : ℕ) → (data_ : ℕ) → (kevent_failed malloc_failed : Bool) → Bool × ProcessMonitor
unfolding child_create
register_pid pm pid data_ kevent_failed malloc_failed =
    if kevent_failed || malloc_failed then (false, pm) else (
      true,
      record {
        children = elim (find_child pid pm.children) [
          | none ↦ pm.children ++ (pid, child_create data_) ∷ []
          | some c ↦ pm.children
        ];
        active_children_count = pm.active_children_count + 1;
      },
    )

-- The result of `register_pid` is not looked at.
unfoldable pub process_monitor_exec : ProcessMonitor → Start → (data_ : ℕ) → Bool × ProcessMonitor
unfolding register_pid
process_monitor_exec pm argv_failed data_ = (false, pm)
process_monitor_exec pm fork_failed data_ = (false, pm)
process_monitor_exec pm (forked pid kevent_failed malloc_failed) data_ =
    (true, (register_pid pm pid data_ kevent_failed malloc_failed).1)

-- the node's child, changed in place
unfoldable pub set_exited : (pid status : ℕ) → Children → Children
set_exited pid status [] = []
set_exited pid status ((p, c) ∷ cs) =
    if pid == p
    then (p, record c { exited = true; status = status }) ∷ cs
    else (p, c) ∷ set_exited pid status cs

-- The loop calls it with a count that is not 0.
unfoldable pub unregister_pid : ProcessMonitor → (pid status : ℕ) → ProcessMonitor × List Callback
unfolding set_exited
unregister_pid pm pid status = elim (find_child pid pm.children) [
  | none ↦ (record pm { active_children_count = pm.active_children_count - 1 }, [])
  | some c ↦ (
    record {
      children = set_exited pid status pm.children;
      active_children_count = pm.active_children_count - 1;
    },
    exited_call pid status c.data_ ∷ [],
  )
]

-- the loop of `process_monitor_await`
unfoldable pub await_loop : List KernelEvent → ProcessMonitor → ProcessMonitor × List Callback
unfolding unregister_pid
await_loop [] pm = (pm, [])
await_loop (child_exit pid status ∷ es) pm =
    if pm.active_children_count == 0
    then (pm, [])
    else let (pm₁, calls) = unregister_pid pm pid status in
      let (pm₂, more) = await_loop es pm₁ in (pm₂, calls ++ more)
await_loop (other_filter ∷ es) pm =
    if pm.active_children_count == 0 then (pm, []) else await_loop es pm
await_loop (interrupted ∷ es) pm =
    if pm.active_children_count == 0 then (pm, []) else await_loop es pm
await_loop (kevent_error ∷ es) pm = (pm, [])

-- the loop over the children that did not exit; a kill that fails ends it
unfoldable pub hanging_loop : (kill_failed : ℕ → Bool) → Children → List Callback
hanging_loop kill_failed [] = []
hanging_loop kill_failed ((p, c) ∷ cs) =
    if c.exited
    then hanging_loop kill_failed cs
    else hanging_call p c.data_ ∷ (if kill_failed p then [] else hanging_loop kill_failed cs)

unfoldable pub process_monitor_await :
    List KernelEvent → (kill_failed : ℕ → Bool) → ProcessMonitor → ProcessMonitor × List Callback
unfolding await_loop hanging_loop
process_monitor_await es kill_failed pm =
    let (pm₁, calls) = await_loop es pm in (pm₁, calls ++ hanging_loop kill_failed pm₁.children)
