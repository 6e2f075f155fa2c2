-- ===== src/Services/Hooks/Chosen.antt =====
-- Which services the hook of plugin_services.c selects, and that it leaves blocked ones alone.
use freebsd_pkg_plugins.Base.{
  ℕ, ◌≡◌, refl, sym, ap, ◌∙◌, Bool, Bool-cases, true, false, ◌||◌, Option, none, some, List, [],
  ◌∷◌, ◌==◌, ==→eq, inl, inr, arith,
}
use freebsd_pkg_plugins.Services.Monitor.{Start, KernelEvent}
use freebsd_pkg_plugins.Services.RcOrder.{has}
use freebsd_pkg_plugins.Services.Selection.{
  Selection, ServiceData, ServiceAction, Flags, Command, find_service, services_selection_add,
  services_selection_add_direct, services_selection_add_rdep, services_selection_block, action_stop,
  action_restart, action_none,
}
use freebsd_pkg_plugins.Services.Selection.Blocked.{
  ran, NamesOnce, services_selection_handle-Blocked,
}
use freebsd_pkg_plugins.Services.Selection.Entries.{
  merged, services_selection_add-find, services_selection_add-NamesOnce,
}
use freebsd_pkg_plugins.Services.Db.{ServicesDb, Package, find_entry}
use freebsd_pkg_plugins.Services.Db.Packages.{
  services_db_rshlib, add_direct_loop, add_rdep_loop,
  services_db_add_services_from_package_to_services_selection,
}
use freebsd_pkg_plugins.Services.Hooks.{
  Solved, solved_delete, solved_upgrade, solved_other, block_loop, select_job, jobs_loop,
  handle_hooks,
}

-- the flag of the entry that a lookup finds
abbrev blocked_at : Option ServiceData → Bool
blocked_at none = false
blocked_at (some sd) = sd.flags.blocked

-- a blocked entry, in a selection with one entry for each name
abbrev IsBlocked : ℕ → Selection → Type 0
IsBlocked name ss = NamesOnce ss × (blocked_at (find_service name ss) ≡ true)

merged-blocked :
    (o : Option ServiceData) (name : ℕ) (action : ServiceAction) (flags : Flags)
    → (blocked_at o || flags.blocked) ≡ true
    → (merged o name action flags).flags.blocked ≡ true
merged-blocked none name action flags e = e
merged-blocked (some sd) name action flags e = e

module _ (other : ℕ) where
  -- An addition never takes a block back.
  add-IsBlocked :
      (name : ℕ) (action : ServiceAction) (flags : Flags) (ss : Selection)
      → IsBlocked other ss
      → IsBlocked other (services_selection_add ss name action flags)
  add-IsBlocked name action flags ss (once, is) = (
    services_selection_add-NamesOnce name action flags ss once,
    ap blocked_at (services_selection_add-find name action flags ss other)
        ∙ elim (Bool-cases (other == name)) [
          | inr apart ↦ rw apart is
          | inl same ↦
              let there : blocked_at (find_service name ss) ≡ true =
                ap (λ n. blocked_at (find_service n ss)) (sym (==→eq other name same)) ∙ is in
              rw same (merged-blocked (find_service name ss) name action flags (rw there refl))
        ],
  )

  block-IsBlocked :
      (name : ℕ) (ss : Selection)
      → NamesOnce ss
      → other == name ≡ true
      → IsBlocked other (services_selection_block ss name)
  unfolding services_selection_block
  block-IsBlocked name ss once same = (
    services_selection_add-NamesOnce name action_none _ ss once,
    ap blocked_at (services_selection_add-find name action_none _ ss other)
        ∙ rw same (merged-blocked (find_service name ss) name action_none _ (ground arith)),
  )

  services_selection_block-NamesOnce :
      (name : ℕ) (ss : Selection) → NamesOnce ss → NamesOnce (services_selection_block ss name)
  unfolding services_selection_block
  services_selection_block-NamesOnce name ss once =
      services_selection_add-NamesOnce name action_none _ ss once

  services_selection_block-IsBlocked :
      (name : ℕ) (ss : Selection)
      → IsBlocked other ss
      → IsBlocked other (services_selection_block ss name)
  unfolding services_selection_block
  services_selection_block-IsBlocked name ss is = add-IsBlocked name action_none _ ss is

  block_loop-IsBlocked :
      (ss : Selection) (blocklist : List ℕ)
      → NamesOnce ss
      → (blocked_at (find_service other ss) || has other blocklist) ≡ true
      → IsBlocked other (block_loop ss blocklist)
  unfolding block_loop
  block_loop-IsBlocked ss [] once e = (once, ground arith)
  block_loop-IsBlocked ss (name ∷ blocklist) once e =
      block_loop-IsBlocked (services_selection_block ss name) blocklist
        (services_selection_block-NamesOnce name ss once)
        (elim (Bool-cases (other == name)) [
          | inl same ↦ rw (block-IsBlocked name ss once same).1 refl
          | inr apart ↦ elim (Bool-cases (blocked_at (find_service other ss))) [
            | inl is ↦ rw (services_selection_block-IsBlocked name ss (once, is)).1 refl
            | inr free ↦ ground arith
          ]
        ])

  direct_loop-IsBlocked :
      (ss : Selection) (action : ServiceAction) (scripts : List ℕ)
      → IsBlocked other ss
      → IsBlocked other (add_direct_loop ss action scripts)
  unfolding add_direct_loop services_selection_add_direct
  direct_loop-IsBlocked ss action [] is = is
  direct_loop-IsBlocked ss action (s ∷ scripts) is =
      direct_loop-IsBlocked (services_selection_add_direct ss s action) action scripts
        (add-IsBlocked s action _ ss is)

  rdep_loop-IsBlocked :
      (ss : Selection) (action : ServiceAction) (scripts : List ℕ)
      → IsBlocked other ss
      → IsBlocked other (add_rdep_loop ss action scripts)
  unfolding add_rdep_loop services_selection_add_rdep
  rdep_loop-IsBlocked ss action [] is = is
  rdep_loop-IsBlocked ss action (s ∷ scripts) is =
      rdep_loop-IsBlocked (services_selection_add_rdep ss s action) action scripts
        (add-IsBlocked s action _ ss is)

  owned_loop-IsBlocked :
      (ss : Selection) (action : ServiceAction) (entry : Option Package)
      → IsBlocked other ss
      → IsBlocked other (elim entry [ none ↦ ss | some p ↦ add_direct_loop ss action p.owned ])
  owned_loop-IsBlocked ss action none is = is
  owned_loop-IsBlocked ss action (some p) is = direct_loop-IsBlocked ss action p.owned is

  package-IsBlocked :
      (db : ServicesDb) (ss : Selection) (name : ℕ) (action : ServiceAction) (rshlibs : Bool)
      → IsBlocked other ss
      → IsBlocked other
          (services_db_add_services_from_package_to_services_selection db ss name action rshlibs)
  unfolding services_db_add_services_from_package_to_services_selection
  package-IsBlocked db ss name action true is =
      rdep_loop-IsBlocked _ action (services_db_rshlib db name)
        (owned_loop-IsBlocked ss action (find_entry name db.packages) is)
  package-IsBlocked db ss name action false is =
      owned_loop-IsBlocked ss action (find_entry name db.packages) is

  select_job-IsBlocked :
      (db : ServicesDb) (ss : Selection) (solved : Solved) (name : ℕ)
      → IsBlocked other ss
      → IsBlocked other (select_job db ss solved name)
  unfolding select_job
  select_job-IsBlocked db ss solved_delete name is =
      package-IsBlocked db ss name action_stop false is
  select_job-IsBlocked db ss solved_upgrade name is =
      package-IsBlocked db ss name action_restart true is
  select_job-IsBlocked db ss solved_other name is = is

  jobs_loop-IsBlocked :
      (db : ServicesDb) (ss : Selection) (jobs : List (Solved × ℕ))
      → IsBlocked other ss
      → IsBlocked other (jobs_loop db ss jobs)
  unfolding jobs_loop
  jobs_loop-IsBlocked db ss [] is = is
  jobs_loop-IsBlocked db ss ((solved, name) ∷ jobs) is =
      jobs_loop-IsBlocked db (select_job db ss solved name) jobs
        (select_job-IsBlocked db ss solved name is)

blocked_entry :
    (o : Option ServiceData)
    → blocked_at o ≡ true
    → (sd : ServiceData) × (o ≡ some sd) × (sd.flags.blocked ≡ true)
blocked_entry none e = cc
blocked_entry (some sd) e = (sd, refl, e)

-- On an upgrade no command is run for a service of the blocklist, whatever the packages, the scripts
-- and the kernel are: it is neither asked whether it is enabled, nor stopped, nor restarted.
pub handle_hooks-blocked :
    (start : ℕ → Command → Start) (probes runs : List KernelEvent) (kill_failed : ℕ → Bool)
    (blocklist : List ℕ) (scanned : Bool × ServicesDb) (jobs : List (Solved × ℕ)) (name : ℕ)
    → has name blocklist ≡ true
    → ran name (handle_hooks start probes runs kill_failed true blocklist scanned jobs).ran_commands
      ≡ false
unfolding handle_hooks
handle_hooks-blocked start probes runs kill_failed blocklist (false, db) jobs name there = refl
handle_hooks-blocked start probes runs kill_failed blocklist (true, db) jobs name there =
    let is =
      jobs_loop-IsBlocked name db (block_loop [] blocklist) jobs
        (block_loop-IsBlocked name [] blocklist tt there) in
    let (sd, found, blocked) = blocked_entry _ is.1 in
    services_selection_handle-Blocked start probes runs kill_failed
      (jobs_loop db (block_loop [] blocklist) jobs) name sd is.0 found blocked
