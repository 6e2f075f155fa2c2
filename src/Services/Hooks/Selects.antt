-- ===== src/Services/Hooks/Selects.antt =====
-- Which services the hook of plugin_services.c selects.
use freebsd_pkg_plugins.Base.{
  or_assoc, or_false, ℕ, ◌≡◌, sym, ap, ◌∙◌, Bool, true, false, ◌&&◌, ◌||◌, Option, none, some, List,
  [], ◌∷◌, ◌==◌,
}
use freebsd_pkg_plugins.Services.RcOrder.{has}
use freebsd_pkg_plugins.Services.Selection.{
  Selection, ServiceAction, services_selection_add_direct, services_selection_add_rdep,
  services_selection_block, action_stop, action_restart, action_none,
}
use freebsd_pkg_plugins.Services.Selection.Blocked.{named}
use freebsd_pkg_plugins.Services.Selection.Entries.{services_selection_add-named}
use freebsd_pkg_plugins.Services.Db.{ServicesDb, Package, find_entry}
use freebsd_pkg_plugins.Services.Db.Packages.{
  package_to_services_iterator, services_db_rshlib, add_direct_loop, add_rdep_loop,
  services_db_add_services_from_package_to_services_selection,
}
use freebsd_pkg_plugins.Services.Hooks.{
  Solved, solved_delete, solved_upgrade, solved_other, block_loop, select_job, jobs_loop, selected,
}

-- whether a job concerns a service: its package owns it, or provides a library to it on an upgrade
abbrev pub concerns : ServicesDb → ℕ → Solved → (pkg_name : ℕ) → Bool
concerns db n solved_delete p = has n (package_to_services_iterator db p)
concerns db n solved_upgrade p =
    has n (package_to_services_iterator db p) || has n (services_db_rshlib db p)
concerns db n solved_other p = false

abbrev pub concerned : ServicesDb → ℕ → List (Solved × ℕ) → Bool
concerned db n [] = false
concerned db n ((solved, p) ∷ jobs) = concerns db n solved p || concerned db n jobs

module _ (n : ℕ) where
  -- one name more in front of a loop over names
  step : (a b : Bool) (l c : Bool) → l ≡ (a || b) → (l || c) ≡ (a || (b || c))
  step a b l c e = ap (λ x. x || c) e ∙ or_assoc a b c

  block_loop-named :
      (ss : Selection) (names : List ℕ)
      → named n (block_loop ss names) ≡ (named n ss || has n names)
  unfolding block_loop services_selection_block
  block_loop-named ss [] = sym (or_false _)
  block_loop-named ss (x ∷ names) =
      block_loop-named (services_selection_block ss x) names
      ∙ step (named n ss) (n == x) _ (has n names)
          (services_selection_add-named x action_none _ ss n)

  direct_loop-named :
      (ss : Selection) (action : ServiceAction) (names : List ℕ)
      → named n (add_direct_loop ss action names) ≡ (named n ss || has n names)
  unfolding add_direct_loop services_selection_add_direct
  direct_loop-named ss action [] = sym (or_false _)
  direct_loop-named ss action (x ∷ names) =
      direct_loop-named (services_selection_add_direct ss x action) action names
      ∙ step (named n ss) (n == x) _ (has n names) (services_selection_add-named x action _ ss n)

  rdep_loop-named :
      (ss : Selection) (action : ServiceAction) (names : List ℕ)
      → named n (add_rdep_loop ss action names) ≡ (named n ss || has n names)
  unfolding add_rdep_loop services_selection_add_rdep
  rdep_loop-named ss action [] = sym (or_false _)
  rdep_loop-named ss action (x ∷ names) =
      rdep_loop-named (services_selection_add_rdep ss x action) action names
      ∙ step (named n ss) (n == x) _ (has n names) (services_selection_add-named x action _ ss n)

  owned_loop-named :
      (ss : Selection) (action : ServiceAction) (entry : Option Package)
      → named n (elim entry [ none ↦ ss | some p ↦ add_direct_loop ss action p.owned ])
        ≡ (named n ss || has n (elim entry [ none ↦ [] | some p ↦ p.owned ]))
  owned_loop-named ss action none = sym (or_false _)
  owned_loop-named ss action (some p) = direct_loop-named ss action p.owned

  select_job-named :
      (db : ServicesDb) (ss : Selection) (solved : Solved) (p : ℕ)
      → named n (select_job db ss solved p) ≡ (named n ss || concerns db n solved p)
  unfolding select_job services_db_add_services_from_package_to_services_selection
      package_to_services_iterator
  select_job-named db ss solved_delete p =
      owned_loop-named ss action_stop (find_entry p db.packages)
  select_job-named db ss solved_upgrade p =
      rdep_loop-named _ action_restart (services_db_rshlib db p)
      ∙ step (named n ss) (has n (package_to_services_iterator db p)) _
          (has n (services_db_rshlib db p))
          (owned_loop-named ss action_restart (find_entry p db.packages))
  select_job-named db ss solved_other p = sym (or_false _)

  jobs_loop-named :
      (db : ServicesDb) (ss : Selection) (jobs : List (Solved × ℕ))
      → named n (jobs_loop db ss jobs) ≡ (named n ss || concerned db n jobs)
  unfolding jobs_loop
  jobs_loop-named db ss [] = sym (or_false _)
  jobs_loop-named db ss ((solved, p) ∷ jobs) =
      jobs_loop-named db (select_job db ss solved p) jobs
      ∙ step (named n ss) (concerns db n solved p) _ (concerned db n jobs)
          (select_job-named db ss solved p)

-- The hook selects exactly the services of the blocklist, on an upgrade, and those that a job
-- concerns: the services of each package that is deleted or upgraded, and those that need a shared
-- library of one that is upgraded.
pub selected-concerned :
    (upgrading : Bool) (blocklist : List ℕ) (db : ServicesDb) (jobs : List (Solved × ℕ)) (n : ℕ)
    → named n (selected upgrading blocklist db jobs)
      ≡ ((upgrading && has n blocklist) || concerned db n jobs)
unfolding selected
selected-concerned true blocklist db jobs n =
    jobs_loop-named n db (block_loop [] blocklist) jobs
    ∙ ap (λ b. b || concerned db n jobs) (block_loop-named n [] blocklist)
selected-concerned false blocklist db jobs n = jobs_loop-named n db [] jobs
