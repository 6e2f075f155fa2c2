-- ===== src/Services/Selection/Blocked.antt =====
-- A blocked service is left alone.
use freebsd_pkg_plugins.Base.{
  ℕ, ◌≡◌, refl, sym, ap, ◌∙◌, Bool, Bool-cases, true, false, ◌||◌, Option, some, List, [], ◌∷◌,
  ◌++◌, ◌==◌, ==→eq, arith, inl, inr, Option-cases,
}
use mathlib.Core.Option.{some-injective}
use freebsd_pkg_plugins.Services.Monitor.{
  ProcessMonitor, KernelEvent, Callback, exited_call, hanging_call, Start, process_monitor_exec,
  process_monitor_clear, process_monitor_await, process_monitor_create,
}
use freebsd_pkg_plugins.Services.Selection.{
  ServiceData, Selection, find_service, ServicesResult, Command, probe_loop, command_loop,
  handle_enabled, services_selection_handle, enabled_command, command_of,
}
use freebsd_pkg_plugins.Services.Monitor.Reported.{
  started, reported, process_monitor_exec-started, process_monitor_await-reported,
}

abbrev pub ran : ℕ → List (ℕ × Command) → Bool
ran name [] = false
ran name ((n, c) ∷ cs) = (name == n) || ran name cs

abbrev pub named : ℕ → Selection → Bool
named name [] = false
named name (sd ∷ ss) = (name == sd.name) || named name ss

abbrev pub NamesOnce : Selection → Type 0
NamesOnce [] = Unit
NamesOnce (sd ∷ ss) = (named sd.name ss ≡ false) × NamesOnce ss

-- every entry of the name is blocked
abbrev pub Blocks : ℕ → Selection → Type 0
Blocks name [] = Unit
Blocks name (sd ∷ ss) = (name == sd.name ≡ true → sd.flags.blocked ≡ true) × Blocks name ss

Blocks-unnamed : (name : ℕ) (ss : Selection) → named name ss ≡ false → Blocks name ss
Blocks-unnamed name [] new = tt
Blocks-unnamed name (sd ∷ ss) new = (λ h. ground arith, Blocks-unnamed name ss (ground arith))

found_blocked :
    (x sd : ServiceData)
    → ◌≡◌ {A = Option ServiceData} (some x) (some sd)
    → sd.flags.blocked ≡ true
    → x.flags.blocked ≡ true
found_blocked x sd e blocked = ap (λ y. y.flags.blocked) (some-injective x sd e) ∙ blocked

pub find_service-head :
    (name : ℕ) (x : ServiceData) (ss : Selection)
    → name == x.name ≡ true
    → find_service name (x ∷ ss) ≡ some x
find_service-head name x ss e = rw e refl

Blocks-find_service :
    (name : ℕ) (ss : Selection) (sd : ServiceData)
    → NamesOnce ss
    → find_service name ss ≡ some sd
    → sd.flags.blocked ≡ true
    → Blocks name ss
Blocks-find_service name [] sd once found blocked = cc
Blocks-find_service name (x ∷ ss) sd once found blocked = elim (Bool-cases (name == x.name)) [
  | inl e ↦
      let same = ==→eq name x.name e in
      (
        λ h. found_blocked x sd (sym (find_service-head name x ss e) ∙ found) blocked,
        Blocks-unnamed name ss (ap (λ n. named n ss) same ∙ once.0),
      )
  | inr e ↦ (λ h. cc, Blocks-find_service name ss sd once.1 (ground arith) blocked)
]

ran-append : (name : ℕ) (a b : List (ℕ × Command)) → ran name (a ++ b) ≡ (ran name a || ran name b)
ran-append name [] b = refl
ran-append name (x ∷ a) b = ground (arith, ran-append name a b)

find_service-name :
    (d : ℕ) (ss : Selection) (sd : ServiceData) → find_service d ss ≡ some sd → d ≡ sd.name
find_service-name d [] sd found = cc
find_service-name d (x ∷ ss) sd found = elim (Bool-cases (d == x.name)) [
  | inl e ↦
      ==→eq d x.name e
      ∙ ap (λ y. y.name) (some-injective x sd (sym (find_service-head d x ss e) ∙ found))
  | inr e ↦ find_service-name d ss sd (ground arith)
]

handle_enabled-named :
    (name : ℕ) (ss : Selection) (calls : List Callback) (sr : ServicesResult)
    → reported name calls ≡ false
    → named name (handle_enabled ss calls sr).0 ≡ false
unfolding handle_enabled
handle_enabled-named name ss [] sr new = refl
handle_enabled-named name ss (exited_call pid status d ∷ calls) sr new =
    let rest = handle_enabled-named name ss calls sr (ground arith) in
    elim (Option-cases (find_service d ss)) [
      | inl e ↦ rw (named, handle_enabled, e) rest
      | inr (sd, e) ↦
          let other : name == sd.name ≡ false =
            ap (λ n. name == n) (sym (find_service-name d ss sd e)) ∙ ground arith in
          rw (named, handle_enabled, e) (ground arith)
    ]
handle_enabled-named name ss (hanging_call pid d ∷ calls) sr new =
    elim (Option-cases (find_service d ss)) [
      | inl e ↦ rw (named, handle_enabled, e) (handle_enabled-named name ss calls sr (ground arith))
      | inr (sd, e) ↦
          rw (named, handle_enabled, e) (handle_enabled-named name ss calls _ (ground arith))
    ]

module _ (start : ℕ → Command → Start) where
  -- one command, and what follows it
  command_loop-ran :
      (name : ℕ) (ss : Selection) (sr : ServicesResult) (pm : ProcessMonitor)
      → named name ss ≡ false
      → ran name (command_loop start ss sr pm).commands ≡ false
  unfolding command_loop
  command_loop-ran name [] sr pm new = refl
  command_loop-ran name (sd ∷ ss) sr pm new =
      let r = process_monitor_exec pm (start sd.name (command_of start sd.action)) sd.name in
      let rest = command_loop-ran name ss sr r.1 (ground arith) in
      elim (Bool-cases r.0) [ inl ok ↦ ground arith | inr failed ↦ ground arith ]

  probe_loop-ran :
      (name : ℕ) (ss : Selection) (sr : ServicesResult) (pm : ProcessMonitor)
      → Blocks name ss
      → started name pm.children ≡ false
      → (ran name (probe_loop start ss sr pm).commands ≡ false)
        × (started name (probe_loop start ss sr pm).monitor.children ≡ false)
  unfolding probe_loop
  probe_loop-ran name [] sr pm blocks new = (refl, new)
  probe_loop-ran name (sd ∷ ss) sr pm blocks new = elim (Bool-cases sd.flags.blocked) [
    | inl e ↦ rw e (probe_loop-ran name ss _ pm blocks.1 new)
    | inr e ↦
        let r = process_monitor_exec pm (start sd.name enabled_command) sd.name in
        let other : name == sd.name ≡ false = ground (arith, blocks.0) in
        let clean =
          process_monitor_exec-started name sd.name pm (start sd.name enabled_command) other new in
        let rest = probe_loop-ran name ss sr r.1 blocks.1 clean in
        elim (Bool-cases r.0) [
          | inl ok ↦ (ground arith, ground arith)
          | inr failed ↦ (ground arith, ground arith)
        ]
  ]

-- Where the selection has one entry for a name, no command is run for a blocked service, whatever
-- the kernel answers: it is neither asked whether it is enabled nor stopped nor restarted.
pub services_selection_handle-Blocked :
    (start : ℕ → Command → Start) (probes runs : List KernelEvent) (kill_failed : ℕ → Bool)
    (ss : Selection) (name : ℕ) (sd : ServiceData)
    → NamesOnce ss
    → find_service name ss ≡ some sd
    → sd.flags.blocked ≡ true
    → ran name (services_selection_handle start probes runs kill_failed ss).commands ≡ false
unfolding services_selection_handle
services_selection_handle-Blocked start probes runs kill_failed ss name sd once found blocked =
    let h₁ = probe_loop start ss [] process_monitor_create in
    let blocks = Blocks-find_service name ss sd once found blocked in
    let (none_asked, clean) = probe_loop-ran start name ss [] process_monitor_create blocks refl in
    let a = process_monitor_await probes kill_failed h₁.monitor in
    let quiet = process_monitor_await-reported name probes kill_failed h₁.monitor clean in
    let e = handle_enabled ss a.1 h₁.result in
    let left = handle_enabled-named name ss a.1 h₁.result quiet in
    let pm = process_monitor_clear a.0 in
    let none_run = command_loop-ran start name e.0 e.1 pm left in
    ground (arith, ran-append name h₁.commands (command_loop start e.0 e.1 pm).commands)
