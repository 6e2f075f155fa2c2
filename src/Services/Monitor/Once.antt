-- ===== src/Services/Monitor/Once.antt =====
-- Every awaited child is reported once.
use freebsd_pkg_plugins.Base.{
  ℕ, ◌+◌, ◌-◌, ◌≡◌, refl, sym, ap, ◌∙◌, Bool, Bool-cases, true, false, not, ◌&&◌, none, some, List,
  [], ◌∷◌, ◌++◌, ◌==◌, ==→eq, ==_refl, if◌then◌else◌, arith, inl, inr, Option-cases,
}
use freebsd_pkg_plugins.Services.Monitor.{
  Child, Children, ProcessMonitor, KernelEvent, child_exit, other_filter, interrupted, kevent_error,
  Callback, exited_call, hanging_call, find_child, set_exited, unregister_pid, await_loop,
  hanging_loop, process_monitor_await,
}

-- how often the callbacks are on this child
abbrev pub reports : ℕ → List Callback → ℕ
reports p [] = 0
reports p (exited_call q st d ∷ cs) = if p == q then reports p cs + 1 else reports p cs
reports p (hanging_call q d ∷ cs) = if p == q then reports p cs + 1 else reports p cs

-- how many children with this pid have not exited
abbrev pub pending : ℕ → Children → ℕ
pending p [] = 0
pending p ((q, c) ∷ cs) = if (p == q) && not c.exited then pending p cs + 1 else pending p cs

abbrev pub known : ℕ → Children → Bool
known p [] = false
known p ((q, c) ∷ cs) = if p == q then true else known p cs

-- no two children have one pid
abbrev pub PidsOnce : Children → Type 0
PidsOnce [] = Unit
PidsOnce ((q, c) ∷ cs) = (known q cs ≡ false) × PidsOnce cs

-- the events tell of the exit of this child
abbrev pub exits : ℕ → List KernelEvent → Bool
exits p [] = false
exits p (child_exit q st ∷ es) = if p == q then true else exits p es
exits p (e ∷ es) = exits p es

-- a child exits once
abbrev pub ExitsOnce : List KernelEvent → Type 0
ExitsOnce [] = Unit
ExitsOnce (child_exit q st ∷ es) = (exits q es ≡ false) × ExitsOnce es
ExitsOnce (e ∷ es) = ExitsOnce es

reports-append : (p : ℕ) (a b : List Callback) → reports p (a ++ b) ≡ reports p a + reports p b
reports-append p [] b = omega arith
reports-append p (exited_call q st d ∷ a) b = ground (arith, reports-append p a b)
reports-append p (hanging_call q d ∷ a) b = ground (arith, reports-append p a b)

reports-hanging_loop :
    (kill_failed : ℕ → Bool)
    → ((q : ℕ) → kill_failed q ≡ false)
    → (p : ℕ) (cs : Children) → reports p (hanging_loop kill_failed cs) ≡ pending p cs
unfolding hanging_loop
reports-hanging_loop kill_failed well p [] = refl
reports-hanging_loop kill_failed well p ((q, c) ∷ cs) =
    ground (arith, reports-hanging_loop kill_failed well p cs, well q)

known-set_exited :
    (p pid status : ℕ) (cs : Children) → known p (set_exited pid status cs) ≡ known p cs
unfolding set_exited
known-set_exited p pid status [] = refl
known-set_exited p pid status ((q, c) ∷ cs) = ground (arith, known-set_exited p pid status cs)

PidsOnce-set_exited :
    (pid status : ℕ) (cs : Children) → PidsOnce cs → PidsOnce (set_exited pid status cs)
unfolding set_exited
PidsOnce-set_exited pid status [] once = tt
PidsOnce-set_exited pid status ((q, c) ∷ cs) once = elim (Bool-cases (pid == q)) [
  | inl e ↦ rw e once
  | inr e ↦
      rw e (known-set_exited q pid status cs ∙ once.0, PidsOnce-set_exited pid status cs once.1)
]

pending-unknown : (p : ℕ) (cs : Children) → known p cs ≡ false → pending p cs ≡ 0
pending-unknown p [] new = refl
pending-unknown p ((q, c) ∷ cs) new = ground (arith, pending-unknown p cs)

pending-set_exited :
    (p pid status : ℕ) (cs : Children)
    → PidsOnce cs
    → pending p (set_exited pid status cs) ≡ (if p == pid then 0 else pending p cs)
unfolding set_exited
pending-set_exited p pid status [] once = ground arith
pending-set_exited p pid status ((q, c) ∷ cs) once =
    ground (arith, pending-set_exited p pid status cs once.1, pending-unknown p cs, once.0)

pending-find_child : (p : ℕ) (cs : Children) → find_child p cs ≡ none → pending p cs ≡ 0
pending-find_child p [] missing = refl
pending-find_child p ((q, c) ∷ cs) missing = ground (arith, pending-find_child p cs)

-- the events are of children that are awaited
abbrev pub Awaited : List KernelEvent → Children → Type 0
Awaited es cs = (q : ℕ) → exits q es ≡ true → pending q cs ≡ 1

-- The children and the calls of a run of the loop.
abbrev pub Balanced : Children → ProcessMonitor × List Callback → Type 0
Balanced cs r = (p : ℕ) → reports p r.1 + pending p r.0.children ≡ pending p cs

Balanced-exit :
    (cs : Children) (pid status d : ℕ) (r : ProcessMonitor × List Callback)
    → PidsOnce cs
    → pending pid cs ≡ 1
    → Balanced (set_exited pid status cs) r
    → Balanced cs (r.0, exited_call pid status d ∷ r.1)
Balanced-exit cs pid status d r once one rest p = elim (Bool-cases (p == pid)) [
  | inl e ↦
      let same = ==→eq p pid e in
      let count = rest p ∙ pending-set_exited p pid status cs once in
      ground (arith, ap (λ q. pending q cs) same)
  | inr e ↦ let count = rest p ∙ pending-set_exited p pid status cs once in ground arith
]

Awaited-set_exited :
    (es : List KernelEvent) (cs : Children) (pid status : ℕ)
    → PidsOnce cs
    → exits pid es ≡ false
    → Awaited (child_exit pid status ∷ es) cs
    → Awaited es (set_exited pid status cs)
Awaited-set_exited es cs pid status once last awaited q h = elim (Bool-cases (q == pid)) [
  | inl e ↦ let same = ap (λ x. exits x es) (==→eq q pid e) in let wrong = sym h ∙ same ∙ last in cc
  | inr e ↦ let before = awaited q (rw e h) in pending-set_exited q pid status cs once ∙ rw e before
]

pub unregister_pid-found :
    (pm : ProcessMonitor) (pid status : ℕ) (c : Child)
    → find_child pid pm.children ≡ some c
    → unregister_pid pm pid status ≡ (
      record {
        children = set_exited pid status pm.children;
        active_children_count = pm.active_children_count - 1;
      },
      exited_call pid status c.data_ ∷ [],
    )
unfolding unregister_pid
unregister_pid-found pm pid status c found = rw (unregister_pid, found) refl

await_loop-Balanced :
    (es : List KernelEvent) (pm : ProcessMonitor)
    → PidsOnce pm.children
    → ExitsOnce es
    → Awaited es pm.children
    → Balanced pm.children (await_loop es pm)
unfolding await_loop
await_loop-Balanced [] pm once exit awaited = λ p. omega arith
await_loop-Balanced (child_exit pid status ∷ es) pm once exit awaited =
    elim (Bool-cases (pm.active_children_count == 0)) [
      | inl e ↦ rw e (λ p. omega arith)
      | inr e ↦ elim (Option-cases (find_child pid pm.children)) [
        | inl missing ↦
            let none_pending = pending-find_child pid pm.children missing in
            let one = awaited pid (rw (==_refl pid) refl) in absurd (omega arith)
        | inr (c, found) ↦
            let after : ProcessMonitor = record {
              children = set_exited pid status pm.children;
              active_children_count = pm.active_children_count - 1;
            } in
            rw (e, unregister_pid-found pm pid status c found)
              (Balanced-exit pm.children pid status c.data_ (await_loop es after) once
                (awaited pid (rw (==_refl pid) refl))
                (await_loop-Balanced es after (PidsOnce-set_exited pid status pm.children once)
                  exit.1 (Awaited-set_exited es pm.children pid status once exit.0 awaited)))
      ]
    ]
await_loop-Balanced (other_filter ∷ es) pm once exit awaited =
    elim (Bool-cases (pm.active_children_count == 0)) [
      | inl e ↦ rw e (λ p. omega arith)
      | inr e ↦ rw e (await_loop-Balanced es pm once exit awaited)
    ]
await_loop-Balanced (interrupted ∷ es) pm once exit awaited =
    elim (Bool-cases (pm.active_children_count == 0)) [
      | inl e ↦ rw e (λ p. omega arith)
      | inr e ↦ rw e (await_loop-Balanced es pm once exit awaited)
    ]
await_loop-Balanced (kevent_error ∷ es) pm once exit awaited = λ p. omega arith

-- Where no pid stands for two children, every exit that is seen is of an awaited child and seen
-- once, and no kill fails, waiting reports each awaited child once, as exited or as hanging, and
-- nothing else.
pub process_monitor_await-Once :
    (es : List KernelEvent) (kill_failed : ℕ → Bool) (pm : ProcessMonitor)
    → PidsOnce pm.children
    → ExitsOnce es
    → Awaited es pm.children
    → ((q : ℕ) → kill_failed q ≡ false)
    → (p : ℕ) → reports p (process_monitor_await es kill_failed pm).1 ≡ pending p pm.children
unfolding process_monitor_await
process_monitor_await-Once es kill_failed pm once exit awaited well p =
    let (pm₁, calls) = await_loop es pm in
    reports-append p calls (hanging_loop kill_failed pm₁.children)
    ∙ ap (λ n. reports p calls + n) (reports-hanging_loop kill_failed well p pm₁.children)
    ∙ await_loop-Balanced es pm once exit awaited p
