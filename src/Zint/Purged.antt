-- ===== src/Zint/Purged.antt =====
-- What the purge of plugins/zfs_integration/plugin_zfs_integration.c comes to, and the names of hooks.
use freebsd_pkg_plugins.Base.{
  same_text, ℕ, zero, suc, ◌+◌, ◌^◌, ◌<◌, ◌≤◌, ◌≡◌, ◌⊎◌, inl, inr, ◌∙◌, ap, sym, refl, subst, Bool,
  true, Option, none, some, List, [], ◌∷◌, arith, ltb, get_elem?, length, word_size, IsOrder, ==→eq,
  Bool-cases,
}
use mathlib.Core.Option.{some-injective}
use freebsd_pkg_plugins.Dlist.{DList}
use freebsd_pkg_plugins.Dlist.Memory.{Memory, fault}
use freebsd_pkg_plugins.Dlist.Linked.{Chain, IsDList}
use freebsd_pkg_plugins.Dlist.Sorting.{SortsTo, dlist_sort-Sorts, length-addresses}
use freebsd_pkg_plugins.Dlist.Iterator.{iterator_reject-head_fault}
use freebsd_pkg_plugins.Zint.Retention.{
  Snapshot, RetentionType, disabled, by_count, retention_filter_callback,
  retention_filter_callback_data_create, retention_filter_callback_data_reset, callback_of,
  retention_disabled_keep, retention_by_count_keep, snapshot_compare_by_creation_date_desc, pos,
}
use freebsd_pkg_plugins.Zint.Purge.{
  newer, purge_list, purge_lists, purge_snapshots, name_to_hook, hook_to_name, name_loop,
}

-- dates before the year 2038 are compared as they are
newer-eq :
    (snap : ℕ → Snapshot) (a b : ℕ)
    → (snap a).creation < 2 ^ 31
    → (snap b).creation < 2 ^ 31
    → newer snap a b ≡ ltb (snap a).creation (snap b).creation
unfolding newer snapshot_compare_by_creation_date_desc
newer-eq snap a b small small' = ground arith

newer-IsOrder :
    (snap : ℕ → Snapshot) → ((v : ℕ) → (snap v).creation < 2 ^ 31) → IsOrder (newer snap)
newer-IsOrder snap small = record {
  asymmetric = λ a b h.
      ground (arith, newer-eq snap a b (small a) (small b), newer-eq snap b a (small b) (small a));
  transitive = λ a b c h k. ground (
    arith,
    newer-eq snap a b (small a) (small b),
    newer-eq snap b c (small b) (small c),
    newer-eq snap a c (small a) (small c),
  );
}

-- a retention that keeps the first snapshot that it is asked about
abbrev pub KeepsFirst : RetentionType → ℕ → Type 0
KeepsFirst retention limit = (retention ≡ disabled) ⊎ ((retention ≡ by_count) × (1 ≤ limit))

first-kept :
    (retention : RetentionType) (limit : ℕ) (s : Snapshot)
    → KeepsFirst retention limit
    → (retention_filter_callback s (
        retention_filter_callback_data_reset
          (retention_filter_callback_data_create retention limit))).0
      ≡ true
unfolding retention_filter_callback retention_filter_callback_data_reset
    retention_filter_callback_data_create callback_of retention_disabled_keep
    retention_by_count_keep
first-kept retention limit s (inl e) = rw e refl
first-kept retention limit s (inr (e, some_limit)) =
    let below : ltb 0 limit ≡ true = ground arith in rw e below

module _ (snap : ℕ → Snapshot) (destroy : ℕ → Bool) (k : ℕ) (m : Memory) (l2 : DList) (p v : ℕ)
    (xs : Chain) (small : (a : ℕ) → (snap a).creation < 2 ^ 31)
    (is : IsDList m.heap l2 ((p, v) ∷ xs)) (rounds : length xs + 1 < suc k)
    (room : length xs + 1 < word_size) where
  -- sorting leaves a first element, which the callback rejects
  rejected :
      (retention : RetentionType) (limit : ℕ)
      → KeepsFirst retention limit
      → SortsTo (newer snap) (suc k) m l2 ((p, v) ∷ xs)
      → purge_list snap destroy (suc k) (retention_filter_callback_data_create retention limit) l2 m
        ≡ fault
  unfolding purge_list
  rejected retention limit keeps (m', [], run, is', (same, perm, sorted), calls) = cc
  rejected retention limit keeps (m', (q, w) ∷ zs, run, is', (same, perm, sorted), calls) =
      let as_long =
        length-addresses ((q, w) ∷ zs) ∙ ap length same ∙ sym (length-addresses ((p, v) ∷ xs)) in
      rw
        (
          run,
          iterator_reject-head_fault (λ s a. retention_filter_callback (snap a) s) k m' l2
              (retention_filter_callback_data_reset
                (retention_filter_callback_data_create retention limit))
              q w zs is' (omega (arith, as_long)) (first-kept retention limit (snap w) keeps),
        )
        refl

  -- Where the retention is disabled, or keeps one snapshot or more by count, and the first file
  -- system has a snapshot, purge_snapshots reads a freed element: its walk over the list rejects
  -- the newest snapshot. The dates must be before 2 ^ 31.
  pub purge_snapshots-faults :
      (retention : RetentionType) (limit : ℕ) (ls : List DList)
      → KeepsFirst retention limit
      → purge_snapshots snap destroy (suc k) true (true, l2 ∷ ls) retention limit m ≡ fault
  unfolding purge_snapshots purge_lists
  purge_snapshots-faults retention limit ls keeps =
      rw
        (rejected retention limit keeps (
          dlist_sort-Sorts (newer snap) (suc k) m l2 ((p, v) ∷ xs) (newer-IsOrder snap small) is
            (omega arith)))
        refl

same_text-eq : (xs ys : List ℕ) → same_text xs ys ≡ true → xs ≡ ys
same_text-eq [] [] e = refl
same_text-eq [] (y ∷ ys) e = cc
same_text-eq (x ∷ xs) [] e = cc
same_text-eq (x ∷ xs) (y ∷ ys) e =
    let same = same_text-eq xs ys (ground arith) in λ i. ==→eq x y (ground arith) i ∷ same i

pub same_text_self : (xs : List ℕ) → same_text xs xs ≡ true
same_text_self [] = refl
same_text_self (x ∷ xs) = ground (arith, same_text_self xs)

-- a name stands at one index at most
abbrev pub Once : List (Option (List ℕ)) → Type 0
Once hooks =
    (i j : ℕ) (name : List ℕ)
    → get_elem? hooks i ≡ some (some name)
    → get_elem? hooks j ≡ some (some name)
    → i ≡ j

name_loop-finds :
    (i j : ℕ) (hooks : List (Option (List ℕ))) (name : List ℕ)
    → Once hooks
    → get_elem? hooks j ≡ some (some name)
    → name_loop i hooks name ≡ pos (i + j)
unfolding name_loop
name_loop-finds i j [] name once at = cc
name_loop-finds i zero (none ∷ hooks) name once at = cc
name_loop-finds i zero (some h ∷ hooks) name once at =
    let here : same_text h name ≡ true =
      subst (λ t. same_text t name ≡ true)
        (sym (some-injective h name (some-injective (some h) (some name) at)))
        (same_text_self name) in
    rw here (ap pos (omega arith))
name_loop-finds i (suc j) (none ∷ hooks) name once at =
    name_loop-finds (i + 1) j hooks name (λ a b n x y. omega (arith, once (suc a) (suc b) n x y)) at
    ∙ ap pos (omega arith)
name_loop-finds i (suc j) (some h ∷ hooks) name once at = elim (Bool-cases (same_text h name)) [
  | inl same ↦
      absurd
        (omega (arith, once 0 (suc j) name (ap (λ t. some (some t)) (same_text-eq h name same)) at))
  | inr other ↦ rw other (
      name_loop-finds (i + 1) j hooks name (λ a b n x y. omega (arith, once (suc a) (suc b) n x y))
        at
      ∙ ap pos (omega arith))
]

-- Where every name stands once in the table of hooks, name_to_hook finds the number of a hook from
-- the name that hook_to_name gives for it.
name_to_hook-hook_to_name :
    (hooks : List (Option (List ℕ))) (hook : ℕ) (name : List ℕ)
    → Once hooks
    → hook_to_name hooks (pos hook) ≡ some (some name)
    → name_to_hook hooks (some name) ≡ pos hook
unfolding name_to_hook hook_to_name
name_to_hook-hook_to_name hooks hook name once at =
    name_loop-finds 0 hook hooks name once at ∙ ap pos (omega arith)
