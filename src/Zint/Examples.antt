-- ===== src/Zint/Examples.antt =====
-- The theorems on the retention at the value "2 Days" and at three snapshots.
use freebsd_pkg_plugins.Base.{
  ℕ, suc, ◌*◌, ◌≤◌, zero, ap, ◌≡◌, refl, Bool, true, false, Option, none, some, List, [], ◌∷◌, map,
  arith, get_elem?, inl, not, same_text, ◌==◌, if◌then◌else◌,
}
use mathlib.Core.Option.{some-injective}
use freebsd_pkg_plugins.Zint.Retention.{
  by_creation, Snapshot, Strtoll, pkg_string, retention_parse, retention_filter_callback,
  callback_of, retention_by_creation_keep, skip_spaces, failed, succeeded, unknown_unit, pos,
  negsuc, disabled,
}
use freebsd_pkg_plugins.Zint.Filter.{answers, answers-prefix, IsDesc}
use freebsd_pkg_plugins.Zint.Period.{
  seconds_before, parse_string-period, retention_parse-IsSafe, IsSafe,
}
use freebsd_pkg_plugins.Zint.Units.{take, lower, unit_of}
use freebsd_pkg_plugins.Dlist.{DList}
use freebsd_pkg_plugins.Dlist.Memory.{null, element, Memory, fault}
use freebsd_pkg_plugins.Dlist.Linked.{IsDList}
use freebsd_pkg_plugins.Zint.Purge.{purge_snapshots, bm_ok}
use freebsd_pkg_plugins.Zint.Purged.{purge_snapshots-faults}
use freebsd_pkg_plugins.Zint.Raw.{
  Libzfs, Event, raw_zfs_suitable, raw_zfs_snapshot, uzfs_same_pool, same_pool_names,
  snapshot_located, individual_snapshot, uzfs_snapshot, mark_snapshot, set_zfs_properties,
}
use freebsd_pkg_plugins.Zint.Pools.{has_taken, RefusesTwice, all_on_zfs, raw_zfs_snapshot-never}

abbrev at_time : ℕ → Snapshot
at_time t = record { name = []; creation = t; hook = pos 1; version = 1 }

abbrev three_snapshots : List Snapshot
three_snapshots = at_time 30 ∷ at_time 20 ∷ at_time 10 ∷ []

same_creation :
    (s t : Snapshot) → ◌≡◌ {A = Option Snapshot} (some s) (some t) → s.creation ≡ t.creation
same_creation s t e = ap (λ u. u.creation) (some-injective s t e)

old-le : (i : ℕ) (t : Snapshot) → get_elem? (at_time 10 ∷ []) i ≡ some t → t.creation ≤ 20
old-le zero t e = omega (arith, same_creation (at_time 10) t e)
old-le (suc i) t e = cc

older-le :
    (i : ℕ) (t : Snapshot) → get_elem? (at_time 20 ∷ at_time 10 ∷ []) i ≡ some t → t.creation ≤ 30
older-le zero t e = omega (arith, same_creation (at_time 20) t e)
older-le (suc i) t e = omega (arith, old-le i t e)

three_snapshots-IsDesc : IsDesc three_snapshots
three_snapshots-IsDesc = (older-le, (old-le, (λ i t e. cc, tt)))

-- "2 Days"
abbrev two_days : List ℕ
two_days = 50 ∷ 32 ∷ 68 ∷ 97 ∷ 121 ∷ 115 ∷ []

abbrev two_of : List ℕ → Strtoll
two_of s = record { value = pos 2; rest = 32 ∷ 68 ∷ 97 ∷ 121 ∷ 115 ∷ []; erange = false }

abbrev compare_case : List ℕ → List ℕ → ℕ → Bool
compare_case s t n = same_text (take n (map lower s)) (take n (map lower t))

parse_period_example :
    retention_parse two_of compare_case 100000000 (pkg_string (some two_days)) 0
    ≡ elim (unit_of (skip_spaces (32 ∷ 68 ∷ 97 ∷ 121 ∷ 115 ∷ []))) [
      | none ↦ failed unknown_unit 0
      | some unit ↦ succeeded by_creation (seconds_before 100000000 (suc 1 * unit))
    ]
parse_period_example =
    parse_string-period two_of compare_case 100000000 (λ s t n. refl) two_days 1 32
      (68 ∷ 97 ∷ 121 ∷ 115 ∷ []) 0 refl refl refl (omega arith) (omega arith)

parse-IsSafe_example :
    IsSafe 0 (retention_parse two_of compare_case 100000000 (pkg_string (some two_days)) 0)
parse-IsSafe_example =
    retention_parse-IsSafe two_of compare_case 100000000
      (λ s n e. omega (arith, ap {B = ℕ} (λ v. elim v [ pos k ↦ k | negsuc k ↦ 0 ]) e))
      (pkg_string (some two_days)) 0 (λ n e. cc)

prefix_example :
    get_elem?
        (answers (record { retention = by_creation; limit = 25; state = 0 }) three_snapshots)
        2
      ≡ some true
    → ⊥
unfolding retention_filter_callback callback_of retention_by_creation_keep
prefix_example =
    answers-prefix by_creation 25 0 three_snapshots three_snapshots-IsDesc 1 2 (omega arith) refl

-- one snapshot, at the address 5
abbrev memory : Memory
memory = record { heap = λ a. if a == 8 then some (element null null 5) else none; destroyed = [] }

abbrev snapshots : DList
snapshots = record { length = 1; dup = none; dtor = true; head = 8; tail = 8 }

snapshots-IsDList : IsDList memory.heap snapshots ((8, 5) ∷ [])
snapshots-IsDList = record {
  head = refl;
  tail = refl;
  length = refl;
  links = (refl, omega arith, refl, tt);
}

purge_example :
    purge_snapshots (λ a. at_time 10) (λ a. true) 2 true (true, snapshots ∷ []) disabled 0 memory
    ≡ fault
purge_example =
    purge_snapshots-faults (λ a. at_time 10) (λ a. true) 1 memory snapshots 8 5 []
      (λ a. omega arith) snapshots-IsDList (omega arith) (omega arith) disabled 0 [] (inl refl)

abbrev ap_first : Option (Bool × List Event) → Option Bool
ap_first none = none
ap_first (some (b, log)) = some b

-- each file system is a pool of its own
abbrev libzfs : Libzfs
libzfs = record {
  zfs_name_valid = λ name. true;
  zfs_snapshot = λ log name recursive. not (has_taken name log);
  zfs_open = λ log name. true;
  zfs_prop_set = λ log name p. true;
  zfs_get_pool_name = λ fs. some fs;
}

libzfs-RefusesTwice : RefusesTwice libzfs
libzfs-RefusesTwice log name recursive h = rw h refl

shared_example :
    (raw_zfs_suitable libzfs true (all_on_zfs (1 ∷ []) (2 ∷ []) (1 ∷ []))
      ≡ some (bm_ok, some false))
    × (log' : List Event) × (raw_zfs_snapshot libzfs false
          (all_on_zfs (1 ∷ []) (2 ∷ []) (1 ∷ []))
          (3 ∷ [])
          []
        ≡ some (false, log'))
unfolding uzfs_same_pool same_pool_names
shared_example =
    raw_zfs_snapshot-never libzfs (1 ∷ []) (2 ∷ []) (1 ∷ []) (3 ∷ []) [] libzfs-RefusesTwice refl
      (inl refl)

-- the database on a third pool: the snapshots are taken
apart_test :
    ap_first (raw_zfs_snapshot libzfs false (all_on_zfs (1 ∷ []) (2 ∷ []) (4 ∷ [])) (3 ∷ []) [])
    ≡ some true
unfolding raw_zfs_snapshot snapshot_located individual_snapshot uzfs_snapshot mark_snapshot
    set_zfs_properties
apart_test = refl
