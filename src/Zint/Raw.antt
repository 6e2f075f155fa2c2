-- ===== src/Zint/Raw.antt =====
-- The backup method of plugins/zfs_integration/raw_zfs_method.c: its choice and its snapshots, with
-- uzfs_snapshot and uzfs_same_pool of zfs.c.
--
-- A file system is its name, `none` where a path is not on ZFS. The snapshots taken and the properties
-- set are events, the newest first. What libzfs answers is an argument; an open file system has a
-- handle of the library.
use freebsd_pkg_plugins.Base.{
  same_text, ℕ, ◌+◌, ◌-◌, Bool, true, false, not, ◌&&◌, Option, none, some, List, ◌∷◌,
  if◌then◌else◌, ◌++◌, leb, length,
}
use freebsd_pkg_plugins.Zint.Purge.{BmCode, bm_ok, bm_skip, bm_error}

abbrev pub Name : Type 0
Name = List ℕ

pub data Property : Type 0 where
  zint_version : Property
  zint_hook : Property

pub data Event : Type 0 where
  taken : (name : Name) (recursive : Bool) → Event
  property_set : (snapshot : Name) → Property → Event

-- `paths_to_check_t`, without the paths
pub record PathsToCheck : Type 0 where
  pub root : Option Name
  pub localbase : Option Name
  pub pkg_dbdir : Option Name

-- what libzfs answers: whether a name is valid, zfs_snapshot is 0, zfs_open is not NULL, and
-- zfs_prop_set is not -1; the events so far are what the file systems hold
pub record Libzfs : Type 0 where
  pub zfs_name_valid : Name → Bool
  pub zfs_snapshot : List Event → Name → Bool → Bool
  pub zfs_open : List Event → Name → Bool
  pub zfs_prop_set : List Event → Name → Property → Bool
  pub zfs_get_pool_name : Name → Option Name

-- where stpcpy_sp answers, for a buffer with so many bytes left
abbrev pub fits : ℕ → Name → Bool
fits size text = leb 2 size && leb (length text + 1) size

unfoldable pub same_pool_names : Option Name → Option Name → Bool
same_pool_names (some p) (some q) = same_text p q
same_pool_names (some p) none = false
same_pool_names none q = false

-- the name of a snapshot: "file system@snapshot"
abbrev pub at_sign : Name → Name → Name
at_sign fs snapshot = fs ++ 64 ∷ snapshot

module _ (lib : Libzfs) where
  unfoldable pub uzfs_same_pool : Name → Name → Bool
  unfolding same_pool_names
  uzfs_same_pool h1 h2 = same_pool_names (lib.zfs_get_pool_name h1) (lib.zfs_get_pool_name h2)

  -- `strftime_scheme` is false, and the buffer has ZFS_MAX_NAME_LEN bytes. The answer is the name that
  -- the buffer then holds, `none` for false.
  unfoldable pub uzfs_snapshot : Name → Name → Bool → List Event → Option Name × List Event
  uzfs_snapshot fs scheme recursive log =
      let name = at_sign fs scheme in
      if not (fits 256 fs)
      then (none, log)
      else if not (fits (256 - (length fs + 1)) scheme)
      then (none, log)
      else if not (lib.zfs_name_valid name)
      then (none, log)
      else if lib.zfs_snapshot log name recursive
      then (some name, taken name recursive ∷ log)
      else (none, log)

  unfoldable pub set_zfs_properties : Name → List Event → Bool × List Event
  set_zfs_properties fs log =
      if not (lib.zfs_prop_set log fs zint_version)
      then (false, log)
      else let log' = property_set fs zint_version ∷ log in
        if not (lib.zfs_prop_set log' fs zint_hook)
        then (false, log')
        else (true, property_set fs zint_hook ∷ log')

  -- what follows uzfs_snapshot in individual_snapshot
  unfoldable pub mark_snapshot : Option Name × List Event → Bool × List Event
  unfolding set_zfs_properties
  mark_snapshot (none, log) = (false, log)
  mark_snapshot (some buffer, log) =
      let marked = set_zfs_properties buffer log in
      if not (lib.zfs_open log buffer) then (false, log) else marked

  unfoldable pub individual_snapshot : Bool → Name → Name → List Event → Bool × List Event
  unfolding uzfs_snapshot mark_snapshot
  individual_snapshot recursive fs snapshot log =
      mark_snapshot (uzfs_snapshot fs snapshot recursive log)

  -- the tests of raw_zfs_snapshot for /usr/local and the database: a NULL file system is passed over
  unfoldable pub snapshot_located : Option Name → Name → Bool × List Event → Bool × List Event
  unfolding individual_snapshot
  snapshot_located none snapshot r = r
  snapshot_located (some fs) snapshot (ok, log) =
      let r = individual_snapshot false fs snapshot log in if ok then r else (false, log)

  -- The answer and the events; `none` is the NULL root, which uzfs_snapshot reads.
  unfoldable pub raw_zfs_snapshot :
      (recursive : Bool) → PathsToCheck → Name → List Event → Option (Bool × List Event)
  unfolding individual_snapshot snapshot_located
  raw_zfs_snapshot recursive ptc snapshot log = elim ptc.root [
    | none ↦ none
    | some root ↦
        let r = individual_snapshot recursive root snapshot log in
        let others =
          snapshot_located ptc.pkg_dbdir snapshot (snapshot_located ptc.localbase snapshot r) in
        some (if recursive then r else others)
  ]

  -- The code, and the field `recursive` of the context that is made, if one is; `none` is the NULL root
  -- that uzfs_depth reads. `allocated` tells whether malloc answered.
  unfoldable pub raw_zfs_suitable :
      (allocated : Bool) → PathsToCheck → Option (BmCode × Option Bool)
  unfolding uzfs_same_pool
  raw_zfs_suitable allocated ptc = elim ptc.localbase [
    | none ↦ some (bm_skip, none)
    | some localbase ↦ if not allocated then some (bm_error, none) else elim ptc.root [
      | none ↦ none
      | some root ↦ some (bm_ok, some (uzfs_same_pool root localbase))
    ]
  ]
