-- ===== src/Zint/Pools.antt =====
-- What the snapshots of raw_zfs_method.c come to where / and /usr/local are on two pools.
use freebsd_pkg_plugins.Base.{
  same_text, ◌≡◌, ◌⊎◌, inl, inr, refl, Bool, true, false, ◌||◌, Option, none, some, List, [], ◌∷◌,
  arith, length, ◌+◌, ◌-◌, Bool-cases, ◌∙◌,
}
use freebsd_pkg_plugins.Zint.Purge.{bm_ok}
use freebsd_pkg_plugins.Zint.Purged.{same_text_self}
use freebsd_pkg_plugins.Zint.Raw.{
  Name, Event, taken, property_set, PathsToCheck, Libzfs, at_sign, fits, uzfs_same_pool,
  uzfs_snapshot, set_zfs_properties, mark_snapshot, individual_snapshot, snapshot_located,
  raw_zfs_snapshot, raw_zfs_suitable,
}

-- a snapshot of this name has been taken
abbrev pub has_taken : Name → List Event → Bool
has_taken name [] = false
has_taken name (taken n r ∷ log) = same_text name n || has_taken name log
has_taken name (property_set n p ∷ log) = has_taken name log

-- zfs_snapshot(3) fails where the snapshot is there already.
abbrev pub RefusesTwice : Libzfs → Type 0
RefusesTwice lib =
    (log : List Event) (name : Name) (recursive : Bool)
    → has_taken name log ≡ true
    → lib.zfs_snapshot log name recursive ≡ false

-- what `individual_snapshot` needs, and does, for `name`
abbrev Attempt : Name → List Event → Bool × List Event → Type 0
Attempt name log r =
    (r.0 ≡ true → (has_taken name log ≡ false) × (has_taken name r.1 ≡ true))
    × ((n : Name) → has_taken n log ≡ true → has_taken n r.1 ≡ true)

abbrev pub all_on_zfs : Name → Name → Name → PathsToCheck
all_on_zfs r l d = record { root = some r; localbase = some l; pkg_dbdir = some d }

answers_false :
    (r : Bool × List Event)
    → r.0 ≡ false
    → (log' : List Event) × (◌≡◌ {A = Option (Bool × List Event)} (some r) (some (false, log')))
answers_false r e = (r.1, λ i. some (e i, r.1))

module _ (lib : Libzfs) where
  set_zfs_properties-has_taken :
      (fs n : Name) (log : List Event)
      → has_taken n (set_zfs_properties lib fs log).1 ≡ has_taken n log
  unfolding set_zfs_properties
  set_zfs_properties-has_taken fs n log = ground arith

  mark_snapshot-has_taken :
      (name n : Name) (log : List Event)
      → has_taken n (mark_snapshot lib (some name, log)).1 ≡ has_taken n log
  unfolding mark_snapshot
  mark_snapshot-has_taken name n log = ground (arith, set_zfs_properties-has_taken name n log)

  uzfs_snapshot-cases :
      (recursive : Bool) (fs snapshot : Name) (log : List Event)
      → (uzfs_snapshot lib fs snapshot recursive log ≡ (none, log))
        ⊎ ((lib.zfs_snapshot log (at_sign fs snapshot) recursive ≡ true)
            × (uzfs_snapshot lib fs snapshot recursive log
                ≡ (some (at_sign fs snapshot), taken (at_sign fs snapshot) recursive ∷ log)))
  unfolding uzfs_snapshot
  uzfs_snapshot-cases recursive fs snapshot log = elim (Bool-cases (fits 256 fs)) [
    | inr long ↦ inl (rw long refl)
    | inl short ↦ elim (Bool-cases (fits (256 - (length fs + 1)) snapshot)) [
      | inr long ↦ inl (rw (short, long) refl)
      | inl room ↦ elim (Bool-cases (lib.zfs_name_valid (at_sign fs snapshot))) [
        | inr bad ↦ inl (rw (short, room, bad) refl)
        | inl valid ↦ elim (Bool-cases (lib.zfs_snapshot log (at_sign fs snapshot) recursive)) [
          | inr failed ↦ inl (rw (short, room, valid, failed) refl)
          | inl done ↦ inr (done, rw (short, room, valid, done) refl)
        ]
      ]
    ]
  ]

  -- the events after a snapshot has been taken
  taken-Attempt :
      (recursive : Bool) (name : Name) (log : List Event)
      → RefusesTwice lib
      → lib.zfs_snapshot log name recursive ≡ true
      → Attempt name log (mark_snapshot lib (some name, taken name recursive ∷ log))
  taken-Attempt recursive name log refuses done =
      let fresh : has_taken name log ≡ false = elim (Bool-cases (has_taken name log)) [
        | inr new ↦ new
        | inl old ↦ ground (arith, refuses log name recursive old)
      ] in
      (
        λ e. (fresh, mark_snapshot-has_taken name name _ ∙ ground (arith, same_text_self name)),
        λ n h. mark_snapshot-has_taken name n _ ∙ ground arith,
      )

  individual_snapshot-Attempt :
      (recursive : Bool) (fs snapshot : Name) (log : List Event)
      → RefusesTwice lib
      → Attempt (at_sign fs snapshot) log (individual_snapshot lib recursive fs snapshot log)
  unfolding individual_snapshot mark_snapshot
  individual_snapshot-Attempt recursive fs snapshot log refuses =
      elim (uzfs_snapshot-cases recursive fs snapshot log) [
        | inl e ↦ rw e (λ bad. cc, λ n h. h)
        | inr (done, e) ↦ rw e (taken-Attempt recursive (at_sign fs snapshot) log refuses done)
      ]

  second_time :
      (recursive : Bool) (fs snapshot : Name) (log : List Event)
      → RefusesTwice lib
      → has_taken (at_sign fs snapshot) log ≡ true
      → (individual_snapshot lib recursive fs snapshot log).0 ≡ false
  second_time recursive fs snapshot log refuses before =
      elim (Bool-cases (individual_snapshot lib recursive fs snapshot log).0) [
        | inr failed ↦ failed
        | inl done ↦
            let first = (individual_snapshot-Attempt recursive fs snapshot log refuses).0 done in
            ground (arith, first.0, before)
      ]

  -- after the first two file systems, the third one's snapshot is there
  both_taken :
      (r l d snapshot : Name) (log : List Event)
      → RefusesTwice lib
      → (d ≡ r) ⊎ (d ≡ l)
      → let first = individual_snapshot lib false r snapshot log in
        let second = individual_snapshot lib false l snapshot first.1 in
        first.0 ≡ true → second.0 ≡ true → has_taken (at_sign d snapshot) second.1 ≡ true
  both_taken r l d snapshot log refuses (inl e) one two =
      let a = (individual_snapshot-Attempt false r snapshot log refuses).0 one in
      let b = (individual_snapshot-Attempt false l snapshot _ refuses).1 (at_sign r snapshot) a.1 in
      rw e b
  both_taken r l d snapshot log refuses (inr e) one two =
      rw e ((individual_snapshot-Attempt false l snapshot _ refuses).0 two).1

  never_succeeds :
      (r l d snapshot : Name) (log : List Event)
      → RefusesTwice lib
      → (d ≡ r) ⊎ (d ≡ l)
      → (log' : List Event) × (raw_zfs_snapshot lib false (all_on_zfs r l d) snapshot log
          ≡ some (false, log'))
  unfolding raw_zfs_snapshot snapshot_located
  never_succeeds r l d snapshot log refuses shared =
      elim (Bool-cases (individual_snapshot lib false r snapshot log).0) [
        | inr failed ↦ rw failed (_, refl)
        | inl one ↦
            let log₁ = (individual_snapshot lib false r snapshot log).1 in
            elim (Bool-cases (individual_snapshot lib false l snapshot log₁).0) [
              | inr failed ↦ rw (one, failed) (_, refl)
              | inl two ↦
                  let failed =
                    second_time false d snapshot _ refuses
                      (both_taken r l d snapshot log refuses shared one two) in
                  rw (one, two) (answers_false _ failed)
            ]
      ]

  -- Where / and /usr/local are on two pools, and the package database is on the file system of one of
  -- them, the method is suitable, without recursion; but as libzfs refuses to take a snapshot twice, the
  -- snapshots that it then asks for never succeed.
  pub raw_zfs_snapshot-never :
      (r l d snapshot : Name) (log : List Event)
      → RefusesTwice lib
      → uzfs_same_pool lib r l ≡ false
      → (d ≡ r) ⊎ (d ≡ l)
      → (raw_zfs_suitable lib true (all_on_zfs r l d) ≡ some (bm_ok, some false))
        × (log' : List Event) × (raw_zfs_snapshot lib false (all_on_zfs r l d) snapshot log
            ≡ some (false, log'))
  unfolding raw_zfs_suitable
  raw_zfs_snapshot-never r l d snapshot log refuses pools shared =
      let (log', e) = never_succeeds r l d snapshot log refuses shared in (rw pools refl, log', e)
