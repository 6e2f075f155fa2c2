-- ===== src/Sqlite/Opened.antt =====
-- With which rights sqlite_open opens a database.
use freebsd_pkg_plugins.Base.{◌≡◌, ◌↔◌, Bool, true, false, Option, none, some, arith, ℤ, is_some}
use freebsd_pkg_plugins.Sqlite.{
  Stat, stat_found, stat_missing, stat_failed, epkg_ok, epkg_nodb, OpenFlags, open_readwrite,
  open_create, Opening, sqlite_open,
}

-- how a database may be opened, by the answer of stat and by the user
pub record IsAllowed (stat : Stat) (root write : Bool) (r : Opening) : Type 0 where
  pub creates : r.opened ≡ some open_create → (root ≡ true) × (stat ≡ stat_missing)
  pub writes : r.opened ≡ some open_readwrite → (root ≡ true) × (write ≡ true) × (stat ≡ stat_found)
  pub missing : (r.status ≡ epkg_nodb) ↔ ((root ≡ false) × (stat ≡ stat_missing))
  pub unopened : r.status ≡ epkg_nodb → r.opened ≡ none
  pub given : (r.status ≡ epkg_ok) ↔ (is_some r.dbh ≡ true)

module _ (write ready : Bool) (opens : OpenFlags → Bool) (prepares : Bool)
    (version : Option ℤ) where
  -- The file is opened for creation by root alone, where it is missing; for writing by root alone, on
  -- request, where it is there; by the others for reading at most, and for them a missing file is
  -- EPKG_ENODB and nothing is opened. The handle is set exactly on EPKG_OK.
  pub sqlite_open-IsAllowed :
      (stat : Stat) (root : Bool)
      → IsAllowed stat root write (sqlite_open stat root write ready opens prepares version)
  unfolding sqlite_open
  sqlite_open-IsAllowed stat_found true = ground arith
  sqlite_open-IsAllowed stat_found false = ground arith
  sqlite_open-IsAllowed stat_missing true = ground arith
  sqlite_open-IsAllowed stat_missing false = ground arith
  sqlite_open-IsAllowed stat_failed root = ground arith
