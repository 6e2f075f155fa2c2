-- ===== src/Services/Db/Scan.antt =====
-- The scan of the rc.d directories in plugins/services/services_db.c.
--
-- A directory is what readdir answers, with what the later calls answer for each entry. A failing
-- assertion is `none`.
use freebsd_pkg_plugins.Base.{
  ℕ, ◌||◌, Bool, true, false, not, Option, none, some, List, [], ◌∷◌, ◌++◌, if◌then◌else◌,
  same_text, codes,
}
use mathlib.Core.Option
use freebsd_pkg_plugins.Services.Db.{
  Text, Script, ServicesDb, find_script, find_entry, parse_rc_d_script,
}
use freebsd_pkg_plugins.Services.Db.Packages.{Owner, pkg_from_rc_d_script}
use freebsd_pkg_plugins.Services.RcOrder.Relations.{Relations, scan_relations, no_relations}

-- `path` is what path_join answers; `regular` what stat(2) answers, none where it fails; `owner` is
-- what pkg answers for the path, `lines` what the file holds, none where fopen fails.
pub record Dirent : Type 0 where
  pub d_name : Text
  pub path : Option Text
  pub regular : Option Bool
  pub owner : Option (Option Owner)
  pub lines : Option (List Text)

-- what register_script makes
abbrev pub new_script : ℕ → Text → Script
new_script name path = record {
  name = name;
  path = path;
  pkg = none;
  befores = [];
  requires = [];
  keywords = [];
}

module _ (name_of : Text → ℕ) where
  -- The assertion is that the name is new.
  unfoldable pub register_script : ServicesDb → Text → Text → Option ServicesDb
  register_script db name path = elim (find_script (name_of name) db.scripts) [
    | some s ↦ none
    | none ↦ some (record db { scripts = db.scripts ++ new_script (name_of name) path ∷ [] })
  ]

  -- a script, once it is registered: whether to go on, and the database
  unfoldable pub load_script : (has_pkg_db : Bool) → ServicesDb → Dirent → Bool × ServicesDb
  unfolding parse_rc_d_script pkg_from_rc_d_script
  load_script has_pkg_db db dp =
      let script = name_of dp.d_name in
      let r : Bool × ServicesDb =
        if has_pkg_db then pkg_from_rc_d_script db script dp.owner else (true, db) in
      if r.0 then parse_rc_d_script name_of r.1 script dp.lines else (false, r.1)

  -- The body of the loop, in three parts: whether to go on, and the database.
  unfoldable pub read_regular :
      (has_pkg_db : Bool) → ServicesDb → Dirent → Text → Option Bool → Option (Bool × ServicesDb)
  unfolding register_script load_script
  read_regular has_pkg_db db dp path none = some (false, db)
  read_regular has_pkg_db db dp path (some false) = some (true, db)
  read_regular has_pkg_db db dp path (some true) = elim (register_script db dp.d_name path) [
    | none ↦ none
    | some db₁ ↦ some (load_script has_pkg_db db₁ dp)
  ]

  unfoldable pub read_path :
      (has_pkg_db : Bool) → ServicesDb → Dirent → Option Text → Option (Bool × ServicesDb)
  unfolding read_regular
  read_path has_pkg_db db dp none = some (false, db)
  read_path has_pkg_db db dp (some path) = read_regular has_pkg_db db dp path dp.regular

  unfoldable pub read_entry : (has_pkg_db : Bool) → ServicesDb → Dirent → Option (Bool × ServicesDb)
  unfolding read_path
  read_entry has_pkg_db db dp =
      if same_text (codes ".") dp.d_name || same_text (codes "..") dp.d_name
      then some (true, db)
      else read_path has_pkg_db db dp dp.path

  unfoldable pub readdir_loop :
      (has_pkg_db : Bool) → ServicesDb → List Dirent → Option (Bool × ServicesDb)
  unfolding read_entry
  readdir_loop has_pkg_db db [] = some (true, db)
  readdir_loop has_pkg_db db (dp ∷ dps) = elim (read_entry has_pkg_db db dp) [
    | none ↦ none
    | some r ↦ elim (r.0) [ true ↦ readdir_loop has_pkg_db r.1 dps | false ↦ some (false, r.1) ]
  ]

  -- `directory` is none where opendir fails
  unfoldable pub scan_rc_d_directory :
      (has_pkg_db : Bool)
      → ServicesDb
      → (directory : Option (List Dirent)) → Option (Bool × ServicesDb)
  unfolding readdir_loop
  scan_rc_d_directory has_pkg_db db none = some (false, db)
  scan_rc_d_directory has_pkg_db db (some dps) = readdir_loop has_pkg_db db dps

  abbrev pub names_of : List Script → List ℕ
  names_of [] = []
  names_of (s ∷ ss) = s.name ∷ names_of ss

  abbrev pub requires_of : ServicesDb → ℕ → List ℕ
  requires_of db s = elim (find_script s db.scripts) [ none ↦ [] | some x ↦ x.requires ]

  abbrev pub befores_of : ServicesDb → ℕ → List ℕ
  befores_of db s = elim (find_script s db.scripts) [ none ↦ [] | some x ↦ x.befores ]

  -- What services_db_scan_system leaves: whether it succeeded, the tables, the relations, the roots.
  pub record ScannedSystem : Type 0 where
    pub succeeded : Bool
    pub db : ServicesDb
    pub relations : Relations
    pub roots : List ℕ

  abbrev pub stopped : ServicesDb → ScannedSystem
  stopped db = record { succeeded = false; db = db; relations = no_relations; roots = [] }

  abbrev pub related : ServicesDb → Relations × List ℕ → ScannedSystem
  related db (r, roots) = record { succeeded = true; db = db; relations = r; roots = roots }

  -- the relations and the roots, once both directories are scanned
  unfoldable pub relate_system : Bool × ServicesDb → ScannedSystem
  relate_system (false, db) = stopped db
  relate_system (true, db) = related db (
      scan_relations (λ n. find_entry n db.provides) (requires_of db) (befores_of db)
        (names_of db.scripts))

  unfoldable pub scan_local : Bool × ServicesDb → Option (List Dirent) → Bool → Option ScannedSystem
  unfolding scan_rc_d_directory relate_system
  scan_local (false, db) local joined = some (stopped db)
  scan_local (true, db) local joined =
      if not joined
      then some (stopped db)
      else Option.map relate_system (scan_rc_d_directory true db local)

  -- `joined` is whether the path below LOCALBASE fits its buffer
  unfoldable pub services_db_scan_system :
      ServicesDb → (base local : Option (List Dirent)) (joined : Bool) → Option ScannedSystem
  unfolding scan_local
  services_db_scan_system db base local joined = elim (scan_rc_d_directory true db base) [
    | none ↦ none
    | some r ↦ scan_local r local joined
  ]
