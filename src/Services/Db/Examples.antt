-- ===== src/Services/Db/Examples.antt =====
-- The theorems on the database of scripts at small scripts and directories.
use freebsd_pkg_plugins.Base.{ℕ, ◌+◌, ◌*◌, ◌≡◌, refl, true, none, some, List, [], ◌∷◌, ◌++◌, codes}
use freebsd_pkg_plugins.Services.Db.{
  Text, Script, ServicesDb, tokens, services_db_create, parse_rc_d_script, magic_require,
  magic_provide, find_magic, rc_d_magic_comments, is_delimiter,
}
use freebsd_pkg_plugins.Services.Db.Parsing.{unwords, words, tokens-unwords, declarations}
use freebsd_pkg_plugins.Services.Db.Tables.{Declares, parse_rc_d_script-Declares}
use freebsd_pkg_plugins.Services.Db.Scan.{Dirent, scan_rc_d_directory}
use freebsd_pkg_plugins.Services.Db.Owned.{IsOwned}
use freebsd_pkg_plugins.Services.Db.Scanned.{scan_rc_d_directory-IsOwned}

abbrev name_of : Text → ℕ
name_of [] = 0
name_of (c ∷ s) = 1 + c + 256 * name_of s

abbrev two_names : List (Text × Text)
two_names = (codes "netif", codes " \t") ∷ (codes "ldconfig", codes "\n") ∷ []

two_names_example : tokens (codes " " ++ unwords two_names) ≡ words two_names
unfolding is_delimiter
two_names_example =
    tokens-unwords (codes " ") two_names (refl, tt)
      (
        (refl, (refl, (refl, (refl, (refl, (refl, tt)))))),
        (refl, (refl, tt)),
        refl,
        ((refl, (refl, (refl, (refl, (refl, (refl, (refl, (refl, (refl, tt))))))))), (refl, tt)),
      )

abbrev script_lines : List Text
script_lines =
    codes "#!/bin/sh"
    ∷ codes "# PROVIDE: nginx"
    ∷ codes "# REQUIRE: LOGIN cleanvar"
    ∷ codes "name=nginx"
    ∷ codes "# PROVIDE: other"
    ∷ []

declarations_test : declarations name_of script_lines ≡ (
    (magic_provide, name_of (codes "nginx"))
    ∷ (magic_require, name_of (codes "LOGIN"))
    ∷ (magic_require, name_of (codes "cleanvar"))
    ∷ [])
unfolding find_magic rc_d_magic_comments tokens
declarations_test = refl

abbrev empty_script : ℕ → Script
empty_script n = record {
  name = n;
  path = codes "/etc/rc.d/nginx";
  pkg = none;
  befores = [];
  requires = [];
  keywords = [];
}

abbrev one_script : ServicesDb
one_script = record { scripts = empty_script 1 ∷ []; provides = []; keywords = []; packages = [] }

parse_example :
    ((parse_rc_d_script name_of one_script 1 (some script_lines)).0 ≡ true)
    × Declares one_script 1
        (declarations name_of script_lines)
        (parse_rc_d_script name_of one_script 1 (some script_lines)).1
parse_example = parse_rc_d_script-Declares name_of one_script 1 script_lines

abbrev nginx : Dirent
nginx = record {
  d_name = codes "nginx";
  path = some (codes "/usr/local/etc/rc.d/nginx");
  regular = some true;
  owner = some (some (record { pkg_name = 5; providers = (6 ∷ []) ∷ [] }));
  lines = some script_lines;
}

-- the database after the scan of a directory with this script alone
abbrev scanned_db : ServicesDb
scanned_db = record {
  scripts =
      record (empty_script (name_of (codes "nginx"))) {
        path = codes "/usr/local/etc/rc.d/nginx";
        pkg = some 5;
        requires = name_of (codes "LOGIN") ∷ name_of (codes "cleanvar") ∷ [];
      }
      ∷ [];
  provides = (name_of (codes "nginx"), name_of (codes "nginx") ∷ []) ∷ [];
  keywords = [];
  packages =
      (5, record { rshlibs = []; owned = name_of (codes "nginx") ∷ [] })
      ∷ (6, record { rshlibs = name_of (codes "nginx") ∷ []; owned = [] })
      ∷ [];
}

scan_test :
    scan_rc_d_directory name_of true services_db_create (some (nginx ∷ []))
    ≡ some (true, scanned_db)
unfolding scan_rc_d_directory services_db_create
scan_test = refl

scan_example : IsOwned scanned_db
unfolding services_db_create
scan_example =
    scan_rc_d_directory-IsOwned name_of true services_db_create scanned_db (some (nginx ∷ [])) true
      (λ s p. refl) scan_test

-- a second script of the name fails the assertion of register_script
twice_test : scan_rc_d_directory name_of true services_db_create (some (nginx ∷ nginx ∷ [])) ≡ none
unfolding scan_rc_d_directory services_db_create
twice_test = refl
