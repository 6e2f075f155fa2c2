-- ===== src/Services/Db/Scanned.antt =====
-- A scan of a directory keeps packages and scripts in agreement.
use freebsd_pkg_plugins.Base.{
  ℕ, ◌≡◌, refl, subst, sym, ap, ◌∙◌, Bool, Bool-cases, Option-cases, true, false, ◌||◌, Option,
  none, some, List, [], ◌∷◌, ◌++◌, ◌==◌, ==→eq, ==_refl, if◌then◌else◌, inl, inr, arith, same_text,
  codes,
}
use freebsd_pkg_plugins.Services.Db.{Text, Script, ServicesDb, find_script}
use freebsd_pkg_plugins.Services.Db.Packages.{pkg_from_rc_d_script}
use freebsd_pkg_plugins.Services.Db.Scan.{
  Dirent, new_script, register_script, load_script, read_regular, read_path, read_entry,
  readdir_loop, scan_rc_d_directory,
}
use freebsd_pkg_plugins.Services.Db.Owned.{
  is_of, IsOwned, IsLoose, pkg_from_rc_d_script-IsOwned, parse-IsOwned,
}

find_script-last :
    (t : ℕ) (x : Script) (ss : List Script)
    → find_script x.name ss ≡ none
    → find_script t (ss ++ x ∷ []) ≡ (if t == x.name then some x else find_script t ss)
find_script-last t x [] new = refl
find_script-last t x (y ∷ ss) new = elim (Bool-cases (t == y.name)) [
  | inl hit ↦ let apart : t == x.name ≡ false = ground arith in rw (hit, apart) refl
  | inr miss ↦ rw miss (find_script-last t x ss (ground arith))
]

unowned :
    (s p name : ℕ) (path : Text) (db : ServicesDb)
    → find_script name db.scripts ≡ none
    → is_of p (if s == name then some (new_script name path) else find_script s db.scripts)
      ≡ is_of p (find_script s db.scripts)
unowned s p name path db new = elim (Bool-cases (s == name)) [
  | inr other ↦ rw other refl
  | inl same ↦
      rw same (ap (is_of p) (sym (ap (λ k. find_script k db.scripts) (==→eq s name same) ∙ new)))
]

-- A script that is registered is of no package yet.
new_script-registered :
    (db : ServicesDb) (name : ℕ) (path : Text)
    → find_script name db.scripts ≡ none
    → IsOwned db
    → let db' = record db { scripts = db.scripts ++ new_script name path ∷ [] } in
      IsLoose name db' × IsOwned db'
new_script-registered db name path new is = (
  (
    new_script name path,
    find_script-last name (new_script name path) db.scripts new ∙ (rw (==_refl name)),
    refl,
  ),
  λ s p.
      is s p
      ∙ sym (
          ap (is_of p) (find_script-last s (new_script name path) db.scripts new)
          ∙ unowned s p name path db new),
)

-- what a scan leaves, if it does not fail an assertion
abbrev AllOwned : Option (Bool × ServicesDb) → Type 0
AllOwned none = Unit {0}
AllOwned (some (ok, db)) = IsOwned db

-- what registering leaves
abbrev Registered : ℕ → Option ServicesDb → Type 0
Registered name none = Unit {0}
Registered name (some db) = IsLoose name db × IsOwned db

module _ (name_of : Text → ℕ) (has_pkg_db : Bool) where
  load_script-IsOwned :
      (db : ServicesDb) (dp : Dirent)
      → IsLoose (name_of dp.d_name) db
      → IsOwned db
      → IsOwned (load_script name_of has_pkg_db db dp).1
  unfolding load_script
  load_script-IsOwned db dp loose is = elim (Bool-cases has_pkg_db) [
    | inr without ↦ rw without (parse-IsOwned name_of db (name_of dp.d_name) dp.lines is)
    | inl asked ↦
        let r = pkg_from_rc_d_script db (name_of dp.d_name) dp.owner in
        let fine = pkg_from_rc_d_script-IsOwned db (name_of dp.d_name) dp.owner loose is in
        rw asked (elim (Bool-cases r.0) [
          | inl ok ↦ rw ok (parse-IsOwned name_of r.1 (name_of dp.d_name) dp.lines fine)
          | inr failed ↦ rw failed fine
        ])
  ]

  register_script-known :
      (db : ServicesDb) (name path : Text) (x : Script)
      → find_script (name_of name) db.scripts ≡ some x
      → register_script name_of db name path ≡ none
  unfolding register_script
  register_script-known db name path x old = rw (register_script, old) refl

  register_script-new :
      (db : ServicesDb) (name path : Text)
      → find_script (name_of name) db.scripts ≡ none
      → register_script name_of db name path
        ≡ some (record db { scripts = db.scripts ++ new_script (name_of name) path ∷ [] })
  unfolding register_script
  register_script-new db name path new = rw (register_script, new) refl

  register_script-Registered :
      (db : ServicesDb) (name path : Text)
      → IsOwned db
      → Registered (name_of name) (register_script name_of db name path)
  unfolding register_script
  register_script-Registered db name path is =
      elim (Option-cases (find_script (name_of name) db.scripts)) [
        | inr (x, old) ↦
            subst (Registered (name_of name)) (sym (register_script-known db name path x old)) tt
        | inl new ↦
            subst (Registered (name_of name)) (sym (register_script-new db name path new))
              (new_script-registered db (name_of name) path new is)
      ]

  read_regular-AllOwned :
      (db : ServicesDb) (dp : Dirent) (path : Text) (regular : Option Bool)
      → IsOwned db
      → AllOwned (read_regular name_of has_pkg_db db dp path regular)
  unfolding read_regular
  read_regular-AllOwned db dp path none is = is
  read_regular-AllOwned db dp path (some false) is = is
  read_regular-AllOwned db dp path (some true) is =
      loaded (register_script name_of db dp.d_name path)
        (register_script-Registered db dp.d_name path is)
    where
      loaded :
          (o : Option ServicesDb)
          → Registered (name_of dp.d_name) o
          → AllOwned
              (elim o [ none ↦ none | some db₁ ↦ some (load_script name_of has_pkg_db db₁ dp) ])
      loaded none h = tt
      loaded (some db₁) h = load_script-IsOwned db₁ dp h.0 h.1

  read_entry-AllOwned :
      (db : ServicesDb) (dp : Dirent) → IsOwned db → AllOwned (read_entry name_of has_pkg_db db dp)
  unfolding read_entry
  read_entry-AllOwned db dp is =
      elim (Bool-cases (same_text (codes ".") dp.d_name || same_text (codes "..") dp.d_name)) [
        | inl dots ↦ rw dots is
        | inr named ↦ rw named (by_path dp.path)
      ]
    where
      by_path : (path : Option Text) → AllOwned (read_path name_of has_pkg_db db dp path)
      by_path none = is
      by_path (some path) = read_regular-AllOwned db dp path dp.regular is

  readdir_loop-AllOwned :
      (db : ServicesDb) (dps : List Dirent)
      → IsOwned db
      → AllOwned (readdir_loop name_of has_pkg_db db dps)
  unfolding readdir_loop
  readdir_loop-AllOwned db [] is = is
  readdir_loop-AllOwned db (dp ∷ dps) is =
      continued (read_entry name_of has_pkg_db db dp) (read_entry-AllOwned db dp is)
        (λ db' is'. readdir_loop-AllOwned db' dps is')
    where
      continued :
          (o : Option (Bool × ServicesDb))
          → AllOwned o
          → ((db' : ServicesDb) → IsOwned db' → AllOwned (readdir_loop name_of has_pkg_db db' dps))
          → AllOwned (elim o [
            | none ↦ none
            | some r ↦ elim (r.0) [
              | true ↦ readdir_loop name_of has_pkg_db r.1 dps
              | false ↦ some (false, r.1)
            ]
          ])
      continued none h next = tt
      continued (some (true, db')) h next = next db' h
      continued (some (false, db')) h next = h

  -- Whatever readdir, stat, pkg and the files answer, a scan of a directory that fails no assertion
  -- leaves packages and scripts in agreement, if they were: a package lists a script exactly where the
  -- script names the package. This holds also where the scan stops early.
  pub scan_rc_d_directory-IsOwned :
      (db db' : ServicesDb) (directory : Option (List Dirent)) (ok : Bool)
      → IsOwned db
      → scan_rc_d_directory name_of has_pkg_db db directory ≡ some (ok, db')
      → IsOwned db'
  unfolding scan_rc_d_directory
  scan_rc_d_directory-IsOwned db db' none ok is e = subst AllOwned e is
  scan_rc_d_directory-IsOwned db db' (some dps) ok is e =
      subst AllOwned e (readdir_loop-AllOwned db dps is)
