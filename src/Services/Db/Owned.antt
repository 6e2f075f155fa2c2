-- ===== src/Services/Db/Owned.antt =====
-- Packages and their rc.d scripts: each says the same of the other, whatever a scan meets.
use freebsd_pkg_plugins.Base.{
  ℕ, ◌≡◌, refl, sym, ap, ◌∙◌, Bool, Bool-cases, true, false, ◌||◌, Option, none, some, List, [],
  ◌∷◌, ◌++◌, ◌==◌, ==→eq, if◌then◌else◌, inl, inr, arith,
}
use mathlib.Core.Option
use freebsd_pkg_plugins.Services.RcOrder.{has}
use freebsd_pkg_plugins.Services.RcOrder.Relations.{dlist_insert_unique, has-last}
use freebsd_pkg_plugins.Services.Db.{
  Text, Script, Package, ServicesDb, find_script, Magic, parse_rc_d_script,
}
use freebsd_pkg_plugins.Services.Db.Tables.{parse_rc_d_script-Declares, declare}
use freebsd_pkg_plugins.Services.Db.Entries.{find_script-change}
use freebsd_pkg_plugins.Services.Db.Parsing.{declarations}
use freebsd_pkg_plugins.Services.Db.Packages.{
  Owner, package_of, package_retrieve, change_package, associate_package_to_script, note_rshlib,
  provider_loop, shlib_loop, pkg_from_rc_d_script,
}
use freebsd_pkg_plugins.Services.Db.Retrieved.{known, package_of-change, package_retrieve-Retrieved}

-- whether the script that was looked up is of this package
abbrev pub is_of : ℕ → Option Script → Bool
is_of p none = false
is_of p (some s) = elim s.pkg [ none ↦ false | some q ↦ p == q ]

-- A package lists a script exactly where the script names the package.
abbrev pub IsOwned : ServicesDb → Type 0
IsOwned db = (s p : ℕ) → has s (package_of p db.packages).owned ≡ is_of p (find_script s db.scripts)

-- what keeps the lists of scripts and the scripts keeps the agreement
IsOwned-same :
    (db db' : ServicesDb)
    → ((p : ℕ) → (package_of p db'.packages).owned ≡ (package_of p db.packages).owned)
    → db'.scripts ≡ db.scripts
    → IsOwned db
    → IsOwned db'
IsOwned-same db db' packages scripts is s p =
    ap (has s) (packages p) ∙ is s p ∙ ap (λ ss. is_of p (find_script s ss)) (sym scripts)

owned-change :
    (p name : ℕ) (f : Package → Package) (db : ServicesDb)
    → known name db.packages ≡ true
    → ((q : Package) → (f q).owned ≡ q.owned)
    → (package_of p (change_package name f db).packages).owned ≡ (package_of p db.packages).owned
owned-change p name f db there keeps =
    ap (λ q. q.owned) (package_of-change p name (f (package_of name db.packages)) db.packages there)
    ∙ elim (Bool-cases (p == name)) [
      | inl same ↦ rw same (
          keeps (package_of name db.packages)
          ∙ ap (λ k. (package_of k db.packages).owned) (sym (==→eq p name same)))
      | inr other ↦ rw other refl
    ]

note_rshlib-IsOwned :
    (db : ServicesDb) (script name : ℕ) → IsOwned db → IsOwned (note_rshlib db script name)
unfolding note_rshlib
note_rshlib-IsOwned db script name is =
    let r = package_retrieve-Retrieved db name in
    IsOwned-same db (note_rshlib db script name)
      (λ p.
        owned-change p name (λ q. record q { rshlibs = dlist_insert_unique q.rshlibs script })
          (package_retrieve db name) r.0 (λ q. refl)
        ∙ ap (λ (q : Package). q.owned) (r.1 p))
      r.2 is

provider_loop-IsOwned :
    (db : ServicesDb) (script : ℕ) (names : List ℕ)
    → IsOwned db
    → IsOwned (provider_loop db script names)
unfolding provider_loop
provider_loop-IsOwned db script [] is = is
provider_loop-IsOwned db script (name ∷ names) is =
    provider_loop-IsOwned (note_rshlib db script name) script names
      (note_rshlib-IsOwned db script name is)

shlib_loop-IsOwned :
    (db : ServicesDb) (script : ℕ) (shlibs : List (List ℕ))
    → IsOwned db
    → IsOwned (shlib_loop db script shlibs)
unfolding shlib_loop
shlib_loop-IsOwned db script [] is = is
shlib_loop-IsOwned db script (names ∷ shlibs) is =
    shlib_loop-IsOwned (provider_loop db script names) script shlibs
      (provider_loop-IsOwned db script names is)

-- a script that is registered, and of no package yet
abbrev pub IsLoose : ℕ → ServicesDb → Type 0
IsLoose script db = (x : Script) × (find_script script db.scripts ≡ some x) × (x.pkg ≡ none)

-- what the new owner makes of the looked up script
owner_of :
    (p name s script : ℕ) (o : Option Script)
    → (s == script ≡ true → (x : Script) × (o ≡ some x) × (x.pkg ≡ none))
    → is_of p
        (if s == script then Option.map (λ (x : Script). record x { pkg = some name }) o else o)
      ≡ (if p == name then (s == script) || is_of p o else is_of p o)
owner_of p name s script o loose = elim (Bool-cases (s == script)) [
  | inr other ↦ rw other (ground arith)
  | inl same ↦
      let (x, found, free) = loose same in
      rw (same, found)
        (elim (Bool-cases (p == name)) [
          | inl here ↦ rw here refl
          | inr there ↦ rw (there, free) refl
        ])
]

owned-append :
    (s p name script : ℕ) (packages : List (ℕ × Package))
    → has s
        (if◌then◌else◌ {A = Package}
          (p == name)
          (record (package_of name packages) {
            owned = (package_of name packages).owned ++ script ∷ [];
          })
          (package_of p packages)).owned
      ≡ (if p == name
          then (s == script) || has s (package_of p packages).owned
          else has s (package_of p packages).owned)
owned-append s p name script packages = elim (Bool-cases (p == name)) [
  | inr other ↦ rw other refl
  | inl same ↦ rw same (
      has-last s script (package_of name packages).owned
      ∙ ap (λ k. (s == script) || has s (package_of k packages).owned) (sym (==→eq p name same)))
]

associate-IsOwned :
    (db : ServicesDb) (script name : ℕ)
    → known name db.packages ≡ true
    → IsLoose script db
    → IsOwned db
    → IsOwned (associate_package_to_script db script name)
unfolding associate_package_to_script
associate-IsOwned db script name there (x, found, loose) is s p =
    ap (λ q. has s q.owned) (package_of-change p name _ db.packages there)
    ∙ owned-append s p name script db.packages
    ∙ ap (λ b. if p == name then (s == script) || b else b) (is s p)
    ∙ sym (
        ap (is_of p) (find_script-change _ s script db.scripts (λ y. refl))
        ∙ owner_of p name s script (find_script s db.scripts)
            (λ same. (x, ap (λ k. find_script k db.scripts) (==→eq s script same) ∙ found, loose)))

pub pkg_from_rc_d_script-IsOwned :
    (db : ServicesDb) (script : ℕ) (answer : Option (Option Owner))
    → IsLoose script db
    → IsOwned db
    → IsOwned (pkg_from_rc_d_script db script answer).1
unfolding pkg_from_rc_d_script
pkg_from_rc_d_script-IsOwned db script none loose is = is
pkg_from_rc_d_script-IsOwned db script (some none) loose is = is
pkg_from_rc_d_script-IsOwned db script (some (some owner)) (x, found, free) is =
    let r = package_retrieve-Retrieved db owner.pkg_name in
    shlib_loop-IsOwned _ script owner.providers (
      associate-IsOwned (package_retrieve db owner.pkg_name) script owner.pkg_name r.0
        (x, ap (find_script script) r.2 ∙ found, free)
        (IsOwned-same db (package_retrieve db owner.pkg_name) (λ p. ap (λ q. q.owned) (r.1 p)) r.2
          is))

-- Parsing leaves the packages of the scripts.
declared-kept :
    (s p script : ℕ) (ds : List (Magic × ℕ)) (o : Option Script)
    → is_of p (if s == script then Option.map (declare ds) o else o) ≡ is_of p o
declared-kept s p script ds none = ground arith
declared-kept s p script ds (some x) = ground arith

pub parse-IsOwned :
    (name_of : Text → ℕ) (db : ServicesDb) (script : ℕ) (lines : Option (List Text))
    → IsOwned db
    → IsOwned (parse_rc_d_script name_of db script lines).1
parse-IsOwned name_of db script none is = unfold parse_rc_d_script in is
parse-IsOwned name_of db script (some lines) is = λ s p.
    let h = (parse_rc_d_script-Declares name_of db script lines).1 in
    ap (λ t. has s (package_of p t).owned) h.packages
    ∙ is s p
    ∙ sym (
        ap (is_of p) (h.declared s)
        ∙ declared-kept s p script (declarations name_of lines) (find_script s db.scripts))
