-- ===== src/Services/Db/Retrieved.antt =====
-- The table of packages of services_db.c after package_retrieve and after a change.
use freebsd_pkg_plugins.Base.{
  ℕ, ◌≡◌, refl, Bool, Bool-cases, Option-cases, true, false, ◌||◌, some, List, [], ◌∷◌, ◌++◌, ◌==◌,
  ==_refl, if◌then◌else◌, inl, inr, arith,
}
use freebsd_pkg_plugins.Services.Db.{Package, ServicesDb, find_entry, change_entry}
use freebsd_pkg_plugins.Services.Db.Packages.{no_scripts, package_of, package_retrieve}

package_of-append :
    (p name : ℕ) (t : List (ℕ × Package))
    → package_of p (t ++ (name, no_scripts) ∷ []) ≡ package_of p t
package_of-append p name [] = ground arith
package_of-append p name ((k, v) ∷ t) = elim (Bool-cases (p == k)) [
  | inl hit ↦ rw hit refl
  | inr miss ↦ rw miss (package_of-append p name t)
]

-- the name has an entry
abbrev pub known : ℕ → List (ℕ × Package) → Bool
known name [] = false
known name ((k, v) ∷ t) = (name == k) || known name t

pub package_of-change :
    (p name : ℕ) (v : Package) (t : List (ℕ × Package))
    → known name t ≡ true
    → package_of p (change_entry name v t) ≡ (if p == name then v else package_of p t)
package_of-change p name v [] e = cc
package_of-change p name v ((k, w) ∷ t) e = elim (Bool-cases (name == k)) [
  | inl hit ↦ elim (Bool-cases (p == name)) [
    | inl same ↦ let there : p == k ≡ true = ground arith in rw (hit, same, there) refl
    | inr other ↦ let apart : p == k ≡ false = ground arith in rw (hit, other, apart) refl
  ]
  | inr miss ↦ elim (Bool-cases (p == k)) [
    | inl there ↦ let apart : p == name ≡ false = ground arith in rw (miss, there, apart) refl
    | inr elsewhere ↦ rw (miss, elsewhere) (package_of-change p name v t (ground arith))
  ]
]

known-found :
    (name : ℕ) (v : Package) (t : List (ℕ × Package))
    → find_entry name t ≡ some v
    → known name t ≡ true
known-found name v [] e = cc
known-found name v ((k, w) ∷ t) e = ground (arith, known-found name v t)

known-append :
    (name : ℕ) (v : Package) (t : List (ℕ × Package)) → known name (t ++ (name, v) ∷ []) ≡ true
known-append name v [] = ground (arith, ==_refl name)
known-append name v ((k, w) ∷ t) = ground (arith, known-append name v t)

-- after the look up, the name has an entry, and every package and script is as before
abbrev Retrieved : ServicesDb → ℕ → ServicesDb → Type 0
Retrieved db name db' =
    (known name db'.packages ≡ true)
    × ((p : ℕ) → package_of p db'.packages ≡ package_of p db.packages)
    × (db'.scripts ≡ db.scripts)

pub package_retrieve-Retrieved :
    (db : ServicesDb) (name : ℕ) → Retrieved db name (package_retrieve db name)
unfolding package_retrieve
package_retrieve-Retrieved db name = elim (Option-cases (find_entry name db.packages)) [
  | inl e ↦
      rw (package_retrieve, e)
        (known-append name no_scripts db.packages, λ p. package_of-append p name db.packages, refl)
  | inr (v, e) ↦ rw (package_retrieve, e) (known-found name v db.packages e, λ p. refl, refl)
]
