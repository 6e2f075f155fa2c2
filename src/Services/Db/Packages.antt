-- ===== src/Services/Db/Packages.antt =====
-- The packages that own rc.d scripts, or provide their shared libraries, in
-- plugins/services/services_db.c.
--
-- What pkg answers for the path of a script is an argument: `none` where the query fails, else the
-- owner, if there is one.
use freebsd_pkg_plugins.Base.{
  ℕ, Bool, true, false, Option, none, some, List, [], ◌∷◌, ◌++◌, ◌==◌, if◌then◌else◌,
}
use freebsd_pkg_plugins.Services.RcOrder.Relations.{dlist_insert_unique}
use freebsd_pkg_plugins.Services.Db.{Package, ServicesDb, find_entry, change_entry, change_script}
use freebsd_pkg_plugins.Services.Selection.{
  Selection, ServiceAction, services_selection_add_direct, services_selection_add_rdep,
}

-- The owner's name, and for each shared library that it requires the packages that provide it.
pub record Owner : Type 0 where
  pub pkg_name : ℕ
  pub providers : List (List ℕ)

abbrev pub no_scripts : Package
no_scripts = record { rshlibs = []; owned = [] }

abbrev pub package_of : ℕ → List (ℕ × Package) → Package
package_of name [] = no_scripts
package_of name ((k, p) ∷ packages) = if name == k then p else package_of name packages

-- the table with an entry for the name, made if it is missing
unfoldable pub package_retrieve : ServicesDb → ℕ → ServicesDb
package_retrieve db name = elim (find_entry name db.packages) [
  | none ↦ record db { packages = db.packages ++ (name, no_scripts) ∷ [] }
  | some p ↦ db
]

abbrev pub change_package : ℕ → (Package → Package) → ServicesDb → ServicesDb
change_package name f db = record db {
  packages = change_entry name (f (package_of name db.packages)) db.packages;
}

unfoldable pub associate_package_to_script : ServicesDb → (script name : ℕ) → ServicesDb
associate_package_to_script db script name =
    let db' = change_package name (λ p. record p { owned = p.owned ++ script ∷ [] }) db in
    record db' { scripts = change_script script (λ s. record s { pkg = some name }) db'.scripts }

-- the body of the loop over the packages that provide a library
unfoldable pub note_rshlib : ServicesDb → (script name : ℕ) → ServicesDb
unfolding package_retrieve dlist_insert_unique
note_rshlib db script name =
    change_package name (λ p. record p { rshlibs = dlist_insert_unique p.rshlibs script })
      (package_retrieve db name)

unfoldable pub provider_loop : ServicesDb → ℕ → List ℕ → ServicesDb
unfolding note_rshlib
provider_loop db script [] = db
provider_loop db script (name ∷ names) = provider_loop (note_rshlib db script name) script names

unfoldable pub shlib_loop : ServicesDb → ℕ → List (List ℕ) → ServicesDb
unfolding provider_loop
shlib_loop db script [] = db
shlib_loop db script (names ∷ shlibs) = shlib_loop (provider_loop db script names) script shlibs

unfoldable pub pkg_from_rc_d_script :
    ServicesDb → (script : ℕ) → Option (Option Owner) → Bool × ServicesDb
unfolding package_retrieve associate_package_to_script shlib_loop
pkg_from_rc_d_script db script none = (false, db)
pkg_from_rc_d_script db script (some none) = (true, db)
pkg_from_rc_d_script db script (some (some owner)) = (
  true,
  shlib_loop
      (associate_package_to_script (package_retrieve db owner.pkg_name) script owner.pkg_name)
      script owner.providers,
)

-- The scripts that the iterators of package_to_services_iterator and services_db_rshlib go through.
unfoldable pub package_to_services_iterator : ServicesDb → ℕ → List ℕ
package_to_services_iterator db pkg_name = elim (find_entry pkg_name db.packages) [
  | none ↦ []
  | some p ↦ p.owned
]

unfoldable pub services_db_rshlib : ServicesDb → ℕ → List ℕ
services_db_rshlib db pkg_name = elim (find_entry pkg_name db.packages) [
  | none ↦ []
  | some p ↦ p.rshlibs
]

unfoldable pub add_direct_loop : Selection → ServiceAction → List ℕ → Selection
add_direct_loop ss action [] = ss
add_direct_loop ss action (s ∷ scripts) =
    add_direct_loop (services_selection_add_direct ss s action) action scripts

unfoldable pub add_rdep_loop : Selection → ServiceAction → List ℕ → Selection
add_rdep_loop ss action [] = ss
add_rdep_loop ss action (s ∷ scripts) =
    add_rdep_loop (services_selection_add_rdep ss s action) action scripts

unfoldable pub services_db_add_services_from_package_to_services_selection :
    ServicesDb → Selection → (pkg_name : ℕ) → ServiceAction → (include_rshlibs : Bool) → Selection
unfolding add_direct_loop add_rdep_loop services_db_rshlib
services_db_add_services_from_package_to_services_selection db ss pkg_name action include_rshlibs =
    let direct : Selection = elim (find_entry pkg_name db.packages) [
      | none ↦ ss
      | some p ↦ add_direct_loop ss action p.owned
    ] in
    if include_rshlibs then add_rdep_loop direct action (services_db_rshlib db pkg_name) else direct
