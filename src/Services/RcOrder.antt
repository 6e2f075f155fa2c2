-- ===== src/Services/RcOrder.antt =====
-- The options of plugins/services/rcorder.c, and the walk over the rc.d scripts of
-- plugins/services/services_db.c that they steer.
--
-- A script is named by its address; the database is read through functions on it. The table
-- `visited` has scripts as keys and no values: it is the list of its keys.
pub mod Keep
pub mod Covered
pub mod Order
pub mod Relations
pub mod Roots
pub mod Visit
use freebsd_pkg_plugins.Base.{
  ℕ, zero, suc, ◌+◌, ◌-◌, ◌%◌, Bool, true, false, not, ◌&&◌, ◌||◌, Option, none, some, List, [],
  ◌∷◌, ◌++◌, ◌==◌, if◌then◌else◌, is_some, word_size,
}
use freebsd_pkg_plugins.HashTable.{
  HashTable, Ptr, Put, ◌>>=◌, hashtable_put, hashtable_get, hashtable_init,
}

-- `rcorder_action_t`, as the number that the table `ks` holds
abbrev pub action_none : ℕ
action_none = 0

abbrev pub action_keep : ℕ
action_keep = 1

abbrev pub action_skip : ℕ
action_skip = 2

pub record RcOrderOptions : Type 0 where
  pub keep_count : ℕ
  pub reverse : Bool
  pub include_orphans : Bool
  pub ks : HashTable

-- `hash` and `equal` are `ascii_hash_cs` and `ascii_equal_cs` on the texts at two addresses.
unfoldable pub rcorder_options_create : (hash : ℕ → ℕ) (equal : ℕ → ℕ → Bool) → RcOrderOptions
rcorder_options_create hash equal = record {
  keep_count = 0;
  reverse = false;
  include_orphans = false;
  ks = hashtable_init 8 (some hash) (some equal) none false false;
}

unfoldable pub rcorder_options_set_reverse : RcOrderOptions → Bool → RcOrderOptions
rcorder_options_set_reverse ro reverse = record ro { reverse = reverse }

unfoldable pub rcorder_options_set_include_orphans : RcOrderOptions → Bool → RcOrderOptions
rcorder_options_set_include_orphans ro orphans = record ro { include_orphans = orphans }

-- how `keep_count`, a `size_t`, follows an action that replaces another
unfoldable pub recount : ℕ → ℕ → ℕ → ℕ
recount action old n =
    if action == action_keep && not (old == action_keep)
    then (n + 1) % word_size
    else if action == action_skip && old == action_keep
    then (n + word_size - 1) % word_size
    else n

-- The action replaced is the answer; `action_none` where the keyword is new.
abbrev pub old_action : Option ℕ → ℕ
old_action none = action_none
old_action (some a) = a

unfoldable pub rcorder_options_add_ks :
    (fresh : Ptr) → RcOrderOptions → ℕ → ℕ → Option (ℕ × RcOrderOptions)
unfolding recount
rcorder_options_add_ks fresh ro name action = do
  r ← hashtable_put fresh ro.ks false name action
  let old = old_action r.oldvalue
  some (old, record ro { ks = r.table; keep_count = recount action old ro.keep_count })

-- The loop over the keywords of a script; `none` is a fault of the table.
unfoldable pub keep_loop : HashTable → ℕ → List ℕ → Option ℕ
keep_loop ks action [] = some action
keep_loop ks action (kw ∷ kws) = if action == action_skip then some action else do
  found ← hashtable_get ks kw
  keep_loop ks (elim found [ none ↦ action | some a ↦ a ]) kws

unfoldable pub keep_script : RcOrderOptions → List ℕ → Option Bool
unfolding keep_loop
keep_script ro keywords = do
  action ← keep_loop ro.ks action_none keywords
  some (action == action_keep || (action == action_none && ro.keep_count == 0))

-- the variable `keep` of `visit_script_bis`, for a script that is or is not of a package
unfoldable pub keep_flag : RcOrderOptions → (packaged : Bool) → List ℕ → Option Bool
unfolding keep_script
keep_flag ro packaged keywords =
    if ro.include_orphans || packaged then keep_script ro keywords else some false

abbrev pub has : ℕ → List ℕ → Bool
has a [] = false
has a (x ∷ xs) = (a == x) || has a xs

-- `keep` is the value of the variable of that name for each script.
module _ (children : ℕ → List ℕ) (keep : ℕ → Bool) (reverse : Bool) where
  -- the loop over the children, with the call for one of them
  unfoldable pub visit_children :
      (List ℕ → ℕ → Option (List ℕ × List ℕ)) → List ℕ → List ℕ → Option (List ℕ × List ℕ)
  visit_children visit seen [] = some (seen, [])
  visit_children visit seen (c ∷ cs) = elim (has c seen) [
    | true ↦ visit_children visit seen cs
    | false ↦ do
      (seen₁, out₁) ← visit seen c
      (seen₂, out₂) ← visit_children visit seen₁ cs
      some (seen₂, out₁ ++ out₂)
  ]

  -- where the callback on the script itself stands among those on its children
  unfoldable pub emit : ℕ → List ℕ → List ℕ
  emit s out = if keep s then (if reverse then s ∷ out else out ++ s ∷ []) else out

  -- `visit_script_bis`: the visited scripts afterwards, and the calls of the callback in order.
  unfoldable pub visit_script : (fuel : ℕ) → List ℕ → ℕ → Option (List ℕ × List ℕ)
  unfolding visit_children emit
  visit_script zero seen s = none
  visit_script (suc k) seen s = do
    (seen', out) ← visit_children (visit_script k) (s ∷ seen) (children s)
    some (seen', emit s out)

  -- the loop of `services_db_rcorder_iter` over the roots
  unfoldable pub roots_loop : (fuel : ℕ) → List ℕ → List ℕ → Option (List ℕ × List ℕ)
  roots_loop k seen [] = some (seen, [])
  roots_loop k seen (r ∷ rs) = do
    (seen₁, out₁) ← visit_script k seen r
    (seen₂, out₂) ← roots_loop k seen₁ rs
    some (seen₂, out₁ ++ out₂)
