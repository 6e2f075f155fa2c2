-- ===== src/Services/Examples.antt =====
-- The theorems on `pkg rcorder` at three scripts and at one keyword.
use freebsd_pkg_plugins.Base.{
  ℕ, ◌≡◌, refl, true, false, not, ◌&&◌, ◌||◌, Option, none, some, List, [], ◌∷◌, ◌==◌, arith,
  if◌then◌else◌, inl, inr, ◌↔◌,
}
use freebsd_pkg_plugins.HashTable.{index_of, hashtable_hash}
use freebsd_pkg_plugins.HashTable.Index.{index_of-below}
use freebsd_pkg_plugins.HashTable.{
  HashTable, index_of, hashtable_get, hashtable_quick_get, find_loop,
}
use freebsd_pkg_plugins.HashTable.Chains.{IsValid}
use freebsd_pkg_plugins.Services.RcOrder.{
  RcOrderOptions, visit_script, keep_script, rcorder_options_add_ks, has,
}
use freebsd_pkg_plugins.Services.RcOrder.Visit.{Walk, visit_script-Walk}
use freebsd_pkg_plugins.Services.RcOrder.Keep.{
  Holds, keep_script-eq, has_action, IsCounted, add_ks-IsCounted,
}
use freebsd_pkg_plugins.Services.RcOrder.Roots.{scan_relations-orphans}
use freebsd_pkg_plugins.Services.RcOrder.Order.{IteratesInOrder, roots_loop-IteratesInOrder}
use freebsd_pkg_plugins.Services.RcOrder.Relations.{scan_relations}

-- the script 1 has the children 2 and 3, and 2 and 3 have each other
abbrev three_scripts : List ℕ
three_scripts = 1 ∷ 2 ∷ 3 ∷ []

abbrev three_children : ℕ → List ℕ
three_children s = if s == 1 then 2 ∷ 3 ∷ [] else if s == 2 then 3 ∷ [] else 2 ∷ []

visit_script_example :
    (seen' : List ℕ) × (out : List ℕ) × (visit_script three_children (λ s. true) false 3 [] 1
      ≡ some (seen', out))
    × Walk [] seen' out
visit_script_example =
    visit_script-Walk three_children (λ s. true) false three_scripts (λ s c h i. ground arith) 3 []
      1 refl refl (omega arith)

-- the same without the cycle
abbrev acyclic_children : ℕ → List ℕ
acyclic_children s = if s == 1 then 2 ∷ 3 ∷ [] else if s == 2 then 3 ∷ [] else []

abbrev depth : ℕ → ℕ
depth s = if s == 1 then 2 else if s == 2 then 1 else 0

order_example : IteratesInOrder acyclic_children (λ s. true) 3 (1 ∷ [])
order_example =
    roots_loop-IteratesInOrder acyclic_children (λ s. true) depth 3 (1 ∷ []) (λ s c h. ground arith)
      (λ s h. ground arith)

-- the script 1 requires what 2 provides under the name 7
abbrev requires : ℕ → List ℕ
requires s = if s == 1 then 7 ∷ [] else []

abbrev provides : ℕ → Option (List ℕ)
provides name = if name == 7 then some (2 ∷ []) else none

roots_example :
    let (r, roots) = scan_relations provides requires (λ s. []) (1 ∷ 2 ∷ []) in
    (has 2 roots ≡ true) ↔ ((has 2 (1 ∷ 2 ∷ []) ≡ true) × ((p : ℕ) → has 2 (r.children p) ≡ false))
roots_example = scan_relations-orphans provides requires (λ s. []) (1 ∷ 2 ∷ []) 2

-- the keyword at 40 is to be kept
abbrev one_keyword : HashTable
one_keyword = record {
  buckets = λ i. if i == 0 then 16 ∷ [] else [];
  global = (16, record { hash = 40; key = 40; content = 1 }) ∷ [];
  hf = none;
  ef = λ a b. a == b;
  key_duper = none;
  key_dtor = false;
  value_dtor = false;
  capacity = 8;
  count = 1;
  mask = 7;
  calls = [];
}

abbrev keep_one : RcOrderOptions
keep_one = record { keep_count = 1; reverse = false; include_orphans = false; ks = one_keyword }

one_keyword-IsValid : IsValid one_keyword
unfolding index_of
one_keyword-IsValid = record {
  buckets = λ i. ground arith;
  distinct = (refl, tt);
  counted = refl;
  masked = omega arith;
}

add_ks_example :
    (old : ℕ) × (ro' : RcOrderOptions) × (rcorder_options_add_ks 24 keep_one 40 2 ≡ some (old, ro'))
    × IsCounted ro'
add_ks_example =
    add_ks-IsCounted 24 keep_one 40 2 (record { table = one_keyword-IsValid; counted = refl })
      (inr refl) refl (omega arith) (omega arith)

abbrev no_action : ℕ → Option ℕ
no_action kw = none

abbrev no_keywords : RcOrderOptions
no_keywords = record {
  keep_count = 0;
  reverse = false;
  include_orphans = false;
  ks = record one_keyword { buckets = λ i. []; global = []; count = 0 };
}

no_keywords-Holds : Holds no_keywords.ks no_action
unfolding hashtable_get hashtable_quick_get find_loop index_of hashtable_hash
no_keywords-Holds kw =
    let within = index_of-below kw 7 8 (omega arith) in (rw within refl, inl refl)

keep_script_example :
    keep_script no_keywords (40 ∷ 41 ∷ [])
    ≡ some (
        not (has_action 2 no_action (40 ∷ 41 ∷ []))
        && (has_action 1 no_action (40 ∷ 41 ∷ []) || no_keywords.keep_count == 0))
keep_script_example = keep_script-eq no_keywords no_action (40 ∷ 41 ∷ []) no_keywords-Holds
