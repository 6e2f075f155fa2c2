-- ===== src/Services/RcOrder/Keep.antt =====
-- Which scripts `pkg rcorder -k … -s …` keeps, and the count of the keywords to keep.
use freebsd_pkg_plugins.Base.{
  ℕ, ◌+◌, ◌<◌, ◌≤◌, ◌≡◌, ◌≢◌, refl, ap, ◌∙◌, Bool, true, false, not, ◌&&◌, ◌||◌, Option, none, some,
  List, [], ◌∷◌, ◌++◌, ◌==◌, arith, ◌⊎◌, inl, inr, if◌then◌else◌, word_size, length, Option-cases,
}
use freebsd_pkg_plugins.HashTable.{
  Ptr, HashNode, Nodes, HashTable, hashtable_get, hashtable_put, hashtable_hash, load_node,
  set_content, put_existing,
}
use freebsd_pkg_plugins.HashTable.Chains.{IsValid, last_match, load_node-last_match}
use freebsd_pkg_plugins.HashTable.Chains
use freebsd_pkg_plugins.HashTable.Insertion.{
  inserted, put-existing, put-new, put_existing_facts, inserted-IsValid, stored_key,
}
use freebsd_pkg_plugins.HashTable.Reading.{inserted-same}
use freebsd_pkg_plugins.Services.RcOrder.{
  RcOrderOptions, keep_loop, keep_script, recount, rcorder_options_add_ks,
}

-- a keyword's action by the options
abbrev pub has_action : ℕ → (ℕ → Option ℕ) → List ℕ → Bool
has_action a act [] = false
has_action a act (kw ∷ kws) =
    elim (act kw) [ none ↦ false | some b ↦ b == a ] || has_action a act kws

-- the table holds these actions
abbrev pub Holds : HashTable → (ℕ → Option ℕ) → Type 0
Holds ks act =
    (kw : ℕ)
    → (hashtable_get ks kw ≡ some (act kw))
      × ((act kw ≡ none) ⊎ (act kw ≡ some 1) ⊎ (act kw ≡ some 2))

if_same : (b : Bool) (x : ℕ) → (if b then x else x) ≡ x
if_same true x = refl
if_same false x = refl

-- the last test of `keep_script`, on the action that the loop ends with
decided :
    (skip keep : Bool) (n : ℕ)
    → let action : ℕ = if skip then 2 else if keep then 1 else 0 in
      (action == 1 || (action == 0 && n == 0)) ≡ (not skip && (keep || n == 0))
decided true keep n = refl
decided false true n = refl
decided false false n = refl

keep_loop-skip : (ks : HashTable) (kws : List ℕ) → keep_loop ks 2 kws ≡ some 2
unfolding keep_loop
keep_loop-skip ks [] = refl
keep_loop-skip ks (kw ∷ kws) = refl

keep_loop-eq :
    (ks : HashTable) (act : ℕ → Option ℕ) (a : ℕ) (kws : List ℕ)
    → Holds ks act
    → a < 2
    → keep_loop ks a kws
      ≡ some (if has_action 2 act kws then 2 else if has_action 1 act kws then 1 else a)
unfolding keep_loop
keep_loop-eq ks act a [] h lt = refl
keep_loop-eq ks act a (kw ∷ kws) h lt =
    let going : a == 2 ≡ false = ground arith in
    elim (h kw).1 [
      | inl e ↦ rw (going, (h kw).0, e) (keep_loop-eq ks act a kws h lt)
      | inr (inl e) ↦
          rw (going, (h kw).0, e)
            (keep_loop-eq ks act 1 kws h (omega arith)
              ∙ ap (λ b. some (if has_action 2 act kws then 2 else b))
                  (if_same (has_action 1 act kws) 1))
      | inr (inr e) ↦ rw (going, (h kw).0, e) (keep_loop-skip ks kws)
    ]

-- A script is kept exactly when none of its keywords is to be skipped and either one of them is to be
-- kept or the options name no keyword to keep; the order of the keywords does not matter.
pub keep_script-eq :
    (ro : RcOrderOptions) (act : ℕ → Option ℕ) (kws : List ℕ)
    → Holds ro.ks act
    → keep_script ro kws
      ≡ some (not (has_action 2 act kws) && (has_action 1 act kws || ro.keep_count == 0))
unfolding keep_script
keep_script-eq ro act kws h =
    rw (keep_loop-eq ro.ks act 0 kws h (omega arith))
      (ap some (decided (has_action 2 act kws) (has_action 1 act kws) ro.keep_count))

-- the entries of the table that say `action_keep`
abbrev pub kept : Nodes → ℕ
kept [] = 0
kept ((p, n) ∷ g) = if n.content == 1 then kept g + 1 else kept g

kept-append :
    (g : Nodes) (p : Ptr) (n : HashNode)
    → kept (g ++ (p, n) ∷ []) ≡ kept g + (if n.content == 1 then 1 else 0)
kept-append [] p n = ground arith
kept-append ((q, o) ∷ g) p n = ground (arith, kept-append g p n)

kept-new :
    (g : Nodes) (p : Ptr) (n : HashNode)
    → kept (g ++ (p, n) ∷ []) + 0 ≡ kept g + (if n.content == 1 then 1 else 0)
kept-new g p n = ground (arith, kept-append g p n)

kept-le : (g : Nodes) → kept g ≤ length g
kept-le [] = omega arith
kept-le ((q, o) ∷ g) = ground (arith, kept-le g)

kept-set_content :
    (p v : ℕ) (g : Nodes) (n : HashNode)
    → load_node p g ≡ some n
    → kept (set_content p v g) + (if n.content == 1 then 1 else 0)
      ≡ kept g + (if v == 1 then 1 else 0)
unfolding set_content load_node
kept-set_content p v [] n found = cc
kept-set_content p v ((q, o) ∷ g) n found = ground (arith, kept-set_content p v g n)

-- `keep_count` counts the keywords to keep.
pub record IsCounted (ro : RcOrderOptions) : Type 0 where
  pub table : IsValid ro.ks
  pub counted : ro.keep_count ≡ kept ro.ks.global

recounted :
    (action : ℕ) (old k k' n : ℕ)
    → (action ≡ 1) ⊎ (action ≡ 2)
    → n ≡ k
    → k' + (if old == 1 then 1 else 0) ≡ k + (if action == 1 then 1 else 0)
    → k + 1 < word_size
    → recount action old n ≡ k'
unfolding recount
recounted action old k k' n kind e total room = ground arith

module _ (fresh : Ptr) (ro : RcOrderOptions) (name action : ℕ) (v : IsCounted ro)
    (kind : (action ≡ 1) ⊎ (action ≡ 2)) (unused : Chains.has fresh ro.ks.global ≡ false)
    (some_memory : fresh ≢ 0) (room : length ro.ks.global + 1 < word_size) where
  key_hash : ℕ
  key_hash = hashtable_hash ro.ks name

  -- Adding a keyword to keep or to skip, new or known, whatever its action was, keeps the table
  -- valid and `keep_count` the number of keywords to keep.
  pub add_ks-IsCounted :
      (old : ℕ) × (ro' : RcOrderOptions) × (rcorder_options_add_ks fresh ro name action
        ≡ some (old, ro'))
      × IsCounted ro'
  unfolding rcorder_options_add_ks hashtable_put key_hash put_existing
  add_ks-IsCounted = elim (Option-cases (last_match ro.ks.ef key_hash name ro.ks.global)) [
    | inl e ↦
        let run =
          put-new fresh ro.ks false key_hash name action v.table unused some_memory room e in
        let (nodes, same) = inserted-same fresh ro.ks key_hash name action in
        let after = inserted fresh ro.ks key_hash name action in
        let count = recount action 0 ro.keep_count in
        (
          0,
          record ro { ks = after; keep_count = count },
          rw run refl,
          record {
            table =
                inserted-IsValid fresh ro.ks false key_hash name action v.table unused some_memory
                  room;
            counted =
                recounted action 0 (kept ro.ks.global) _ ro.keep_count kind v.counted
                  (ap (λ g. kept g + 0) nodes
                    ∙ kept-new ro.ks.global fresh
                        (record { hash = key_hash; key = stored_key ro.ks name; content = action }))
                  (omega (arith, kept-le ro.ks.global));
          },
        )
    | inr ((p, n), e) ↦
        let run =
          put-existing fresh ro.ks false key_hash name action v.table unused some_memory room p n
            e in
        let (valid, old, changed) = put_existing_facts ro.ks false p n action v.table in
        let after = (put_existing ro.ks false p n action).table in
        let count = recount action n.content ro.keep_count in
        (
          n.content,
          record ro { ks = after; keep_count = count },
          rw run refl,
          record {
            table = valid;
            counted =
                recounted action n.content (kept ro.ks.global) _ ro.keep_count kind v.counted
                  (kept-set_content p action ro.ks.global n
                    (load_node-last_match ro.ks key_hash name p n v.table e))
                  (omega (arith, kept-le ro.ks.global));
          },
        )
  ]
