-- ===== src/HashTable/Reading.antt =====
-- What lookups read after an insertion.
use freebsd_pkg_plugins.Base.{
  ℕ, ◌+◌, ◌<◌, ◌≡◌, ◌≢◌, refl, sym, ap, subst, ◌∙◌, Bool, true, false, ◌&&◌, none, some, [], ◌∷◌,
  ◌++◌, ◌==◌, arith, length, word_size, inl, inr, Option-cases,
}
use freebsd_pkg_plugins.HashTable.{
  Ptr, HashNode, Nodes, HashTable, Put, matches, put_existing, hashtable_put_real,
  hashtable_quick_get,
}
use freebsd_pkg_plugins.HashTable.Chains.{has, IsValid, last_match, load_node-last_match}
use freebsd_pkg_plugins.HashTable.Insertion.{
  inserted, resized-same, linked, stored_key, put-existing, put-new, inserted-IsValid,
  put_existing_facts,
}
use freebsd_pkg_plugins.HashTable.Content.{
  content_of, quick_get-last_match, picked_eq, last_match-append, last_match-set_content,
  last_match-set_content_other,
}

pub inserted-same :
    (fresh : Ptr) (ht : HashTable) (h key value : ℕ)
    → ((inserted fresh ht h key value).global
        ≡ ht.global ++ (fresh, record { hash = h; key = stored_key ht key; content = value }) ∷ [])
      × ((inserted fresh ht h key value).ef ≡ ht.ef)
unfolding inserted
inserted-same fresh ht h key value = resized-same (linked fresh ht h (stored_key ht key) value)

pub reading :
    (t : HashTable) (ef : ℕ → ℕ → Bool) (g : Nodes) (h key : ℕ)
    → IsValid t
    → t.ef ≡ ef
    → t.global ≡ g
    → hashtable_quick_get t h key ≡ some (content_of (last_match ef h key g))
reading t ef g h key v e s =
    quick_get-last_match t h key v ∙ (λ i. some (content_of (last_match (e i) h key (s i))))

module _ (ef : ℕ → ℕ → Bool) (h key : ℕ) (g : Nodes) (p : Ptr) (n : HashNode) where
  appended_hit : matches ef h key n ≡ true → last_match ef h key (g ++ (p, n) ∷ []) ≡ some (p, n)
  appended_hit e = rw (last_match-append ef h key g p n, e)

  appended_miss :
      matches ef h key n ≡ false → last_match ef h key (g ++ (p, n) ∷ []) ≡ last_match ef h key g
  appended_miss e = rw (last_match-append ef h key g p n, e)

-- a match has the hash and an equal key
pub match_parts :
    (ef : ℕ → ℕ → Bool) (h key : ℕ) (g : Nodes) (p : Ptr) (n : HashNode)
    → last_match ef h key g ≡ some (p, n)
    → (n.hash ≡ h) × (ef key n.key ≡ true)
match_parts ef h key [] p n e = cc
match_parts ef h key ((q, o) ∷ g) p n e = elim (Option-cases (last_match ef h key g)) [
  | inr (r, s) ↦ match_parts ef h key g p n (s ∙ (rw s at e))
  | inl nothing ↦
      let (hit, here, same) = picked_eq q o p n (matches ef h key o) (rw nothing at e) in
      let here' : (o.hash ≡ h) × (ef key o.key ≡ true) = ground arith in
      subst (λ (k : HashNode). (k.hash ≡ h) × (ef key k.key ≡ true)) same here'
]

-- No key that `key` equals, under its hash, is equal to the other key.
abbrev pub Unrelated : HashTable → ℕ → ℕ → ℕ → ℕ → Type 0
Unrelated ht h key h' key' = (k : ℕ) → ht.ef key k ≡ true → (h == h' && ht.ef key' k) ≡ false

abbrev pub Overwrites : HashTable → ℕ → ℕ → ℕ → Put → Type 0
Overwrites ht h key value r =
    (hashtable_quick_get r.table h key ≡ some (some value))
    × ((h' key' : ℕ)
        → Unrelated ht h key h' key'
        → hashtable_quick_get r.table h' key' ≡ hashtable_quick_get ht h' key')

module _ (fresh : Ptr) (ht : HashTable) (h key value : ℕ) (v : IsValid ht)
    (unused : has fresh ht.global ≡ false) (some_memory : fresh ≢ 0)
    (room : length ht.global + 1 < word_size) (equal : ht.ef key (stored_key ht key) ≡ true) where
  new_node : HashNode
  new_node = record { hash = h; key = stored_key ht key; content = value }

  read_new :
      last_match ht.ef h key ht.global ≡ none
      → (r : Put) × (hashtable_put_real fresh ht false h key value ≡ some r)
        × Overwrites ht h key value r
  unfolding new_node
  read_new e =
      let (nodes, same) = inserted-same fresh ht h key value in
      let valid = inserted-IsValid fresh ht false h key value v unused some_memory room in
      let hit : matches ht.ef h key new_node ≡ true = ground arith in
      (
        _,
        put-new fresh ht false h key value v unused some_memory room e,
        (
          reading _ ht.ef _ h key valid same nodes
              ∙ ap (λ r. some (content_of r))
                  (appended_hit ht.ef h key ht.global fresh new_node hit),
          λ h' key' other.
              let miss : matches ht.ef h' key' new_node ≡ false = other (stored_key ht key) equal in
              reading _ ht.ef _ h' key' valid same nodes
              ∙ (ap (λ r. some (content_of r))
                    (appended_miss ht.ef h' key' ht.global fresh new_node miss)
                  ∙ sym (quick_get-last_match ht h' key' v)),
        ),
      )

  read_existing :
      (p : Ptr) (n : HashNode)
      → last_match ht.ef h key ht.global ≡ some (p, n)
      → (r : Put) × (hashtable_put_real fresh ht false h key value ≡ some r)
        × Overwrites ht h key value r
  unfolding put_existing
  read_existing p n e =
      let (valid, old, changed) = put_existing_facts ht false p n value v in
      (
        _,
        put-existing fresh ht false h key value v unused some_memory room p n e,
        (
          reading _ ht.ef _ h key valid refl refl
              ∙ ap (λ r. some (content_of r))
                  (last_match-set_content ht.ef h key value ht.global p n v.distinct e),
          λ h' key' other.
              let (same_hash, same_key) = match_parts ht.ef h key ht.global p n e in
              let miss : matches ht.ef h' key' n ≡ false =
                subst (λ k. (k == h' && ht.ef key' n.key) ≡ false) (sym same_hash)
                  (other n.key same_key) in
              reading _ ht.ef _ h' key' valid refl refl
              ∙ (ap (λ r. some (content_of r))
                    (last_match-set_content_other p value ht.ef h' key' ht.global n
                      (load_node-last_match ht h key p n v e) miss)
                  ∙ sym (quick_get-last_match ht h' key' v)),
        ),
      )

  -- After an insertion that may overwrite, a lookup of the key reads the new value, and a lookup of
  -- any unrelated key reads what it read before; a resize on the way changes no answer. The key's
  -- copy must be equal to the key.
  pub put_real-Overwrites :
      (r : Put) × (hashtable_put_real fresh ht false h key value ≡ some r)
      × Overwrites ht h key value r
  put_real-Overwrites = elim (Option-cases (last_match ht.ef h key ht.global)) [
    | inl e ↦ read_new e
    | inr ((p, n), e) ↦ read_existing p n e
  ]
