-- ===== src/HashTable/Insertion.antt =====
-- Insertion: `hashtable_put_real` keeps the table valid, and what a lookup then reads.
use freebsd_pkg_plugins.Base.{
  not, is_some, ℕ, ◌+◌, ◌-◌, ◌*◌, ◌%◌, ◌<◌, ◌≡◌, ◌≢◌, refl, sym, ap, ◌∙◌, Bool, true, false, ◌&&◌,
  none, some, List, [], ◌∷◌, ◌++◌, ◌==◌, ltb, arith, if◌then◌else◌, length, length-append,
  Bool-cases, Option-cases, inl, inr, word_size,
}
use freebsd_pkg_plugins.HashTable.{
  Ptr, HashNode, Nodes, HashTable, Put, destroy_value, index_of, set_bucket, set_content, call_if,
  hashtable_maybe_resize, insert_node, put_existing, hashtable_put_real,
}
use freebsd_pkg_plugins.HashTable.Chains.{
  spread, rehash_loop-spread, has, chain_onto, IsValid, last_match, find_node-last_match,
  load_node-last_match, set_bucket-front, spread-chain_onto, chain_onto-append, Distinct-append,
}
use freebsd_pkg_plugins.HashTable.Content.{
  chain_onto-set_content, Distinct-set_content, length-set_content, content_of,
}

-- the table that a new node makes, before `hashtable_maybe_resize`
abbrev pub linked : Ptr → HashTable → ℕ → ℕ → ℕ → HashTable
linked fresh ht h k value = record ht {
  buckets = set_bucket ht.buckets (index_of h ht.mask) (fresh ∷ ht.buckets (index_of h ht.mask));
  global = ht.global ++ (fresh, record { hash = h; key = k; content = value }) ∷ [];
  count = (ht.count + 1) % word_size;
}

linked-IsValid :
    (fresh : Ptr) (ht : HashTable) (h k value : ℕ)
    → IsValid ht
    → has fresh ht.global ≡ false
    → length ht.global + 1 < word_size
    → IsValid (linked fresh ht h k value)
linked-IsValid fresh ht h k value v new room = record {
  buckets = λ i.
      set_bucket-front ht.buckets fresh (index_of h ht.mask) i
      ∙ (ap (λ c. if index_of h ht.mask == i then fresh ∷ c else c) (v.buckets i)
          ∙ sym (chain_onto-append ht.mask i ht.global fresh _ []));
  distinct = Distinct-append ht.global fresh _ v.distinct new;
  counted = rw v.counted (
      omega (
        arith,
        length-append ht.global ((fresh, record { hash = h; key = k; content = value }) ∷ []),
      ));
  masked = v.masked;
}

chain_onto-empty :
    (mask i : ℕ) (g : Nodes) (acc : List Ptr) → length g < 1 → chain_onto mask i g acc ≡ acc
chain_onto-empty mask i [] acc h = refl
chain_onto-empty mask i (x ∷ g) acc h = absurd (omega arith)

-- the table that hashtable_maybe_resize leaves where no index is out of bounds
unfoldable pub resized : HashTable → HashTable
resized ht =
    if ltb ht.count ht.capacity
    then ht
    else if ltb 0 ((ht.capacity * 2) % word_size)
    then (let grown : HashTable = record ht {
      capacity = (ht.capacity * 2) % word_size;
      mask = (ht.capacity * 2) % word_size - 1;
    } in
        if ltb ht.count 1
        then grown
        else record grown { buckets = spread grown.mask grown.global (λ _. []) })
    else ht

-- Rehashing stays in the bounds of the new array.
maybe_resize-resized : (ht : HashTable) → hashtable_maybe_resize ht ≡ some (resized ht)
unfolding hashtable_maybe_resize resized
maybe_resize-resized ht = elim (Bool-cases (ltb ht.count ht.capacity)) [
  | inl roomy ↦ rw roomy refl
  | inr full ↦ elim (Bool-cases (ltb 0 ((ht.capacity * 2) % word_size))) [
    | inr wrapped ↦ rw (full, wrapped) refl
    | inl grows ↦ elim (Bool-cases (ltb ht.count 1)) [
      | inl empty ↦ rw (full, grows, empty) refl
      | inr filled ↦
          let within : (ht.capacity * 2) % word_size - 1 < (ht.capacity * 2) % word_size =
            ground arith in
          rw
            (
              full,
              grows,
              filled,
              rehash_loop-spread ((ht.capacity * 2) % word_size) ((ht.capacity * 2) % word_size - 1)
                  ht.global (λ _. []) within,
            )
            refl
    ]
  ]
]

resized-IsValid : (ht : HashTable) → IsValid ht → IsValid (resized ht)
unfolding resized
resized-IsValid ht v = elim (Bool-cases (ltb ht.count ht.capacity)) [
  | inl roomy ↦ rw roomy v
  | inr full ↦ elim (Bool-cases (ltb 0 ((ht.capacity * 2) % word_size))) [
    | inr wrapped ↦ rw (full, wrapped) v
    | inl grows ↦ elim (Bool-cases (ltb ht.count 1)) [
      | inl empty ↦
          let short : length ht.global < 1 = ground arith in
          rw (full, grows, empty)
            (record {
              buckets = λ i.
                  v.buckets i
                  ∙ (chain_onto-empty ht.mask i ht.global [] short
                      ∙ sym (chain_onto-empty _ i ht.global [] short));
              distinct = v.distinct;
              counted = v.counted;
              masked = ground arith;
            })
      | inr filled ↦
          rw (full, grows, filled)
            (record {
              buckets = λ i. spread-chain_onto _ i ht.global (λ _. []);
              distinct = v.distinct;
              counted = v.counted;
              masked = ground arith;
            })
    ]
  ]
]

-- It changes neither the nodes, nor their order, nor the callbacks.
pub resized-same : (ht : HashTable) → ((resized ht).global ≡ ht.global) × ((resized ht).ef ≡ ht.ef)
unfolding resized
resized-same ht = (ground arith, ground arith)

-- The key that a new node gets.
abbrev pub stored_key : HashTable → ℕ → ℕ
stored_key ht key = elim ht.key_duper [ none ↦ key | some dup ↦ dup key ]

-- the table with a node for the key
unfoldable pub inserted : (fresh : Ptr) → HashTable → ℕ → ℕ → ℕ → HashTable
unfolding resized
inserted fresh ht h key value = resized (linked fresh ht h (stored_key ht key) value)

insert_node-inserted :
    (fresh : Ptr) (ht : HashTable) (h key value : ℕ)
    → insert_node fresh ht h key value ≡ some (inserted fresh ht h key value)
unfolding insert_node inserted
insert_node-inserted fresh ht h key value =
    maybe_resize-resized (linked fresh ht h (stored_key ht key) value)

-- the table after the key was found at `p`
abbrev overwritten : HashTable → Ptr → HashNode → ℕ → HashTable
overwritten ht p n value = record ht {
  global = set_content p value ht.global;
  calls = call_if ht.value_dtor (destroy_value n.content) ht.calls;
}

overwritten-IsValid :
    (ht : HashTable) (p : Ptr) (n : HashNode) (value : ℕ)
    → IsValid ht
    → IsValid (overwritten ht p n value)
overwritten-IsValid ht p n value v = record {
  buckets = λ i. v.buckets i ∙ sym (chain_onto-set_content p value ht.mask i ht.global []);
  distinct = Distinct-set_content p value ht.global v.distinct;
  counted = v.counted ∙ sym (length-set_content p value ht.global);
  masked = v.masked;
}

not_and_false : (b : Bool) → true ≡ not (b && false)
not_and_false true = refl
not_and_false false = refl

pub put_existing_facts :
    (ht : HashTable) (preserve : Bool) (p : Ptr) (n : HashNode) (value : ℕ)
    → IsValid ht
    → IsValid (put_existing ht preserve p n value).table
      × ((put_existing ht preserve p n value).oldvalue ≡ some n.content)
      × ((put_existing ht preserve p n value).changed
          ≡ not (preserve && is_some (put_existing ht preserve p n value).oldvalue))
unfolding put_existing
put_existing_facts ht true p n value v = (v, refl, refl)
put_existing_facts ht false p n value v = (overwritten-IsValid ht p n value v, refl, refl)

module _ (fresh : Ptr) (ht : HashTable) (preserve : Bool) (h key value : ℕ) (v : IsValid ht)
    (unused : has fresh ht.global ≡ false) (some_memory : fresh ≢ 0)
    (room : length ht.global + 1 < word_size) where
  -- the two ways an insertion ends
  pub put-existing :
      (p : Ptr) (n : HashNode)
      → last_match ht.ef h key ht.global ≡ some (p, n)
      → hashtable_put_real fresh ht preserve h key value ≡ some (put_existing ht preserve p n value)
  unfolding hashtable_put_real
  put-existing p n e =
      rw (find_node-last_match ht h key v, e, load_node-last_match ht h key p n v e)

  pub put-new :
      last_match ht.ef h key ht.global ≡ none
      → hashtable_put_real fresh ht preserve h key value
        ≡ some (record { changed = true; oldvalue = none; table = inserted fresh ht h key value })
  unfolding hashtable_put_real
  put-new e =
      let got : fresh == 0 ≡ false = ground arith in
      rw (find_node-last_match ht h key v, e, got, insert_node-inserted fresh ht h key value) refl

  pub inserted-IsValid : IsValid (inserted fresh ht h key value)
  unfolding inserted
  inserted-IsValid =
      resized-IsValid _ (linked-IsValid fresh ht h (stored_key ht key) value v unused room)

  new_case :
      last_match ht.ef h key ht.global ≡ none
      → (r : Put) × (hashtable_put_real fresh ht preserve h key value ≡ some r)
        × IsValid r.table
        × (r.oldvalue ≡ content_of (last_match ht.ef h key ht.global))
        × (r.changed ≡ not (preserve && is_some r.oldvalue))
  new_case e = (_, put-new e, inserted-IsValid, ap content_of (sym e), not_and_false preserve)

  existing_case :
      (p : Ptr) (n : HashNode)
      → last_match ht.ef h key ht.global ≡ some (p, n)
      → (r : Put) × (hashtable_put_real fresh ht preserve h key value ≡ some r)
        × IsValid r.table
        × (r.oldvalue ≡ content_of (last_match ht.ef h key ht.global))
        × (r.changed ≡ not (preserve && is_some r.oldvalue))
  existing_case p n e =
      let (valid, old, changed) = put_existing_facts ht preserve p n value v in
      (_, put-existing p n e, valid, old ∙ ap content_of (sym e), changed)

  -- In a valid table, with fresh memory, insertion ends without a fault, in a valid table; it
  -- answers the value that a lookup of the key would have read, and reports that nothing changed
  -- exactly when there is such a value and it is to be preserved.
  pub put_real-IsValid :
      (r : Put) × (hashtable_put_real fresh ht preserve h key value ≡ some r)
      × IsValid r.table
      × (r.oldvalue ≡ content_of (last_match ht.ef h key ht.global))
      × (r.changed ≡ not (preserve && is_some r.oldvalue))
  put_real-IsValid = elim (Option-cases (last_match ht.ef h key ht.global)) [
    | inl e ↦ new_case e
    | inr ((p, n), e) ↦ existing_case p n e
  ]
