-- ===== src/HashTable/Deletion.antt =====
-- Deletion: `hashtable_delete_real` keeps the table valid, and what a lookup then reads.
use freebsd_pkg_plugins.Base.{
  ℕ, ◌+◌, ◌<◌, ◌≤◌, ◌≡◌, refl, sym, ap, ◌∙◌, Bool, true, false, none, some, List, [], ◌==◌, ==_refl,
  ==→eq, arith, if◌then◌else◌, length, Bool-cases, inl, inr, word_size,
}
use freebsd_pkg_plugins.HashTable.{
  Ptr, HashNode, HashTable, load_node, matches, index_of, set_bucket, unlink_node, unlink_ptr,
  drop_node, hashtable_delete_real, hashtable_quick_get,
}
use freebsd_pkg_plugins.HashTable.Chains.{IsValid, last_match, find_node-last_match}
use freebsd_pkg_plugins.HashTable.Reading.{match_parts}
use freebsd_pkg_plugins.HashTable.Content.{content_of, quick_get-last_match}
use freebsd_pkg_plugins.HashTable.Unlinking.{
  chain_onto-unlink_node, Distinct-unlink_node, length-unlink_node, last_match-unlink_node,
  count_matches, last_match-unlink_match,
}

drop_bucket :
    (b : ℕ → List Ptr) (p j i : ℕ)
    → set_bucket b j (unlink_ptr p (b j)) i ≡ (if j == i then unlink_ptr p (b i) else b i)
unfolding set_bucket
drop_bucket b p j i = elim (Bool-cases (j == i)) [
  | inl same ↦ rw (same, ==→eq j i same, ==_refl i)
  | inr other ↦ rw (other, (let flipped : i == j ≡ false = ground arith in flipped))
]

drop_node-IsValid :
    (ht : HashTable) (p : Ptr) (n : HashNode) (call_dtor : Bool)
    → IsValid ht
    → load_node p ht.global ≡ some n
    → length ht.global < word_size
    → IsValid (drop_node ht p n (index_of n.hash ht.mask) call_dtor)
unfolding drop_node
drop_node-IsValid ht p n call_dtor v found room = record {
  buckets = λ i.
      drop_bucket ht.buckets p (index_of n.hash ht.mask) i
      ∙ (ap (λ c. if index_of n.hash ht.mask == i then unlink_ptr p c else c) (v.buckets i)
          ∙ sym (chain_onto-unlink_node p ht.mask i ht.global n [] v.distinct found));
  distinct = Distinct-unlink_node p ht.global v.distinct;
  counted = rw v.counted (omega (arith, length-unlink_node p ht.global n found));
  masked = v.masked;
}

-- What a deletion that found a node does: the table is valid, one node shorter, keys that do not
-- match the node read as before, and the key itself reads nothing if no other node matches it.
pub record Deletes (ht : HashTable) (h key : ℕ) (n : HashNode) (t : HashTable) : Type 0 where
  pub valid : IsValid t
  pub size : t.count + 1 ≡ ht.count
  pub others :
      (h' key' : ℕ)
      → matches ht.ef h' key' n ≡ false
      → hashtable_quick_get t h' key' ≡ hashtable_quick_get ht h' key'
  pub gone : count_matches ht.ef h key ht.global ≤ 1 → hashtable_quick_get t h key ≡ some none

dropped_length :
    (ht : HashTable) (p : Ptr) (n : HashNode) (call_dtor : Bool)
    → load_node p ht.global ≡ some n
    → length (drop_node ht p n (index_of n.hash ht.mask) call_dtor).global + 1 ≡ length ht.global
unfolding drop_node
dropped_length ht p n call_dtor found = length-unlink_node p ht.global n found

dropped_search :
    (ht : HashTable) (p : Ptr) (n : HashNode) (call_dtor : Bool) (h key : ℕ)
    → let t = drop_node ht p n (index_of n.hash ht.mask) call_dtor in
      some (content_of (last_match t.ef h key t.global))
      ≡ some (content_of (last_match ht.ef h key (unlink_node p ht.global)))
unfolding drop_node
dropped_search ht p n call_dtor h key = refl

module _ (ht : HashTable) (h key : ℕ) (call_dtor : Bool) (v : IsValid ht)
    (room : length ht.global < word_size) where
  pub drop_node-Deletes :
      (p : Ptr) (n : HashNode)
      → last_match ht.ef h key ht.global ≡ some (p, n)
      → load_node p ht.global ≡ some n
      → Deletes ht h key n (drop_node ht p n (index_of n.hash ht.mask) call_dtor)
  drop_node-Deletes p n e found =
      let t = drop_node ht p n (index_of n.hash ht.mask) call_dtor in
      let valid = drop_node-IsValid ht p n call_dtor v found room in
      record {
        valid = valid;
        size =
            ap (λ (c : ℕ). c + 1) valid.counted
            ∙ (dropped_length ht p n call_dtor found ∙ sym v.counted);
        others = λ h' key' miss.
            quick_get-last_match t h' key' valid
            ∙ (dropped_search ht p n call_dtor h' key'
                ∙ (ap (λ r. some (content_of r))
                      (last_match-unlink_node p ht.ef h' key' ht.global n found miss)
                    ∙ sym (quick_get-last_match ht h' key' v)));
        gone = λ once.
            quick_get-last_match t h key valid
            ∙ (dropped_search ht p n call_dtor h key
                ∙ ap (λ r. some (content_of r))
                    (last_match-unlink_match ht.ef h key ht.global p n v.distinct once e));
      }

  pub delete_real-none :
      last_match ht.ef h key ht.global ≡ none
      → hashtable_delete_real ht h key call_dtor ≡ some (false, ht)
  unfolding hashtable_delete_real
  delete_real-none e = rw (find_node-last_match ht h key v, e)

  -- A deletion drops the last matching node, in the bucket of its hash.
  pub delete_real-some :
      (p : Ptr) (n : HashNode)
      → last_match ht.ef h key ht.global ≡ some (p, n)
      → load_node p ht.global ≡ some n
      → hashtable_delete_real ht h key call_dtor
        ≡ some (true, drop_node ht p n (index_of n.hash ht.mask) call_dtor)
  unfolding hashtable_delete_real
  delete_real-some p n e found =
      rw (find_node-last_match ht h key v, e, found)
        (λ i. some (
          true,
          drop_node ht p n (index_of (sym (match_parts ht.ef h key ht.global p n e).0 i) ht.mask)
              call_dtor,
        ))
