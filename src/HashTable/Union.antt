-- ===== src/HashTable/Union.antt =====
-- hashtable_union of kissc/hashtable.c: what becomes of the first table and of the second.
use freebsd_pkg_plugins.Base.{
  ℕ, zero, suc, ◌+◌, ◌<◌, ◌≡◌, ◌≢◌, refl, sym, ap, subst, ◌⊎◌, Bool, true, false, some, [], ◌∷◌,
  ==_refl, arith, length, word_size, Bool-cases, Option-cases, inl, inr,
}
use freebsd_pkg_plugins.HashTable.{
  Ptr, HashNode, Nodes, HashTable, matches, put_existing, hashtable_put_real, hashtable_quick_put,
}
use freebsd_pkg_plugins.HashTable.Chains.{has, IsValid, last_match}
use freebsd_pkg_plugins.HashTable.Insertion.{put-existing}
use freebsd_pkg_plugins.HashTable.Whole.{
  KeyDuper, chosen, is_set, drop_nodes, union_put, self_loop, second_set, hashtable_union,
}

abbrev node_or : HashNode → Nodes → HashNode
node_or n [] = n
node_or n ((q, o) ∷ g) = o

abbrev rest_of : Nodes → Nodes
rest_of [] = []
rest_of (x ∷ g) = g

nodes_cases : (g : Nodes) → (g ≡ []) ⊎ ((p : Ptr) × (n : HashNode) × (r : Nodes) × (g ≡ (p, n) ∷ r))
nodes_cases [] = inl refl
nodes_cases ((p, n) ∷ r) = inr (p, n, r, refl)

drop_nodes-next :
    (i : ℕ) (g r : Nodes) (p : Ptr) (n : HashNode)
    → drop_nodes i g ≡ (p, n) ∷ r
    → drop_nodes (suc i) g ≡ r
drop_nodes-next zero [] r p n e = cc
drop_nodes-next (suc i) [] r p n e = cc
drop_nodes-next zero (x ∷ g) r p n e = ap rest_of e
drop_nodes-next (suc i) (x ∷ g) r p n e = drop_nodes-next i g r p n e

-- a node of the chain whose key equals itself is found by its key
last_match-own :
    (ef : ℕ → ℕ → Bool) (i : ℕ) (g r : Nodes) (p : Ptr) (n : HashNode)
    → drop_nodes i g ≡ (p, n) ∷ r
    → ef n.key n.key ≡ true
    → (q : Ptr) × (o : HashNode) × (last_match ef n.hash n.key g ≡ some (q, o))
last_match-own ef zero [] r p n e self = cc
last_match-own ef (suc i) [] r p n e self = cc
last_match-own ef zero ((q, o) ∷ g) r p n e self =
    let hit : matches ef n.hash n.key o ≡ true =
      subst (λ k. matches ef n.hash n.key k ≡ true) (sym (ap (node_or n) e))
        (rw (==_refl n.hash) self) in
    elim (Option-cases (last_match ef n.hash n.key g)) [
      | inl nothing ↦ (q, o, rw (nothing, hit) refl)
      | inr ((q', o'), found) ↦ (q', o', rw found refl)
    ]
last_match-own ef (suc i) ((q, o) ∷ g) r p n e self =
    let (q', o', found) = last_match-own ef i g r p n e self in (q', o', rw found refl)

module _ (fresh : ℕ → Ptr) (key_duper : KeyDuper) (f : ℕ → ℕ) (ht : HashTable) (v : IsValid ht)
    (unused : (i : ℕ) → has (fresh i) ht.global ≡ false) (some_memory : (i : ℕ) → fresh i ≢ 0)
    (room : length ht.global + 1 < word_size) (self : (k : ℕ) → ht.ef k k ≡ true) where
  -- putting a pair of the table again changes nothing
  union_put-own :
      (i j : ℕ) (r : Nodes) (p : Ptr) (n : HashNode)
      → drop_nodes i ht.global ≡ (p, n) ∷ r
      → union_put (fresh j) key_duper (some f) ht n ≡ some ht
  unfolding union_put hashtable_quick_put put_existing
  union_put-own i j r p n e =
      let (q, o, found) = last_match-own ht.ef i ht.global r p n e (self n.key) in
      let put : (value : ℕ)
          → hashtable_put_real (fresh j) ht true n.hash n.key value
            ≡ some (put_existing ht true q o value) =
        λ value.
          put-existing (fresh j) ht true n.hash n.key value v (unused j) (some_memory j) room q o
            found in
      rw (put n.content) (elim (Bool-cases (is_set key_duper)) [
        | inl set ↦ rw (set, put (f n.content)) refl
        | inr null ↦ rw null refl
      ])

  self_loop-own :
      (k i : ℕ)
      → length (drop_nodes i ht.global) < k
      → self_loop k fresh key_duper (some f) i ht ≡ some ht
  unfolding self_loop
  self_loop-own zero i enough = elim enough [ ]
  self_loop-own (suc k) i enough = elim (nodes_cases (drop_nodes i ht.global)) [
    | inl done ↦ rw (self_loop, done) refl
    | inr (p, n, r, e) ↦
        let one_on : suc i ≡ i + 1 = omega arith in
        let next : drop_nodes (i + 1) ht.global ≡ r =
          subst (λ j. drop_nodes j ht.global ≡ r) one_on (drop_nodes-next i ht.global r p n e) in
        rw (self_loop, e, union_put-own i i r p n e)
          (self_loop-own k (i + 1) (omega (arith, ap length next, ap length e)))
  ]

-- If `dst` is the second table, hashtable_union answers that table as it is: the first one, to
-- which the documentation gives precedence, is ignored, whatever it has.
hashtable_union-ignores_first :
    (fuel : ℕ) (fresh more : ℕ → Ptr) (set1 set2 : HashTable) (key_duper : KeyDuper) (f : ℕ → ℕ)
    → IsValid set2
    → ((i : ℕ) → has (more i) set2.global ≡ false)
    → ((i : ℕ) → more i ≢ 0)
    → length set2.global + 1 < word_size
    → ((k : ℕ) → set2.ef k k ≡ true)
    → length set2.global < fuel
    → hashtable_union fuel fresh more true second_set set1 set2 key_duper (some f)
      ≡ some (some set2)
unfolding hashtable_union
hashtable_union-ignores_first fuel fresh more set1 set2 key_duper f v unused some_memory room self
      enough =
    let t : HashTable = record set2 { key_duper = chosen key_duper set2.key_duper } in
    let valid : IsValid t = record {
      buckets = v.buckets;
      distinct = v.distinct;
      counted = v.counted;
      masked = v.masked;
    } in
    rw (self_loop-own more key_duper f t valid unused some_memory room self fuel 0 enough) refl
