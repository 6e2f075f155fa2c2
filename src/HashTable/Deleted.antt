-- ===== src/HashTable/Deleted.antt =====
-- `hashtable_delete_real` with its four pointers to each node.
use freebsd_pkg_plugins.Base.{
  ℕ, zero, suc, ◌+◌, ◌<◌, ◌≤◌, ◌≡◌, ◌≢◌, refl, sym, subst, ap, ◌∙◌, Bool, true, false, Option, none,
  some, List, [], ◌∷◌, ◌==◌, if◌then◌else◌, length, arith, Bool-cases, Option-cases, inl, inr,
  word_size, ◌⊎◌,
}
use mathlib.Core.Option.{some-injective}
use freebsd_pkg_plugins.Dlist.Memory.{Ptr, null, Element, Memory, ok, load-ok}
use freebsd_pkg_plugins.Dlist.Append.{not_null}
use freebsd_pkg_plugins.Dlist.Linked.{front_or, Joined}
use freebsd_pkg_plugins.HashTable.{
  HashNode, Nodes, HashTable, load_node, index_of, find_loop, drop_node, calls_for,
  hashtable_delete_real, matches,
}
use freebsd_pkg_plugins.HashTable.Index.{index_of-below}
use freebsd_pkg_plugins.HashTable.Chains.{
  IsValid, chain_onto, last_match, find_node-last_match, load_node-last_match, address,
  find_loop-front,
}
use freebsd_pkg_plugins.HashTable.Reading.{match_parts}
use freebsd_pkg_plugins.HashTable.Deletion.{
  Deletes, delete_real-none, delete_real-some, drop_node-Deletes,
}
use freebsd_pkg_plugins.HashTable.Links.{Links, find_linked, unlink, delete_linked, plain, IsLinked}
use freebsd_pkg_plugins.HashTable.Linked.{unlink-IsLinked}

module _ (ef : ℕ → ℕ → Bool) (g : Nodes) (h key : ℕ) (m : Memory) where
  find_linked-node :
      (fuel : ℕ) (p : Ptr) (e : Element) (n : HashNode)
      → p ≢ null
      → m.heap p ≡ some e
      → load_node p g ≡ some n
      → find_linked (suc fuel) ef g h key p m
        ≡ (if matches ef h key n then ok (some p) m else find_linked fuel ef g h key e.next m)
  unfolding find_linked
  find_linked-node fuel p e n set at found =
      rw (find_linked, not_null p set, load-ok m p e set at, found) refl

  held :
      (p : Ptr) (ps : List Ptr) (r : Option Ptr)
      → find_loop ef g h key (p ∷ ps) ≡ some r
      → (n : HashNode) × (load_node p g ≡ some n)
  unfolding find_loop
  held p ps r e = elim (Option-cases (load_node p g)) [
    | inl gone ↦ absurd (ground (arith, gone))
    | inr (n, found) ↦ (n, found)
  ]

  -- With fuel for its nodes and one step more, the walk along `nNext` finds what the chain says.
  find_linked-find_loop :
      (fuel : ℕ) (b : Ptr) (ps : List Ptr) (r : Option Ptr)
      → Joined m.heap b null (plain ps)
      → length ps < fuel
      → find_loop ef g h key ps ≡ some r
      → find_linked fuel ef g h key (front_or (plain ps) null) m ≡ ok r m
  unfolding find_linked find_loop
  find_linked-find_loop zero b ps r l lt e = absurd (omega arith)
  find_linked-find_loop (suc fuel) b [] r l lt e = ap (λ x. ok x m) (some-injective none r e)
  find_linked-find_loop (suc fuel) b (p ∷ ps) r l lt e =
      let (n, found) = held p ps r e in
      let e' = sym (find_loop-front ef g h key p n ps found) ∙ e in
      find_linked-node fuel p _ n l.1 l.0 found ∙ elim (Bool-cases (matches ef h key n)) [
        | inl hit ↦ rw hit (ap (λ x. ok x m) (some-injective (some p) r (rw hit at e')))
        | inr miss ↦ rw miss (find_linked-find_loop fuel p ps r l.3 (omega arith) (rw miss at e'))
      ]

chain_onto-length :
    (mask i : ℕ) (g : Nodes) (acc : List Ptr)
    → length (chain_onto mask i g acc) ≤ length g + length acc
chain_onto-length mask i [] acc = omega arith
chain_onto-length mask i ((q, n) ∷ g) acc = elim (Bool-cases (index_of n.hash mask == i)) [
  | inl e ↦ rw e (omega (arith, chain_onto-length mask i g (q ∷ acc)))
  | inr e ↦ rw e (omega (arith, chain_onto-length mask i g acc))
]

module _ (ht : HashTable) (k : Links) (h key : ℕ) (call_dtor : Bool) (v : IsValid ht)
    (is : IsLinked ht k) (room : length ht.global < word_size) where
  walk :
      (r : Option Ptr)
      → address (last_match ht.ef h key ht.global) ≡ r
      → find_linked
          (suc (length ht.global))
          ht.ef
          ht.global
          h
          key
          (k.nodes (index_of h ht.mask))
          k.bucket_links
        ≡ ok r k.bucket_links
  walk r e =
      let i = index_of h ht.mask in
      let short : length (ht.buckets i) < suc (length ht.global) =
        subst (λ (c : List Ptr). length c < suc (length ht.global)) (sym (v.buckets i))
          (omega (arith, chain_onto-length ht.mask i ht.global [])) in
      let run : find_loop ht.ef ht.global h key (ht.buckets i) ≡ some r =
        sym (rw (index_of-below h ht.mask ht.capacity v.masked) refl)
        ∙ (find_node-last_match ht h key v ∙ ap (λ x. some x) e) in
      ap (λ p. find_linked (suc (length ht.global)) ht.ef ht.global h key p k.bucket_links)
        (is.firsts i)
      ∙ find_linked-find_loop ht.ef ht.global h key k.bucket_links (suc (length ht.global)) null
          (ht.buckets i) r (is.buckets i) short run

  delete_linked-none :
      last_match ht.ef h key ht.global ≡ none
      → delete_linked (suc (length ht.global)) ht k h key ≡ some (false, k)
  unfolding delete_linked
  delete_linked-none e =
      rw (delete_linked, index_of-below h ht.mask ht.capacity v.masked, walk none (ap address e))
        refl

  delete_linked-some :
      (p : Ptr) (n : HashNode) (k' : Links)
      → last_match ht.ef h key ht.global ≡ some (p, n)
      → unlink k p (index_of n.hash ht.mask) ≡ some k'
      → delete_linked (suc (length ht.global)) ht k h key ≡ some (true, k')
  unfolding delete_linked
  delete_linked-some p n k' e run =
      let same = (match_parts ht.ef h key ht.global p n e).0 in
      let run' : unlink k p (index_of h ht.mask) ≡ some k' =
        ap (λ (x : ℕ). unlink k p (index_of x ht.mask)) (sym same) ∙ run in
      rw
        (
          delete_linked,
          index_of-below h ht.mask ht.capacity v.masked,
          walk (some p) (ap address e),
          run',
        )
        refl

  -- Deletion in a valid table whose links are joined ends without a fault, on the table and on the links,
  -- within one step more than there are nodes. Without a matching node it answers `false` and leaves
  -- both as they are. Else it answers `true` and takes out the last matching node: the table stays
  -- valid, the links join the nodes that are left, in both directions and in their order, and lookups
  -- of keys that do not match that node read what they read before.
  pub hashtable_delete_real-IsLinked :
      ((last_match ht.ef h key ht.global ≡ none)
        × (hashtable_delete_real ht h key call_dtor ≡ some (false, ht))
        × (delete_linked (suc (length ht.global)) ht k h key ≡ some (false, k)))
      ⊎ ((p : Ptr) × (n : HashNode) × (t : HashTable) × (k' : Links) × (last_match ht.ef h key
              ht.global
            ≡ some (p, n))
          × (hashtable_delete_real ht h key call_dtor ≡ some (true, t))
          × (delete_linked (suc (length ht.global)) ht k h key ≡ some (true, k'))
          × IsLinked t k'
          × (t.calls ≡ calls_for call_dtor ht n)
          × Deletes ht h key n t)
  unfolding drop_node
  hashtable_delete_real-IsLinked = elim (Option-cases (last_match ht.ef h key ht.global)) [
    | inl e ↦ inl (e, delete_real-none ht h key call_dtor v room e, delete_linked-none e)
    | inr ((p, n), e) ↦
        let found = load_node-last_match ht h key p n v e in
        let (k', run, joined) = unlink-IsLinked ht v k p n call_dtor is found in
        inr (
          p,
          n,
          drop_node ht p n (index_of n.hash ht.mask) call_dtor,
          k',
          e,
          delete_real-some ht h key call_dtor v room p n e found,
          delete_linked-some p n k' e run,
          joined,
          refl,
          drop_node-Deletes ht h key call_dtor v room p n e found,
        )
  ]
