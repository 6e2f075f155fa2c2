-- ===== src/HashTable/Linked.antt =====
-- Deletion on the links: taking a node out of the table's chains and relinking its neighbours agree.
use mathlib.Core.Bool.{or-false}
use freebsd_pkg_plugins.Base.{
  ℕ, ◌≡◌, refl, sym, subst, ap, ◌∙◌, Bool, true, false, ◌||◌, Option, none, some, List, [], ◌∷◌,
  ◌++◌, ◌==◌, ==_refl, ==→eq, arith, if◌then◌else◌, Bool-cases, Option-cases, inl, inr,
}
use freebsd_pkg_plugins.Dlist.Memory.{Ptr, null, Heap, Memory, ok}
use freebsd_pkg_plugins.Dlist.Linked.{Chain, on_chain, front_or, back_or, Joined, frame}
use freebsd_pkg_plugins.HashTable.{
  HashNode, Nodes, HashTable, load_node, index_of, set_bucket, unlink_node, unlink_ptr, drop_node,
}
use freebsd_pkg_plugins.HashTable.Chains.{has, chain_onto, Distinct, IsValid}
use freebsd_pkg_plugins.HashTable.Links.{
  Links, unlink_bucket, unlink_global, unlink, plain, addresses, IsLinked,
}
use freebsd_pkg_plugins.HashTable.Relinked.{unlink_global-Without, unlink_bucket-Without}

plain-append : (us ws : List Ptr) → plain (us ++ ws) ≡ plain us ++ plain ws
plain-append [] ws = refl
plain-append (u ∷ us) ws = rw (plain-append us ws) refl

-- a chain around an address that is on it, and without it
around :
    (p : Ptr) (ps : List Ptr)
    → on_chain p (plain ps) ≡ true
    → (us : List Ptr) × (ws : List Ptr) × (ps ≡ us ++ p ∷ ws) × (unlink_ptr p ps ≡ us ++ ws)
unfolding unlink_ptr
around p [] on = cc
around p (q ∷ ps) on = elim (Bool-cases (p == q)) [
  | inl here ↦ ([], ps, ap (λ x. x ∷ ps) (sym (==→eq p q here)), rw here refl)
  | inr there ↦
      let (us, ws, e, u) = around p ps (ground arith) in
      (q ∷ us, ws, ap (λ xs. q ∷ xs) e, rw there (ap (λ xs. q ∷ xs) u))
]

addresses-unlink_node :
    (p : Ptr) (g : Nodes) → addresses (unlink_node p g) ≡ unlink_ptr p (addresses g)
unfolding unlink_node unlink_ptr
addresses-unlink_node p [] = refl
addresses-unlink_node p ((q, n) ∷ g) = elim (Bool-cases (p == q)) [
  | inl here ↦ rw here refl
  | inr there ↦ rw there (ap (λ xs. q ∷ xs) (addresses-unlink_node p g))
]

on_chain-addresses :
    (p : Ptr) (g : Nodes) (n : HashNode)
    → load_node p g ≡ some n
    → on_chain p (plain (addresses g)) ≡ true
unfolding load_node
on_chain-addresses p [] n found = cc
on_chain-addresses p ((q, o) ∷ g) n found = ground (arith, on_chain-addresses p g n)

-- whether a node stands at the address that belongs into the bucket
unfoldable belongs : ℕ → ℕ → Option HashNode → Bool
belongs mask i none = false
belongs mask i (some n) = index_of n.hash mask == i

abbrev stands : Ptr → ℕ → ℕ → Nodes → Bool
stands a mask i g = belongs mask i (load_node a g)

unheld : (a : Ptr) (g : Nodes) → has a g ≡ false → load_node a g ≡ none
unfolding load_node
unheld a [] out = refl
unheld a ((q, n) ∷ g) out = ground (arith, unheld a g)

-- one node more, that stands at the address or elsewhere, and belongs into the bucket or not
belongs-step :
    (mask i : ℕ) (n : HashNode) (here inside acc : Bool) (o : Option HashNode)
    → index_of n.hash mask == i ≡ inside
    → (here ≡ true → o ≡ none)
    → (belongs mask i o || (if inside then here || acc else acc))
      ≡ (belongs mask i (if here then some n else o) || acc)
unfolding belongs
belongs-step mask i n true true acc o e gone = rw (gone refl, e) refl
belongs-step mask i n true false acc o e gone = rw (gone refl, e) refl
belongs-step mask i n false true acc o e gone = refl
belongs-step mask i n false false acc o e gone = refl

on_chain-if :
    (a q : Ptr) (acc : List Ptr) (b : Bool)
    → on_chain a (plain (if b then q ∷ acc else acc))
      ≡ (if b then (a == q) || on_chain a (plain acc) else on_chain a (plain acc))
on_chain-if a q acc true = refl
on_chain-if a q acc false = refl

load_node-cons :
    (a q : Ptr) (n : HashNode) (g : Nodes)
    → load_node a ((q, n) ∷ g) ≡ (if a == q then some n else load_node a g)
unfolding load_node
load_node-cons a q n g = refl

stands-step :
    (a q : Ptr) (mask i : ℕ) (n : HashNode) (g : Nodes) (acc : List Ptr)
    → has q g ≡ false
    → (stands a mask i g || on_chain a (plain (if index_of n.hash mask == i then q ∷ acc else acc)))
      ≡ (stands a mask i ((q, n) ∷ g) || on_chain a (plain acc))
stands-step a q mask i n g acc out =
    ap (λ b. stands a mask i g || b) (on_chain-if a q acc (index_of n.hash mask == i))
    ∙ (belongs-step mask i n (a == q) (index_of n.hash mask == i) (on_chain a (plain acc))
          (load_node a g) refl (λ here. unheld a g (ap (λ b. has b g) (==→eq a q here) ∙ out))
        ∙ ap (λ o. belongs mask i o || on_chain a (plain acc)) (sym (load_node-cons a q n g)))

on_chain-chain_onto :
    (a : Ptr) (mask i : ℕ) (g : Nodes) (acc : List Ptr)
    → Distinct g
    → on_chain a (plain (chain_onto mask i g acc)) ≡ (stands a mask i g || on_chain a (plain acc))
unfolding load_node belongs
on_chain-chain_onto a mask i [] acc d = refl
on_chain-chain_onto a mask i ((q, n) ∷ g) acc d =
    on_chain-chain_onto a mask i g (if index_of n.hash mask == i then q ∷ acc else acc) d.1
    ∙ stands-step a q mask i n g acc d.0

unlink-ok :
    (k : Links) (p : Ptr) (i : ℕ) {first head tail : Ptr} {m m' : Memory}
    → unlink_bucket (k.nodes i) p k.bucket_links ≡ ok first m
    → unlink_global k.g_head k.g_tail p k.global_links ≡ ok (head, tail) m'
    → unlink k p i
      ≡ some (record {
        bucket_links = m;
        global_links = m';
        nodes = λ j. if j == i then first else k.nodes j;
        g_head = head;
        g_tail = tail;
      })
unfolding unlink
unlink-ok k p i e e' = rw (unlink, e, e') refl

-- A node has gone from a chain, by the function that unlinks it: the chain stays joined without it, and
-- nodes of other chains stay as they are.
abbrev BucketLoses : Ptr → Memory → Chain → Chain → Type 0
BucketLoses p m c c' =
    (h' : Heap) × (unlink_bucket (front_or c null) p m
      ≡ ok (front_or c' null) (record m { heap = h' }))
    × (Joined h' null null c' × ((a : Ptr) → on_chain a c ≡ false → h' a ≡ m.heap a))

abbrev GlobalLoses : Ptr → Memory → Chain → Chain → Type 0
GlobalLoses p m c c' =
    (h' : Heap) × (unlink_global (front_or c null) (back_or c null) p m
      ≡ ok (front_or c' null, back_or c' null) (record m { heap = h' }))
    × (Joined h' null null c' × ((a : Ptr) → on_chain a c ≡ false → h' a ≡ m.heap a))

module _ (p : Ptr) (m : Memory) (ps : List Ptr) (on : on_chain p (plain ps) ≡ true)
    (is : Joined m.heap null null (plain ps)) where
  both :
      (Loses : Ptr → Memory → Chain → Chain → Type 0)
      → ((us ws : Chain)
          → Joined m.heap null null (us ++ (p, 0) ∷ ws)
          → Loses p m (us ++ (p, 0) ∷ ws) (us ++ ws))
      → Loses p m (plain ps) (plain (unlink_ptr p ps))
  both Loses f =
      let (us, ws, e, u) = around p ps on in
      let whole : plain ps ≡ plain us ++ (p, 0) ∷ plain ws =
        ap plain e ∙ plain-append us (p ∷ ws) in
      let rest : plain (unlink_ptr p ps) ≡ plain us ++ plain ws = ap plain u ∙ plain-append us ws in
      subst (λ c. Loses p m c (plain (unlink_ptr p ps))) (sym whole)
        (subst (λ c. Loses p m (plain us ++ (p, 0) ∷ plain ws) c) (sym rest)
          (f (plain us) (plain ws) (subst (λ c. Joined m.heap null null c) whole is)))

  bucket_loses : BucketLoses p m (plain ps) (plain (unlink_ptr p ps))
  bucket_loses = both BucketLoses (λ us ws l. unlink_bucket-Without us ws p 0 m l)

  global_loses : GlobalLoses p m (plain ps) (plain (unlink_ptr p ps))
  global_loses = both GlobalLoses (λ us ws l. unlink_global-Without us ws p 0 m l)

module _ (ht : HashTable) (v : IsValid ht) where
  on_chain-bucket :
      (a : Ptr) (i : ℕ) → on_chain a (plain (ht.buckets i)) ≡ stands a ht.mask i ht.global
  on_chain-bucket a i =
      ap (λ c. on_chain a (plain c)) (v.buckets i)
      ∙ (on_chain-chain_onto a ht.mask i ht.global [] v.distinct ∙ or-false _)

  -- no node is in two buckets
  one_bucket :
      (a : Ptr) (i j : ℕ)
      → j == i ≡ false
      → on_chain a (plain (ht.buckets j)) ≡ true
      → on_chain a (plain (ht.buckets i)) ≡ false
  unfolding belongs
  one_bucket a i j apart on = elim (Option-cases (load_node a ht.global)) [
    | inl e ↦ rw (on_chain-bucket a i, e) refl
    | inr (n, e) ↦ ground (arith, on_chain-bucket a i, on_chain-bucket a j)
  ]

  in_bucket :
      (p : Ptr) (n : HashNode)
      → load_node p ht.global ≡ some n
      → on_chain p (plain (ht.buckets (index_of n.hash ht.mask))) ≡ true
  unfolding belongs
  in_bucket p n found =
      on_chain-bucket p (index_of n.hash ht.mask) ∙ (rw found (==_refl (index_of n.hash ht.mask)))

  -- The links of a table follow a node out of it, without a fault.
  pub unlink-IsLinked :
      (k : Links) (p : Ptr) (n : HashNode) (call_dtor : Bool)
      → IsLinked ht k
      → load_node p ht.global ≡ some n
      → (k' : Links) × (unlink k p (index_of n.hash ht.mask) ≡ some k')
        × IsLinked (drop_node ht p n (index_of n.hash ht.mask) call_dtor) k'
  unfolding unlink drop_node set_bucket
  unlink-IsLinked k p n call_dtor is found =
      let i = index_of n.hash ht.mask in
      let (h, run, (links, same)) =
        bucket_loses p k.bucket_links (ht.buckets i) (in_bucket p n found) (is.buckets i) in
      let (g, run', (links', same')) =
        global_loses p k.global_links (addresses ht.global) (on_chain-addresses p ht.global n found)
          is.global in
      (
        record {
          bucket_links = record k.bucket_links { heap = h };
          global_links = record k.global_links { heap = g };
          nodes = λ j.
              if j == i then front_or (plain (unlink_ptr p (ht.buckets i))) null else k.nodes j;
          g_head = front_or (plain (unlink_ptr p (addresses ht.global))) null;
          g_tail = back_or (plain (unlink_ptr p (addresses ht.global))) null;
        },
        unlink-ok k p i (ap (λ f. unlink_bucket f p k.bucket_links) (is.firsts i) ∙ run) (
            ap (λ f. unlink_global f k.g_tail p k.global_links) is.head
            ∙ (ap
                  (λ l.
                    unlink_global (front_or (plain (addresses ht.global)) null) l p k.global_links)
                  is.tail
                ∙ run')),
        record {
          global = rw (addresses-unlink_node p ht.global) links';
          head = rw (addresses-unlink_node p ht.global) refl;
          tail = rw (addresses-unlink_node p ht.global) refl;
          buckets = λ j. elim (Bool-cases (j == i)) [
            | inl e ↦ rw e links
            | inr e ↦ rw e (
                frame k.bucket_links.heap h null null (plain (ht.buckets j)) (is.buckets j)
                  (λ a on. same a (one_bucket a i j e on)))
          ];
          firsts =
              λ j. elim (Bool-cases (j == i)) [ inl e ↦ rw e refl | inr e ↦ rw e (is.firsts j) ];
        },
      )
