-- ===== src/HashTable/Chains.antt =====
-- The invariant of the hash table: each bucket is determined by the global chain.
use mathlib.Core.Bool.{or_assoc}
use freebsd_pkg_plugins.Base.{
  Option-cases, ℕ, ◌≡◌, ◌<◌, refl, subst, ap, ◌∙◌, Bool, true, false, ◌||◌, Option, none, some,
  List, [], ◌∷◌, ◌++◌, ◌==◌, ==_refl, arith, if◌then◌else◌, length, Bool-cases, inl, inr, ==→eq,
}
use freebsd_pkg_plugins.HashTable.Index.{index_of-below}
use freebsd_pkg_plugins.HashTable.{
  Ptr, HashNode, Nodes, HashTable, load_node, matches, find_loop, find_node, index_of, rehash_loop,
  set_bucket,
}

abbrev pub has : Ptr → Nodes → Bool
has a [] = false
has a ((p, _) ∷ g) = (a == p) || has a g

-- The chain at index `i` once the nodes `g` have gone to the front of their buckets, before `acc`.
abbrev pub chain_onto : ℕ → ℕ → Nodes → List Ptr → List Ptr
chain_onto mask i [] acc = acc
chain_onto mask i ((p, n) ∷ g) acc =
    chain_onto mask i g (if index_of n.hash mask == i then p ∷ acc else acc)

abbrev pub Distinct : Nodes → Type 0
Distinct [] = Unit
Distinct ((p, _) ∷ g) = (has p g ≡ false) × Distinct g

-- Nodes stand at distinct addresses, bucket `i` links the nodes that hash to `i`, the newest
-- first, and `count` counts them all; no masked hash is an index out of bounds.
pub record IsValid (ht : HashTable) : Type 0 where
  pub buckets : (i : ℕ) → ht.buckets i ≡ chain_onto ht.mask i ht.global []
  pub distinct : Distinct ht.global
  pub counted : ht.count ≡ length ht.global
  pub masked : ht.mask < ht.capacity

-- the last node of the global chain that passes the test, with its address
abbrev pub last_match : (ℕ → ℕ → Bool) → ℕ → ℕ → Nodes → Option (Ptr × HashNode)
last_match ef h key [] = none
last_match ef h key ((p, n) ∷ g) = elim (last_match ef h key g) [
  | some r ↦ some r
  | none ↦ if matches ef h key n then some (p, n) else none
]

abbrev pub Loaded : Nodes → Nodes → Type 0
Loaded g [] = Unit
Loaded g ((p, n) ∷ k) = (load_node p g ≡ some n) × Loaded g k

Loaded-cons :
    (p : Ptr) (n : HashNode) (g k : Nodes) → Loaded g k → has p k ≡ false → Loaded ((p, n) ∷ g) k
unfolding load_node
Loaded-cons p n g [] l out = tt
Loaded-cons p n g ((q, o) ∷ k) l out = (ground arith, Loaded-cons p n g k l.1 (ground arith))

pub Loaded-self : (g : Nodes) → Distinct g → Loaded g g
unfolding load_node
Loaded-self [] d = tt
Loaded-self ((p, n) ∷ g) d = (ground arith, Loaded-cons p n g g (Loaded-self g d.1) d.0)

-- how the walk along a bucket ends when the chain before it has no match
abbrev found_or : Option (Ptr × HashNode) → Option (Option Ptr) → Option (Option Ptr)
found_or (some (p, _)) rest = some (some p)
found_or none rest = rest

matches-index :
    (ef : ℕ → ℕ → Bool) (h key mask : ℕ) (n : HashNode)
    → matches ef h key n ≡ true
    → index_of n.hash mask == index_of h mask ≡ true
matches-index ef h key mask n e =
    let same : n.hash ≡ h = ground arith in
    subst (λ k. index_of n.hash mask == index_of k mask ≡ true) same
      (==_refl (index_of n.hash mask))

pub find_loop-front :
    (ef : ℕ → ℕ → Bool) (g : Nodes) (h key : ℕ) (p : Ptr) (n : HashNode) (acc : List Ptr)
    → load_node p g ≡ some n
    → find_loop ef g h key (p ∷ acc)
      ≡ (if matches ef h key n then some (some p) else find_loop ef g h key acc)
unfolding find_loop
find_loop-front ef g h key p n acc at = rw (find_loop, at)

-- one node of the chain, in its bucket or in another
find_loop-step :
    (ef : ℕ → ℕ → Bool) (g : Nodes) (h key mask : ℕ) (p : Ptr) (n : HashNode) (acc : List Ptr)
    → load_node p g ≡ some n
    → find_loop ef g h key (if index_of n.hash mask == index_of h mask then p ∷ acc else acc)
      ≡ (if matches ef h key n then some (some p) else find_loop ef g h key acc)
find_loop-step ef g h key mask p n acc at = elim (Bool-cases (matches ef h key n)) [
  | inl hit ↦ rw (matches-index ef h key mask n hit) (find_loop-front ef g h key p n acc at)
  | inr miss ↦ elim (Bool-cases (index_of n.hash mask == index_of h mask)) [
    | inl here ↦ rw here (find_loop-front ef g h key p n acc at)
    | inr elsewhere ↦ rw (elsewhere, miss)
  ]
]

-- what the walk finds in a longer chain
found_or-step :
    (r : Option (Ptr × HashNode)) (p : Ptr) (n : HashNode) (b : Bool) (a c : Option (Option Ptr))
    → a ≡ (if b then some (some p) else c)
    → found_or r a
      ≡ found_or (elim r [ some s ↦ some s | none ↦ if b then some (p, n) else none ]) c
found_or-step (some s) p n b a c e = refl
found_or-step none p n true a c e = e
found_or-step none p n false a c e = e

pub find_loop-chain_onto :
    (ef : ℕ → ℕ → Bool) (g : Nodes) (h key mask : ℕ) (k : Nodes) (acc : List Ptr)
    → Loaded g k
    → find_loop ef g h key (chain_onto mask (index_of h mask) k acc)
      ≡ found_or (last_match ef h key k) (find_loop ef g h key acc)
find_loop-chain_onto ef g h key mask [] acc l = refl
find_loop-chain_onto ef g h key mask ((p, n) ∷ k) acc l =
    let acc' = if index_of n.hash mask == index_of h mask then p ∷ acc else acc in
    find_loop-chain_onto ef g h key mask k acc' l.1
    ∙ found_or-step (last_match ef h key k) p n (matches ef h key n) _ _
        (find_loop-step ef g h key mask p n acc l.0)

-- the address part of a search's answer
abbrev pub address : Option (Ptr × HashNode) → Option Ptr
address none = none
address (some (p, _)) = some p

found_or-none : (r : Option (Ptr × HashNode)) → found_or r (some none) ≡ some (address r)
found_or-none none = refl
found_or-none (some r) = refl

-- In a valid table the walk along a bucket is the search for the last matching node.
pub find_node-last_match :
    (ht : HashTable) (h key : ℕ)
    → IsValid ht
    → find_node ht h key ≡ some (address (last_match ht.ef h key ht.global))
unfolding find_loop
find_node-last_match ht h key v =
    rw (index_of-below h ht.mask ht.capacity v.masked, v.buckets (index_of h ht.mask))
      (find_loop-chain_onto ht.ef ht.global h key ht.mask ht.global []
          (Loaded-self ht.global v.distinct)
        ∙ found_or-none (last_match ht.ef h key ht.global))

picked :
    (g : Nodes) (q : Ptr) (o : HashNode) (p : Ptr) (n : HashNode) (b : Bool)
    → load_node q g ≡ some o
    → if◌then◌else◌ {A = Option (Ptr × HashNode)} b (some (q, o)) none ≡ some (p, n)
    → load_node p g ≡ some n
picked g q o p n true at e = ground (arith)
picked g q o p n false at e = cc

-- A match that a search finds can be loaded from its address.
load_node-match :
    (ef : ℕ → ℕ → Bool) (g : Nodes) (h key : ℕ) (k : Nodes) (p : Ptr) (n : HashNode)
    → Loaded g k
    → last_match ef h key k ≡ some (p, n)
    → load_node p g ≡ some n
load_node-match ef g h key [] p n l e = cc
load_node-match ef g h key ((q, o) ∷ k) p n l e = elim (Option-cases (last_match ef h key k)) [
  | inl nothing ↦ picked g q o p n (matches ef h key o) l.0 (rw nothing at e)
  | inr (r, s) ↦ load_node-match ef g h key k p n l.1 (s ∙ (rw s at e))
]

-- the same in a valid table
pub load_node-last_match :
    (ht : HashTable) (h key : ℕ) (p : Ptr) (n : HashNode)
    → IsValid ht
    → last_match ht.ef h key ht.global ≡ some (p, n)
    → load_node p ht.global ≡ some n
load_node-last_match ht h key p n v e =
    load_node-match ht.ef ht.global h key ht.global p n (Loaded-self ht.global v.distinct) e

pub set_bucket-front :
    (b : ℕ → List Ptr) (p j i : ℕ) → set_bucket b j (p ∷ b j) i ≡ (if j == i then p ∷ b i else b i)
unfolding set_bucket
set_bucket-front b p j i = elim (Bool-cases (j == i)) [
  | inl same ↦ rw (same, ==→eq j i same, ==_refl i)
  | inr other ↦ rw (other, (let flipped : i == j ≡ false = ground arith in flipped))
]

-- the chains once the nodes have gone to their buckets
abbrev pub spread : ℕ → Nodes → (ℕ → List Ptr) → ℕ → List Ptr
spread mask [] b = b
spread mask ((p, n) ∷ g) b =
    spread mask g (set_bucket b (index_of n.hash mask) (p ∷ b (index_of n.hash mask)))

pub rehash_loop-spread :
    (capacity mask : ℕ) (g : Nodes) (b : ℕ → List Ptr)
    → mask < capacity
    → rehash_loop capacity mask g b ≡ some (spread mask g b)
unfolding rehash_loop
rehash_loop-spread capacity mask [] b lt = refl
rehash_loop-spread capacity mask ((p, n) ∷ g) b lt =
    rw (index_of-below n.hash mask capacity lt) (rehash_loop-spread capacity mask g _ lt)

-- rehashing sends the nodes to the chains that the invariant names
pub spread-chain_onto :
    (mask i : ℕ) (g : Nodes) (b : ℕ → List Ptr) → spread mask g b i ≡ chain_onto mask i g (b i)
spread-chain_onto mask i [] b = refl
spread-chain_onto mask i ((p, n) ∷ g) b =
    spread-chain_onto mask i g _
    ∙ ap (chain_onto mask i g) (set_bucket-front b p (index_of n.hash mask) i)

-- a node at the end of the global chain stands at the front of its bucket
pub chain_onto-append :
    (mask i : ℕ) (g : Nodes) (p : Ptr) (n : HashNode) (acc : List Ptr)
    → chain_onto mask i (g ++ (p, n) ∷ []) acc
      ≡ (if index_of n.hash mask == i then p ∷ chain_onto mask i g acc else chain_onto mask i g acc)
chain_onto-append mask i [] p n acc = refl
chain_onto-append mask i ((q, o) ∷ g) p n acc = chain_onto-append mask i g p n _

pub has-append : (a : Ptr) (g k : Nodes) → has a (g ++ k) ≡ (has a g || has a k)
has-append a [] k = refl
has-append a (x ∷ g) k = rw (has-append a g k, or_assoc)

pub Distinct-append :
    (g : Nodes) (p : Ptr) (n : HashNode)
    → Distinct g
    → has p g ≡ false
    → Distinct (g ++ (p, n) ∷ [])
Distinct-append [] p n d out = (refl, tt)
Distinct-append ((q, o) ∷ g) p n d out =
    (rw (has-append q g ((p, n) ∷ [])) (ground arith), Distinct-append g p n d.1 (ground arith))
