-- ===== src/HashTable/Content.antt =====
-- A search in the global chain of the hash table, and what it finds after a content has changed.
use freebsd_pkg_plugins.Base.{
  ==→eq, ℕ, ◌≡◌, refl, subst, sym, ap, ◌∙◌, Bool, true, false, Option, none, some, List, [], ◌∷◌,
  ◌++◌, ◌==◌, ==_refl, arith, if◌then◌else◌, length, Bool-cases, Option-cases, inl, inr,
}
use freebsd_pkg_plugins.HashTable.{
  Ptr, HashNode, Nodes, HashTable, load_node, matches, set_content, hashtable_quick_get,
}
use freebsd_pkg_plugins.HashTable.Chains.{
  has, chain_onto, Distinct, IsValid, last_match, find_node-last_match, load_node-last_match,
}

pub some_eq : (a b : HashNode) → some a ≡ some b → a ≡ b
some_eq a b e = ground arith

unmatched :
    (r : Option (Ptr × HashNode)) (b : Bool) (x y : Ptr × HashNode)
    → b ≡ false
    → elim r as (λ _. Option (Ptr × HashNode)) [
      | some s ↦ some s
      | none ↦ if b then some x else none
    ]
      ≡ elim r as (λ _. Option (Ptr × HashNode)) [
        | some s ↦ some s
        | none ↦ if b then some y else none
      ]
unmatched (some s) b x y e = refl
unmatched none b x y e = rw e

module _ (p : Ptr) (v : ℕ) where
  pub chain_onto-set_content :
      (mask i : ℕ) (g : Nodes) (acc : List Ptr)
      → chain_onto mask i (set_content p v g) acc ≡ chain_onto mask i g acc
  unfolding set_content
  chain_onto-set_content mask i [] acc = refl
  chain_onto-set_content mask i ((q, n) ∷ g) acc = elim (Bool-cases (p == q)) [
    | inl here ↦ rw here
    | inr there ↦ rw there (chain_onto-set_content mask i g _)
  ]

  has-set_content : (a : Ptr) (g : Nodes) → has a (set_content p v g) ≡ has a g
  unfolding set_content
  has-set_content a [] = refl
  has-set_content a ((q, n) ∷ g) = ground (arith, has-set_content a g)

  pub Distinct-set_content : (g : Nodes) → Distinct g → Distinct (set_content p v g)
  unfolding set_content
  Distinct-set_content [] d = tt
  Distinct-set_content ((q, n) ∷ g) d = elim (Bool-cases (p == q)) [
    | inl here ↦ rw here d
    | inr there ↦ rw there (has-set_content q g ∙ d.0, Distinct-set_content g d.1)
  ]

  pub length-set_content : (g : Nodes) → length (set_content p v g) ≡ length g
  unfolding set_content
  length-set_content [] = refl
  length-set_content ((q, n) ∷ g) = ground (arith, length-set_content g)

  -- a node that does not match may change its content
  pub last_match-set_content_other :
      (ef : ℕ → ℕ → Bool) (h key : ℕ) (g : Nodes) (n : HashNode)
      → load_node p g ≡ some n
      → matches ef h key n ≡ false
      → last_match ef h key (set_content p v g) ≡ last_match ef h key g
  unfolding set_content load_node
  last_match-set_content_other ef h key [] n found miss = refl
  last_match-set_content_other ef h key ((q, o) ∷ g) n found miss = elim (Bool-cases (p == q)) [
    | inl here ↦
        let same : o ≡ n = some_eq _ _ (rw here at found) in
        let miss' : matches ef h key o ≡ false =
          subst (λ k. matches ef h key k ≡ false) (sym same) miss in
        rw here (unmatched (last_match ef h key g) (matches ef h key o) _ _ miss')
    | inr there ↦ rw (there, last_match-set_content_other ef h key g n (rw there at found) miss)
  ]

pub has_of_match :
    (ef : ℕ → ℕ → Bool) (h key : ℕ) (g : Nodes) (p : Ptr) (n : HashNode)
    → last_match ef h key g ≡ some (p, n)
    → has p g ≡ true
has_of_match ef h key [] p n e = cc
has_of_match ef h key ((q, o) ∷ g) p n e = ground (arith, has_of_match ef h key g p n)

pub apart : (p q : Ptr) (g : Nodes) → has p g ≡ true → has q g ≡ false → p == q ≡ false
apart p q g i o = elim (Bool-cases (p == q)) [
  | inr ne ↦ ne
  | inl e ↦ ground (arith, ap (λ a. has a g) (==→eq p q e))
]

pub picked_eq :
    (q : Ptr) (o : HashNode) (p : Ptr) (n : HashNode) (b : Bool)
    → if◌then◌else◌ {A = Option (Ptr × HashNode)} b (some (q, o)) none ≡ some (p, n)
    → (b ≡ true) × (q ≡ p) × (o ≡ n)
picked_eq q o p n true e = (refl, ground arith, ground arith)
picked_eq q o p n false e = cc

-- the node that was found is found again, with its new content
pub last_match-set_content :
    (ef : ℕ → ℕ → Bool) (h key v : ℕ) (g : Nodes) (p : Ptr) (n : HashNode)
    → Distinct g
    → last_match ef h key g ≡ some (p, n)
    → last_match ef h key (set_content p v g) ≡ some (p, record n { content = v })
unfolding set_content
last_match-set_content ef h key v [] p n d e = cc
last_match-set_content ef h key v ((q, o) ∷ g) p n d e =
    elim (Option-cases (last_match ef h key g)) [
      | inr (r, s) ↦
          let found : last_match ef h key g ≡ some (p, n) = s ∙ (rw s at e) in
          let there : p == q ≡ false = apart p q g (has_of_match ef h key g p n found) d.0 in
          rw (there, last_match-set_content ef h key v g p n d.1 found)
      | inl nothing ↦
          let (hit, here, same) = picked_eq q o p n (matches ef h key o) (rw nothing at e) in
          rw (here, ==_refl p, nothing, hit) (rw same)
    ]

pub last_match-append :
    (ef : ℕ → ℕ → Bool) (h key : ℕ) (g : Nodes) (p : Ptr) (n : HashNode)
    → last_match ef h key (g ++ (p, n) ∷ [])
      ≡ if◌then◌else◌ {A = Option (Ptr × HashNode)}
          (matches ef h key n)
          (some (p, n))
          (last_match ef h key g)
last_match-append ef h key [] p n = refl
last_match-append ef h key ((q, o) ∷ g) p n = elim (Bool-cases (matches ef h key n)) [
  | inl hit ↦ rw (last_match-append ef h key g p n, hit)
  | inr miss ↦ rw (last_match-append ef h key g p n, miss)
]

-- what a lookup answers when its search ends so
abbrev pub content_of : Option (Ptr × HashNode) → Option ℕ
content_of none = none
content_of (some (p, n)) = some n.content

-- A lookup in a valid table reads the last matching node of the global chain, without a fault.
pub quick_get-last_match :
    (ht : HashTable) (h key : ℕ)
    → IsValid ht
    → hashtable_quick_get ht h key ≡ some (content_of (last_match ht.ef h key ht.global))
unfolding hashtable_quick_get
quick_get-last_match ht h key v = elim (Option-cases (last_match ht.ef h key ht.global)) [
  | inl e ↦ rw (find_node-last_match ht h key v, e)
  | inr ((p, n), e) ↦ rw (find_node-last_match ht h key v, e, load_node-last_match ht h key p n v e)
]
