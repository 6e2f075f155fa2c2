-- ===== src/HashTable/Unlinking.antt =====
-- Taking a node out of the chains of the hash table, and what a search then finds.
use freebsd_pkg_plugins.Base.{
  ℕ, ◌+◌, ◌≤◌, ◌≡◌, refl, subst, sym, ap, ◌∙◌, Bool, true, false, Option, none, some, List, [], ◌∷◌,
  ◌==◌, ==_refl, ==→eq, arith, if◌then◌else◌, length, Bool-cases, Option-cases, inl, inr,
}
use freebsd_pkg_plugins.HashTable.{
  Ptr, HashNode, Nodes, load_node, matches, index_of, unlink_node, unlink_ptr,
}
use freebsd_pkg_plugins.HashTable.Chains.{has, chain_onto, Distinct, last_match}
use freebsd_pkg_plugins.HashTable.Content.{has_of_match, apart, picked_eq, some_eq}

module _ (p : Ptr) (mask i : ℕ) where
  -- a node outside `g` leaves the chain below the nodes of `g`
  unlink_ptr-chain_onto :
      (g : Nodes) (acc : List Ptr)
      → has p g ≡ false
      → unlink_ptr p (chain_onto mask i g acc) ≡ chain_onto mask i g (unlink_ptr p acc)
  unfolding unlink_ptr
  unlink_ptr-chain_onto [] acc out = refl
  unlink_ptr-chain_onto ((q, o) ∷ g) acc out =
      let there : p == q ≡ false = ground arith in
      elim (Bool-cases (index_of o.hash mask == i)) [
        | inl here ↦ rw here (unlink_ptr-chain_onto g (q ∷ acc) (ground arith) ∙ (rw there))
        | inr elsewhere ↦ rw elsewhere (unlink_ptr-chain_onto g acc (ground arith))
      ]

  chain_onto-drop_head :
      (q : Ptr) (o : HashNode) (g : Nodes) (acc : List Ptr)
      → p == q ≡ true
      → has q g ≡ false
      → chain_onto mask i g acc ≡ (
          if index_of o.hash mask == i
          then unlink_ptr p (chain_onto mask i ((q, o) ∷ g) acc)
          else chain_onto mask i ((q, o) ∷ g) acc)
  unfolding unlink_ptr
  chain_onto-drop_head q o g acc same out =
      let gone : has p g ≡ false = ap (λ a. has a g) (==→eq p q same) ∙ out in
      elim (Bool-cases (index_of o.hash mask == i)) [
        | inl here ↦ rw here (sym (unlink_ptr-chain_onto g (q ∷ acc) gone ∙ (rw same)))
        | inr elsewhere ↦ rw elsewhere
      ]

  -- the chain of a table without the node, in the node's bucket and in the others
  pub chain_onto-unlink_node :
      (g : Nodes) (n : HashNode) (acc : List Ptr)
      → Distinct g
      → load_node p g ≡ some n
      → chain_onto mask i (unlink_node p g) acc ≡ (
          if index_of n.hash mask == i
          then unlink_ptr p (chain_onto mask i g acc)
          else chain_onto mask i g acc)
  unfolding unlink_node load_node
  chain_onto-unlink_node [] n acc d found = cc
  chain_onto-unlink_node ((q, o) ∷ g) n acc d found = elim (Bool-cases (p == q)) [
    | inr there ↦ rw there (chain_onto-unlink_node g n _ d.1 (rw there at found))
    | inl here ↦
        let same : o ≡ n = some_eq o n (rw here at found) in
        rw here (
          subst
            (λ (k : HashNode). chain_onto mask i g acc ≡ (
              if index_of k.hash mask == i
              then unlink_ptr p (chain_onto mask i ((q, o) ∷ g) acc)
              else chain_onto mask i ((q, o) ∷ g) acc))
            same (chain_onto-drop_head q o g acc here d.0))
  ]

no_match :
    (r : Option (Ptr × HashNode)) (b : Bool) (x : Ptr × HashNode)
    → b ≡ false
    → r ≡ elim r as (λ _. Option (Ptr × HashNode)) [
      | some s ↦ some s
      | none ↦ if b then some x else none
    ]
no_match (some s) b x e = refl
no_match none b x e = rw e

module _ (p : Ptr) where
  has-unlink_node : (a : Ptr) (g : Nodes) → has a g ≡ false → has a (unlink_node p g) ≡ false
  unfolding unlink_node
  has-unlink_node a [] out = refl
  has-unlink_node a ((q, o) ∷ g) out = ground (arith, has-unlink_node a g)

  pub Distinct-unlink_node : (g : Nodes) → Distinct g → Distinct (unlink_node p g)
  unfolding unlink_node
  Distinct-unlink_node [] d = tt
  Distinct-unlink_node ((q, o) ∷ g) d = elim (Bool-cases (p == q)) [
    | inl here ↦ rw here d.1
    | inr there ↦ rw there (has-unlink_node q g d.0, Distinct-unlink_node g d.1)
  ]

  pub length-unlink_node :
      (g : Nodes) (n : HashNode) → load_node p g ≡ some n → length (unlink_node p g) + 1 ≡ length g
  unfolding unlink_node load_node
  length-unlink_node [] n found = cc
  length-unlink_node ((q, o) ∷ g) n found = ground (arith, length-unlink_node g n)

  -- a search that the node does not match does not miss it
  pub last_match-unlink_node :
      (ef : ℕ → ℕ → Bool) (h key : ℕ) (g : Nodes) (n : HashNode)
      → load_node p g ≡ some n
      → matches ef h key n ≡ false
      → last_match ef h key (unlink_node p g) ≡ last_match ef h key g
  unfolding unlink_node load_node
  last_match-unlink_node ef h key [] n found miss = cc
  last_match-unlink_node ef h key ((q, o) ∷ g) n found miss = elim (Bool-cases (p == q)) [
    | inl here ↦
        let same : o ≡ n = some_eq o n (rw here at found) in
        let miss' : matches ef h key o ≡ false =
          subst (λ (k : HashNode). matches ef h key k ≡ false) (sym same) miss in
        rw here (no_match (last_match ef h key g) (matches ef h key o) (q, o) miss')
    | inr there ↦ rw (there, last_match-unlink_node ef h key g n (rw there at found) miss)
  ]

-- the number of nodes that a key and its hash match
abbrev pub count_matches : (ℕ → ℕ → Bool) → ℕ → ℕ → Nodes → ℕ
count_matches ef h key [] = 0
count_matches ef h key ((p, n) ∷ g) =
    if matches ef h key n then count_matches ef h key g + 1 else count_matches ef h key g

none_left :
    (ef : ℕ → ℕ → Bool) (h key : ℕ) (g : Nodes)
    → count_matches ef h key g ≡ 0
    → last_match ef h key g ≡ none
none_left ef h key [] e = refl
none_left ef h key ((q, o) ∷ g) e = ground (arith, none_left ef h key g)

found_counted :
    (ef : ℕ → ℕ → Bool) (h key : ℕ) (g : Nodes) (p : Ptr) (n : HashNode)
    → last_match ef h key g ≡ some (p, n)
    → 1 ≤ count_matches ef h key g
found_counted ef h key [] p n e = cc
found_counted ef h key ((q, o) ∷ g) p n e = ground (arith, found_counted ef h key g p n)

only_one : (b : Bool) (c : ℕ) → 1 ≤ c → (if b then c + 1 else c) ≤ 1 → b ≡ false
only_one true c some_found once = absurd (omega arith)
only_one false c some_found once = refl

fewer : (b : Bool) (c : ℕ) → (if b then c + 1 else c) ≤ 1 → c ≤ 1
fewer true c once = omega arith
fewer false c once = once

-- taking out the only match leaves none
pub last_match-unlink_match :
    (ef : ℕ → ℕ → Bool) (h key : ℕ) (g : Nodes) (p : Ptr) (n : HashNode)
    → Distinct g
    → count_matches ef h key g ≤ 1
    → last_match ef h key g ≡ some (p, n)
    → last_match ef h key (unlink_node p g) ≡ none
unfolding unlink_node
last_match-unlink_match ef h key [] p n d once e = cc
last_match-unlink_match ef h key ((q, o) ∷ g) p n d once e =
    elim (Option-cases (last_match ef h key g)) [
      | inr (r, s) ↦
          let found : last_match ef h key g ≡ some (p, n) = s ∙ (rw s at e) in
          let there : p == q ≡ false = apart p q g (has_of_match ef h key g p n found) d.0 in
          let miss : matches ef h key o ≡ false =
            only_one (matches ef h key o) _ (found_counted ef h key g p n found) once in
          rw (
            there,
            last_match-unlink_match ef h key g p n d.1 (fewer (matches ef h key o) _ once) found,
            miss,
          )
      | inl nothing ↦
          let (hit, here, same) = picked_eq q o p n (matches ef h key o) (rw nothing at e) in
          rw (here, ==_refl p, nothing)
    ]
