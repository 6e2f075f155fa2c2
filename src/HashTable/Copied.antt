-- ===== src/HashTable/Copied.antt =====
-- The loop of hashtable_copy of kissc/hashtable.c: the chain that it leaves.
use mathlib.Core.Option
use freebsd_pkg_plugins.Base.{
  ℕ, suc, ◌+◌, ◌<◌, ◌≤◌, ◌≡◌, ◌≢◌, refl, sym, ap, subst, ◌∙◌, Bool, true, false, ◌&&◌, Option, none,
  some, [], ◌∷◌, ◌++◌, append_assoc, append-nil, ◌==◌, ==_refl, arith, if◌then◌else◌, length,
  length-append, word_size,
}
use freebsd_pkg_plugins.HashTable.{Ptr, HashNode, Nodes, HashTable, matches, hashtable_quick_put}
use freebsd_pkg_plugins.HashTable.Chains.{has, IsValid, last_match}
use freebsd_pkg_plugins.HashTable.Insertion.{
  inserted, resized, stored_key, put-new, inserted-IsValid,
}
use freebsd_pkg_plugins.HashTable.Content.{content_of}
use freebsd_pkg_plugins.HashTable.Reading.{inserted-same}
use freebsd_pkg_plugins.HashTable.Unlinking.{count_matches}
use freebsd_pkg_plugins.HashTable.Whole.{duplicate, copy_loop}

-- a node's copy
abbrev pub copied_node : Option (ℕ → ℕ) → Option (ℕ → ℕ) → HashNode → HashNode
copied_node key_duper value_duper n = record {
  hash = n.hash;
  key = duplicate key_duper n.key;
  content = duplicate value_duper n.content;
}

content-step :
    (f : ℕ → ℕ) (r s : Option (Ptr × HashNode)) (b' b : Bool) (q p : Ptr) (o n : HashNode)
    → content_of r ≡ Option.map f (content_of s)
    → o.content ≡ f n.content
    → b' ≡ b
    → content_of (elim r [ some t ↦ some t | none ↦ if b' then some (q, o) else none ])
      ≡ Option.map f
          (content_of (elim s [ some t ↦ some t | none ↦ if b then some (p, n) else none ]))
content-step f none none true true q p o n e c d = ap some c
content-step f none none true false q p o n e c d = cc
content-step f none none false true q p o n e c d = cc
content-step f none none false false q p o n e c d = refl
content-step f none (some (a, m)) b' b q p o n e c d = cc
content-step f (some (a, m)) none b' b q p o n e c d = cc
content-step f (some r) (some s) b' b q p o n e c d = e

module _ (fresh : ℕ → Ptr) (key_duper value_duper : Option (ℕ → ℕ)) where
  abbrev pub copied : ℕ → Nodes → Nodes
  copied i [] = []
  copied i ((p, n) ∷ g) = (fresh i, copied_node key_duper value_duper n) ∷ copied (i + 1) g

  copied-append : (i : ℕ) (g k : Nodes) → copied i (g ++ k) ≡ copied i g ++ copied (i + length g) k
  copied-append i [] k = ap (λ j. copied j k) (omega arith)
  copied-append i ((p, n) ∷ g) k =
      ap (λ t. (fresh i, copied_node key_duper value_duper n) ∷ t)
        (copied-append (i + 1) g k ∙ ap (λ j. copied (i + 1) g ++ copied j k) (omega arith))

  has-copied :
      (a i : ℕ) (g : Nodes)
      → ((j : ℕ) → j < length g → a == fresh (i + j) ≡ false)
      → has a (copied i g) ≡ false
  has-copied a i [] other = refl
  has-copied a i ((p, n) ∷ g) other =
      let here : a == fresh i ≡ false =
        subst (λ j. a == fresh j ≡ false) (omega arith) (other 0 (omega arith)) in
      rw here (
        has-copied a (i + 1) g
          (λ j lt. subst (λ k. a == fresh k ≡ false) (omega arith) (other (j + 1) (omega arith))))

  length-copied : (i : ℕ) (g : Nodes) → length (copied i g) ≡ length g
  length-copied i [] = refl
  length-copied i (x ∷ g) = ap suc (length-copied (i + 1) g)

  -- Where a key's copy is tested as the key is, a search finds the copy of what it finds.
  pub last_match-copied :
      (ef : ℕ → ℕ → Bool) (h key i : ℕ) (g : Nodes)
      → ((x k : ℕ) → ef x (duplicate key_duper k) ≡ ef x k)
      → content_of (last_match ef h key (copied i g))
        ≡ Option.map (duplicate value_duper) (content_of (last_match ef h key g))
  last_match-copied ef h key i [] same = refl
  last_match-copied ef h key i ((p, n) ∷ g) same =
      content-step (duplicate value_duper) (last_match ef h key (copied (i + 1) g))
        (last_match ef h key g) (matches ef h key (copied_node key_duper value_duper n))
        (matches ef h key n) (fresh i) p (copied_node key_duper value_duper n) n
        (last_match-copied ef h key (i + 1) g same) refl
        (ap (λ b. n.hash == h && b) (same key n.key))

count_matches_append :
    (ef : ℕ → ℕ → Bool) (h key : ℕ) (g k : Nodes)
    → count_matches ef h key (g ++ k) ≡ count_matches ef h key g + count_matches ef h key k
count_matches_append ef h key [] k = omega arith
count_matches_append ef h key ((p, n) ∷ g) k = ground (arith, count_matches_append ef h key g k)

uncounted :
    (ef : ℕ → ℕ → Bool) (h key : ℕ) (g : Nodes)
    → count_matches ef h key g ≡ 0
    → last_match ef h key g ≡ none
uncounted ef h key [] e = refl
uncounted ef h key ((p, n) ∷ g) e = ground (arith, uncounted ef h key g)

-- in a chain with each key once, a node's key is not in the nodes before it
absent-before :
    (ef : ℕ → ℕ → Bool) (g k : Nodes) (p : Ptr) (n : HashNode)
    → ef n.key n.key ≡ true
    → count_matches ef n.hash n.key (g ++ (p, n) ∷ k) ≤ 1
    → last_match ef n.hash n.key g ≡ none
absent-before ef g k p n self once =
    let hit : matches ef n.hash n.key n ≡ true = rw (==_refl n.hash) self in
    let split = count_matches_append ef n.hash n.key g ((p, n) ∷ k) in
    let one : count_matches ef n.hash n.key ((p, n) ∷ k) ≡ count_matches ef n.hash n.key k + 1 =
      rw hit refl in
    uncounted ef n.hash n.key g (omega arith)

inserted-key_duper :
    (fresh : Ptr) (ht : HashTable) (h key value : ℕ)
    → (inserted fresh ht h key value).key_duper ≡ ht.key_duper
unfolding inserted resized
inserted-key_duper fresh ht h key value = ground arith

key_of : (o : Option (ℕ → ℕ)) (k : ℕ) → elim o [ none ↦ k | some dup ↦ dup k ] ≡ duplicate o k
key_of none k = refl
key_of (some f) k = refl

pub content_of-none : (r : Option (Ptr × HashNode)) → content_of r ≡ none → r ≡ none
content_of-none none e = refl
content_of-none (some (p, n)) e = cc

module _ (fresh : ℕ → Ptr) (key_duper value_duper : Option (ℕ → ℕ)) (ef : ℕ → ℕ → Bool)
    (some_memory : (i : ℕ) → fresh i ≢ 0)
    (new_memory : (i j : ℕ) → i < j → fresh j == fresh i ≡ false)
    (same : (x k : ℕ) → ef x (duplicate key_duper k) ≡ ef x k)
    (self : (k : ℕ) → ef k k ≡ true) where
  -- The copy of `pre` becomes the copy of `pre ++ g`.
  pub copy_loop-IsValid :
      (g pre : Nodes) (ret : HashTable)
      → IsValid ret
      → ret.ef ≡ ef
      → ret.key_duper ≡ key_duper
      → ret.global ≡ copied fresh key_duper value_duper 0 pre
      → length pre + length g < word_size
      → ((h key : ℕ) → count_matches ef h key (pre ++ g) ≤ 1)
      → (t : HashTable) × (copy_loop fresh value_duper (length pre) ret g ≡ some t)
        × IsValid t
        × (t.ef ≡ ef)
        × (t.global ≡ copied fresh key_duper value_duper 0 (pre ++ g))
  unfolding copy_loop hashtable_quick_put
  copy_loop-IsValid [] pre ret v e d gl room once =
      (ret, refl, v, e, gl ∙ ap (copied fresh key_duper value_duper 0) (sym (append-nil pre)))
  copy_loop-IsValid ((p, n) ∷ g) pre ret v e d gl room once =
      let i = length pre in
      let value = duplicate value_duper n.content in
      let unused : has (fresh i) ret.global ≡ false =
        subst (λ k. has (fresh i) k ≡ false) (sym gl)
          (has-copied fresh key_duper value_duper (fresh i) 0 pre
            (λ j lt. subst (λ k. fresh i == fresh k ≡ false) (omega arith) (new_memory j i lt))) in
      let roomy : length ret.global + 1 < word_size =
        omega (arith, ap length gl, length-copied fresh key_duper value_duper 0 pre) in
      let absent : last_match ret.ef n.hash n.key ret.global ≡ none =
        (λ j. last_match (e j) n.hash n.key (gl j))
        ∙ content_of-none _ (
            last_match-copied fresh key_duper value_duper ef n.hash n.key 0 pre same
            ∙ ap (λ r. Option.map (duplicate value_duper) (content_of r))
                (absent-before ef pre g p n (self n.key) (once n.hash n.key))) in
      let put =
        put-new (fresh i) ret false n.hash n.key value v unused (some_memory i) roomy absent in
      let ret' : HashTable = inserted (fresh i) ret n.hash n.key value in
      let valid : IsValid ret' =
        inserted-IsValid (fresh i) ret false n.hash n.key value v unused (some_memory i) roomy in
      let (nodes, ef_kept) = inserted-same (fresh i) ret n.hash n.key value in
      let stored : stored_key ret n.key ≡ duplicate key_duper n.key =
        key_of ret.key_duper n.key ∙ ap (λ o. duplicate o n.key) d in
      let grown : ret'.global ≡ copied fresh key_duper value_duper 0 (pre ++ (p, n) ∷ []) =
        nodes
        ∙ (λ j. gl j ++ (fresh i, record { hash = n.hash; key = stored j; content = value }) ∷ [])
        ∙ ap
            (λ k.
              copied fresh key_duper value_duper 0 pre
              ++ (fresh k, copied_node key_duper value_duper n) ∷ [])
            (omega arith)
        ∙ sym (copied-append fresh key_duper value_duper 0 pre ((p, n) ∷ [])) in
      let longer = length-append pre ((p, n) ∷ []) in
      let (t, run, v', e', gl') =
        copy_loop-IsValid g (pre ++ (p, n) ∷ []) ret' valid (ef_kept ∙ e)
          (inserted-key_duper (fresh i) ret n.hash n.key value ∙ d) grown (omega arith)
          (λ h key.
            subst (λ k. count_matches ef h key k ≤ 1) (sym (append_assoc pre ((p, n) ∷ []) g))
              (once h key)) in
      (
        t,
        rw put (ap (λ k. copy_loop fresh value_duper k ret' g) (omega arith) ∙ run),
        v',
        e',
        gl' ∙ ap (copied fresh key_duper value_duper 0) (append_assoc pre ((p, n) ∷ []) g),
      )
