-- ===== src/HashTable/Uniqueness.antt =====
-- No key is stored twice: what insertion needs of the equality callback to keep that.
use freebsd_pkg_plugins.Base.{
  ℕ, ◌+◌, ◌<◌, ◌≤◌, ◌≡◌, ◌≢◌, refl, subst, sym, ap, ◌∙◌, Bool, true, false, ◌&&◌, none, some, [],
  ◌∷◌, ◌++◌, ◌==◌, arith, if◌then◌else◌, length, Bool-cases, Option-cases, inl, inr, word_size,
}
use freebsd_pkg_plugins.HashTable.{
  Ptr, HashNode, Nodes, HashTable, Put, matches, hashtable_put_real, set_content, put_existing,
}
use freebsd_pkg_plugins.HashTable.Chains.{has, IsValid, last_match}
use freebsd_pkg_plugins.HashTable.Insertion.{stored_key, put-existing, put-new}
use freebsd_pkg_plugins.HashTable.Reading.{inserted-same}
use freebsd_pkg_plugins.HashTable.Unlinking.{count_matches}

pub record IsEquality (ef : ℕ → ℕ → Bool) : Type 0 where
  pub symm : (a b : ℕ) → ef a b ≡ ef b a
  pub trans : (a b c : ℕ) → ef a b ≡ true → ef b c ≡ true → ef a c ≡ true

-- each key matches one node at most
abbrev pub KeysOnce : HashTable → Type 0
KeysOnce ht = (h key : ℕ) → count_matches ht.ef h key ht.global ≤ 1

same_tests :
    (ef : ℕ → ℕ → Bool) (a b s : ℕ)
    → IsEquality ef
    → ef a s ≡ true
    → ef b s ≡ true
    → (x : ℕ) → ef a x ≡ ef b x
same_tests ef a b s eq as' bs' x = ground (
  arith,
  eq.trans a s b as' (eq.symm s b ∙ bs'),
  eq.trans b s a bs' (eq.symm s a ∙ as'),
  eq.trans a b x,
  eq.trans b a x,
)

count_matches_congr :
    (ef : ℕ → ℕ → Bool) (h a b : ℕ) (g : Nodes)
    → ((x : ℕ) → ef a x ≡ ef b x)
    → count_matches ef h a g ≡ count_matches ef h b g
count_matches_congr ef h a b [] same = refl
count_matches_congr ef h a b ((p, n) ∷ g) same =
    rw (same n.key, count_matches_congr ef h a b g same)

count_matches-append :
    (ef : ℕ → ℕ → Bool) (h key : ℕ) (g : Nodes) (p : Ptr) (n : HashNode)
    → count_matches ef h key (g ++ (p, n) ∷ [])
      ≡ (if matches ef h key n then 1 else 0) + count_matches ef h key g
count_matches-append ef h key [] p n = ground arith
count_matches-append ef h key ((q, o) ∷ g) p n = ground (arith, count_matches-append ef h key g p n)

count_matches-set_content :
    (ef : ℕ → ℕ → Bool) (h key p v : ℕ) (g : Nodes)
    → count_matches ef h key (set_content p v g) ≡ count_matches ef h key g
unfolding set_content
count_matches-set_content ef h key p v [] = refl
count_matches-set_content ef h key p v ((q, o) ∷ g) = elim (Bool-cases (p == q)) [
  | inl here ↦ rw here
  | inr there ↦ rw (there, count_matches-set_content ef h key p v g)
]

none_counted :
    (ef : ℕ → ℕ → Bool) (h key : ℕ) (g : Nodes)
    → last_match ef h key g ≡ none
    → count_matches ef h key g ≡ 0
none_counted ef h key [] e = refl
none_counted ef h key ((q, o) ∷ g) e = ground (arith, none_counted ef h key g)

-- a new node is the first that its key matches
new_once :
    (ef : ℕ → ℕ → Bool) (g : Nodes) (h key s p v : ℕ)
    → IsEquality ef
    → ef key s ≡ true
    → last_match ef h key g ≡ none
    → ((h' key' : ℕ) → count_matches ef h' key' g ≤ 1)
    → (h' key' : ℕ)
    → count_matches ef h' key' (g ++ (p, record { hash = h; key = s; content = v }) ∷ []) ≤ 1
new_once ef g h key s p v eq equal absent once h' key' =
    rw (count_matches-append ef h' key' g p (record { hash = h; key = s; content = v }))
      (elim (Bool-cases (h == h' && ef key' s)) [
        | inr miss ↦ rw miss (omega (arith, once h' key'))
        | inl hit ↦
            let at : h ≡ h' = ground arith in
            let same = same_tests ef key' key s eq (ground arith) equal in
            let zero : count_matches ef h' key' g ≡ 0 =
              count_matches_congr ef h' key' key g same
              ∙ (ap (λ k. count_matches ef k key g) (sym at) ∙ none_counted ef h key g absent) in
            rw hit (omega arith)
      ])

-- If the equality callback is symmetric and transitive and takes a key's copy to be equal to it,
-- insertion keeps every key on one node at most.
pub put_real-KeysOnce :
    (fresh : Ptr) (ht : HashTable) (preserve : Bool) (h key value : ℕ)
    → IsValid ht
    → has fresh ht.global ≡ false
    → fresh ≢ 0
    → length ht.global + 1 < word_size
    → IsEquality ht.ef
    → ht.ef key (stored_key ht key) ≡ true
    → KeysOnce ht
    → (r : Put) × (hashtable_put_real fresh ht preserve h key value ≡ some r) × KeysOnce r.table
unfolding put_existing
put_real-KeysOnce fresh ht preserve h key value v unused mem room eq equal once =
    elim (Option-cases (last_match ht.ef h key ht.global)) [
      | inl e ↦
          let (nodes, same) = inserted-same fresh ht h key value in
          (
            _,
            put-new fresh ht preserve h key value v unused mem room e,
            λ h' key'.
                subst (λ c. c ≤ 1) (λ i. count_matches (sym same i) h' key' (sym nodes i))
                  (new_once ht.ef ht.global h key (stored_key ht key) fresh value eq equal e once h'
                    key'),
          )
      | inr ((p, n), e) ↦
          (_, put-existing fresh ht preserve h key value v unused mem room p n e, kept preserve p n)
    ]
  where
    kept : (b : Bool) (p : Ptr) (n : HashNode) → KeysOnce (put_existing ht b p n value).table
    kept true p n h' key' = once h' key'
    kept false p n h' key' =
        rw (count_matches-set_content ht.ef h' key' p value ht.global) (once h' key')
