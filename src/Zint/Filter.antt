-- ===== src/Zint/Filter.antt =====
-- Which snapshots a retention keeps, and the order in which they are asked for.
use freebsd_pkg_plugins.Base.{
  ℕ, zero, suc, ◌+◌, ◌^◌, ◌%◌, ◌<◌, ◌≤◌, ◌≡◌, refl, sym, ap, ◌∙◌, Bool, Bool-cases, true, false,
  some, List, [], ◌∷◌, arith, inl, inr, ltb, leb, length, get_elem?, word_size, ◌↔◌,
}
use mathlib.Core.Option.{some-injective}
use freebsd_pkg_plugins.Zint.Retention.{
  RetentionType, disabled, by_count, by_creation, FilterCallbackData, Snapshot, pos, is_positive,
  retention_filter_callback, retention_filter_callback_data_reset,
  snapshot_compare_by_creation_date_desc, callback_of,
}

-- the answers of the callback on snapshots in turn
abbrev pub answers : FilterCallbackData → List Snapshot → List Bool
answers fcd [] = []
answers fcd (s ∷ snaps) =
    let (keep, fcd') = retention_filter_callback s fcd in keep ∷ answers fcd' snaps

wrap : (n : ℕ) → n + 1 < word_size → (n + 1) % word_size ≡ n + 1
wrap n h = omega arith

ltb→< : (a b : ℕ) → ltb a b ≡ true → a < b
ltb→< a b h = ground arith

below : (v o l : ℕ) → o ≤ v → leb l v ≡ false → leb l o ≡ false
below v o l le h = ground arith

stays : (s i l : ℕ) → ltb s l ≡ false → ltb (s + i) l ≡ ltb (s + suc i) l
stays s i l h = ground arith

answers-by_count :
    (limit state : ℕ) (snaps : List Snapshot) (i : ℕ)
    → limit < word_size
    → i < length snaps
    → get_elem? (answers (record { retention = by_count; limit = limit; state = state }) snaps) i
      ≡ some (ltb (state + i) limit)
unfolding retention_filter_callback callback_of
answers-by_count limit state [] i fits lt = ground arith
answers-by_count limit state (s ∷ snaps) zero fits lt = ground arith
answers-by_count limit state (s ∷ snaps) (suc i) fits lt = elim (Bool-cases (ltb state limit)) [
  | inl below ↦
      rw (below, wrap state (omega (arith, ltb→< state limit below)))
        (answers-by_count limit (state + 1) snaps i fits (omega arith)
          ∙ ap (λ k. some (ltb k limit)) (omega arith))
  | inr above ↦ rw above (
      answers-by_count limit state snaps i fits (omega arith) ∙ ap some (stays state i limit above))
]

-- After a reset, a retention by count keeps the first `limit` snapshots that it is asked for, and no
-- other.
pub reset-by_count :
    (limit state : ℕ) (snaps : List Snapshot) (i : ℕ)
    → limit < word_size
    → i < length snaps
    → get_elem?
        (answers
          (retention_filter_callback_data_reset
            (record { retention = by_count; limit = limit; state = state }))
          snaps)
        i
      ≡ some (ltb i limit)
unfolding retention_filter_callback_data_reset
reset-by_count limit state snaps i fits lt =
    answers-by_count limit 0 snaps i fits lt ∙ ap (λ k. some (ltb k limit)) (omega arith)

-- no snapshot is older than one after it
abbrev pub IsDesc : List Snapshot → Type 0
IsDesc [] = Unit
IsDesc (s ∷ snaps) =
    ((i : ℕ) (t : Snapshot) → get_elem? snaps i ≡ some t → t.creation ≤ s.creation) × IsDesc snaps

-- a retention that does not keep a snapshot keeps no older one, and its state stays
callback-older :
    (kind : RetentionType) (value older limit state : ℕ)
    → older ≤ value
    → (callback_of kind value limit state).0 ≡ false
    → callback_of kind older limit state ≡ (false, state)
unfolding callback_of
callback-older disabled value older limit state le refused = cc
callback-older by_count value older limit state le refused = rw refused refl
callback-older by_creation value older limit state le refused =
    ap (λ b. (b, state)) (below value older limit le refused)

-- the answers of a retention of this kind and state
abbrev pub answers_of : RetentionType → (limit state : ℕ) → List Snapshot → List Bool
answers_of kind limit state = answers (record { retention = kind; limit = limit; state = state })

answers-refused :
    (kind : RetentionType) (limit state : ℕ) (s : Snapshot) (snaps : List Snapshot)
    → callback_of kind s.creation limit state ≡ (false, state)
    → answers_of kind limit state (s ∷ snaps) ≡ false ∷ answers_of kind limit state snaps
unfolding retention_filter_callback
answers-refused kind limit state s snaps step = rw step refl

shifted :
    (l : List Bool) (j : ℕ)
    → get_elem? (false ∷ l) j ≡ some true
    → ((k : ℕ) → get_elem? l k ≡ some true → ⊥)
    → ⊥
shifted l zero h none_kept = cc
shifted l (suc j) h none_kept = none_kept j h

answers-none :
    (kind : RetentionType) (value limit state : ℕ) (snaps : List Snapshot)
    → (callback_of kind value limit state).0 ≡ false
    → ((i : ℕ) (t : Snapshot) → get_elem? snaps i ≡ some t → t.creation ≤ value)
    → (j : ℕ)
    → get_elem? (answers (record { retention = kind; limit = limit; state = state }) snaps) j
      ≡ some true
    → ⊥
unfolding retention_filter_callback
answers-none kind value limit state [] refused older j kept = cc
answers-none kind value limit state (s ∷ snaps) refused older j kept =
    let step = callback-older kind value s.creation limit state (older 0 s refl) refused in
    let all = answers-refused kind limit state s snaps step in
    shifted (answers_of kind limit state snaps) j (ap (λ l. get_elem? l j) (sym all) ∙ kept)
      (answers-none kind value limit state snaps refused (λ i t e. older (suc i) t e))

-- Whatever the retention, on snapshots from the newest to the oldest the kept ones come first: after
-- a snapshot that is not kept none is kept.
pub answers-prefix :
    (kind : RetentionType) (limit state : ℕ) (snaps : List Snapshot)
    → IsDesc snaps
    → (i j : ℕ) → i < j
    → get_elem? (answers (record { retention = kind; limit = limit; state = state }) snaps) i
      ≡ some false
    → get_elem? (answers (record { retention = kind; limit = limit; state = state }) snaps) j
      ≡ some true
    → ⊥
unfolding retention_filter_callback
answers-prefix kind limit state [] d i j lt refused kept = cc
answers-prefix kind limit state (s ∷ snaps) d i zero lt refused kept = absurd (omega arith)
answers-prefix kind limit state (s ∷ snaps) d zero (suc j) lt refused kept =
    let first = some-injective _ _ refused in
    let step = callback-older kind s.creation s.creation limit state (omega arith) first in
    let all = answers-refused kind limit state s snaps step in
    answers-none kind s.creation limit state snaps first d.0 j
      (ap (λ l. get_elem? l (suc j)) (sym all) ∙ kept)
answers-prefix kind limit state (s ∷ snaps) d (suc i) (suc j) lt refused kept =
    answers-prefix kind limit (callback_of kind s.creation limit state).1 snaps d.1 i j
      (omega arith) refused kept

-- Where the creation dates are less than 2 ^ 31 seconds apart, the comparison is positive exactly
-- when the first snapshot is the older one, and 0 exactly when they are of the same age.
pub compare-sign :
    (sa sb : Snapshot)
    → sb.creation < sa.creation + 2 ^ 31
    → ((is_positive (snapshot_compare_by_creation_date_desc sa sb) ≡ true)
        ↔ (sa.creation < sb.creation))
      × ((snapshot_compare_by_creation_date_desc sa sb ≡ pos 0) ↔ (sa.creation ≡ sb.creation))
unfolding snapshot_compare_by_creation_date_desc
compare-sign sa sb close = ground arith

-- From 2 ^ 31 to 2 ^ 32 seconds apart, each of two snapshots compares as newer than the other.
compare-wraps :
    (sa sb : Snapshot)
    → sa.creation + 2 ^ 31 ≤ sb.creation
    → sb.creation < sa.creation + 2 ^ 32
    → (is_positive (snapshot_compare_by_creation_date_desc sa sb) ≡ false)
      × (is_positive (snapshot_compare_by_creation_date_desc sb sa) ≡ false)
unfolding snapshot_compare_by_creation_date_desc
compare-wraps sa sb far close = ground arith
