-- ===== src/Sqlite/Prepared.antt =====
-- sqlite_stmt_prepare prepares all statements or none.
use freebsd_pkg_plugins.Base.{
  ℕ, suc, ◌≡◌, ◌⊎◌, inl, inr, refl, sym, ap, subst, Bool, Option-cases, true, false, Option, none,
  some, List, [], ◌∷◌, ◌++◌, if◌then◌else◌,
}
use freebsd_pkg_plugins.Sqlite.{Statement, prepare_loop, unprepare_loop, sqlite_stmt_prepare}

-- Each statement has the handle that was opened for it.
abbrev pub AllPrepared : (ℕ → Option ℕ) → List Statement → Type 0
AllPrepared prepare_v2 [] = Unit {0}
AllPrepared prepare_v2 (s ∷ ss) =
    ((h : ℕ) × (prepare_v2 s.statement ≡ some h) × (s.prepared ≡ some h))
    × AllPrepared prepare_v2 ss

abbrev pub NonePrepared : List Statement → Type 0
NonePrepared [] = Unit {0}
NonePrepared (s ∷ ss) = (s.prepared ≡ none) × NonePrepared ss

-- the handles opened before the first failure, in order
abbrev pub opened_handles : (ℕ → Option ℕ) → List Statement → List ℕ
opened_handles prepare_v2 [] = []
opened_handles prepare_v2 (s ∷ ss) = elim (prepare_v2 s.statement) [
  | none ↦ []
  | some h ↦ h ∷ opened_handles prepare_v2 ss
]

abbrev pub backwards : List ℕ → List ℕ
backwards [] = []
backwards (h ∷ hs) = backwards hs ++ h ∷ []

module _ (prepare_v2 : ℕ → Option ℕ) where
  -- a failing loop, then the one that finalizes
  Undone : List Statement → Bool × ℕ × List Statement → Type 0
  Undone ss (true, i, ss') = AllPrepared prepare_v2 ss'
  Undone ss (false, i, ss') =
      NonePrepared (unprepare_loop i ss').0
      × ((unprepare_loop i ss').1 ≡ backwards (opened_handles prepare_v2 ss))

  Undone-more :
      (s : Statement) (ss : List Statement) (h : ℕ) (r : Bool × ℕ × List Statement)
      → prepare_v2 s.statement ≡ some h
      → Undone ss r
      → Undone (s ∷ ss) (r.0, suc r.1, record s { prepared = some h } ∷ r.2)
  unfolding Undone unprepare_loop
  Undone-more s ss h (true, i, rest) e u = ((h, e, refl), u)
  Undone-more s ss h (false, i, rest) e (gone, finalized) =
      ((refl, gone), rw (opened_handles, e) (ap (λ hs. hs ++ h ∷ []) finalized))

  prepare_loop-none :
      (s : Statement) (ss : List Statement)
      → prepare_v2 s.statement ≡ none
      → prepare_loop prepare_v2 (s ∷ ss) ≡ (false, 0, record s { prepared = none } ∷ ss)
  unfolding prepare_loop
  prepare_loop-none s ss e = rw (prepare_loop, e) refl

  opened_handles-none :
      (s : Statement) (ss : List Statement)
      → prepare_v2 s.statement ≡ none
      → opened_handles prepare_v2 (s ∷ ss) ≡ []
  opened_handles-none s ss e = rw (opened_handles, e) refl

  prepare_loop-some :
      (s : Statement) (ss : List Statement) (h : ℕ)
      → prepare_v2 s.statement ≡ some h
      → prepare_loop prepare_v2 (s ∷ ss) ≡ (
        (prepare_loop prepare_v2 ss).0,
        suc (prepare_loop prepare_v2 ss).1,
        record s { prepared = some h } ∷ (prepare_loop prepare_v2 ss).2,
      )
  unfolding prepare_loop
  prepare_loop-some s ss h e = rw (prepare_loop, e) refl

  -- the end of sqlite_stmt_prepare, for what the loop leaves
  abbrev ending : Bool × ℕ × List Statement → Bool × List Statement × List ℕ
  ending (ok, i, ss) =
      let (ss', finalized) = unprepare_loop i ss in
      if ok then (true, ss, []) else (false, ss', finalized)

  ended :
      (ss : List Statement) (r : Bool × ℕ × List Statement)
      → Undone ss r
      → ((ending r).0 ≡ true) × AllPrepared prepare_v2 (ending r).1 × ((ending r).2 ≡ [])
        ⊎ ((ending r).0 ≡ false)
          × NonePrepared (ending r).1
          × ((ending r).2 ≡ backwards (opened_handles prepare_v2 ss))
  unfolding Undone
  ended ss (true, i, ss') u = inl (refl, u, refl)
  ended ss (false, i, ss') u = inr (refl, u.0, u.1)

  prepare_loop-Undone :
      (ss : List Statement) → NonePrepared ss → Undone ss (prepare_loop prepare_v2 ss)
  unfolding Undone unprepare_loop prepare_loop
  prepare_loop-Undone [] fresh = tt
  prepare_loop-Undone (s ∷ ss) fresh = elim (Option-cases (prepare_v2 s.statement)) [
    | inl e ↦
        subst (Undone (s ∷ ss)) (sym (prepare_loop-none s ss e))
          ((refl, fresh.1), sym (ap backwards (opened_handles-none s ss e)))
    | inr (h, e) ↦
        subst (Undone (s ∷ ss)) (sym (prepare_loop-some s ss h e))
          (Undone-more s ss h (prepare_loop prepare_v2 ss) e (prepare_loop-Undone ss fresh.1))
  ]

  -- From statements of which none is prepared: either sqlite_stmt_prepare succeeds and each statement
  -- has the handle that was opened for it, and none is finalized; or it fails and none is prepared, and
  -- the handles that it opened are finalized, each once, the last first.
  pub sqlite_stmt_prepare-all_or_none :
      (ss : List Statement)
      → NonePrepared ss
      → ((sqlite_stmt_prepare prepare_v2 ss).0 ≡ true)
          × AllPrepared prepare_v2 (sqlite_stmt_prepare prepare_v2 ss).1
          × ((sqlite_stmt_prepare prepare_v2 ss).2 ≡ [])
        ⊎ ((sqlite_stmt_prepare prepare_v2 ss).0 ≡ false)
          × NonePrepared (sqlite_stmt_prepare prepare_v2 ss).1
          × ((sqlite_stmt_prepare prepare_v2 ss).2 ≡ backwards (opened_handles prepare_v2 ss))
  unfolding sqlite_stmt_prepare
  sqlite_stmt_prepare-all_or_none ss fresh =
      ended ss (prepare_loop prepare_v2 ss) (prepare_loop-Undone ss fresh)
