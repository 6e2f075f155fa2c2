-- ===== src/Services/Db/Entries.antt =====
-- Lookups in the tables of services_db.c after a change.
use freebsd_pkg_plugins.Base.{
  ℕ, ◌≡◌, refl, sym, ap, ◌∙◌, Bool-cases, Option-cases, true, false, Option, none, some, List, [],
  ◌∷◌, ◌++◌, ◌==◌, ==→eq, if◌then◌else◌, inl, inr, arith,
}
use mathlib.Core.Option
use freebsd_pkg_plugins.Services.Db.{
  Script, find_entry, change_entry, find_script, change_script, append_entry,
}

-- the scripts in the list of a key
abbrev pub listed : Option (List ℕ) → List ℕ
listed none = []
listed (some l) = l

abbrev pub entry_of : ℕ → List (ℕ × List ℕ) → List ℕ
entry_of key table = listed (find_entry key table)

find_entry-append :
    (key k : ℕ) (v : List ℕ) (table : List (ℕ × List ℕ))
    → find_entry k table ≡ none
    → find_entry key (table ++ (k, v) ∷ []) ≡ (if key == k then some v else find_entry key table)
find_entry-append key k v [] e = refl
find_entry-append key k v ((j, w) ∷ t) e = elim (Bool-cases (key == j)) [
  | inl hit ↦ let apart : key == k ≡ false = ground arith in rw (hit, apart) refl
  | inr miss ↦ rw miss (find_entry-append key k v t (ground arith))
]

find_entry-change :
    (key k : ℕ) (v w : List ℕ) (table : List (ℕ × List ℕ))
    → find_entry k table ≡ some w
    → find_entry key (change_entry k v table) ≡ (if key == k then some v else find_entry key table)
find_entry-change key k v w [] e = cc
find_entry-change key k v w ((j, u) ∷ t) e = elim (Bool-cases (k == j)) [
  | inl hit ↦ rw hit (ground arith)
  | inr miss ↦ elim (Bool-cases (key == j)) [
    | inl there ↦ let apart : key == k ≡ false = ground arith in rw (miss, there, apart) refl
    | inr elsewhere ↦ rw (miss, elsewhere) (find_entry-change key k v w t (rw miss at e))
  ]
]

listed_at :
    (key token script : ℕ) (l : List ℕ) (table : List (ℕ × List ℕ))
    → entry_of token table ≡ l
    → listed (if key == token then some (l ++ script ∷ []) else find_entry key table)
      ≡ (if key == token then entry_of key table ++ script ∷ [] else entry_of key table)
listed_at key token script l table e = elim (Bool-cases (key == token)) [
  | inl hit ↦ rw hit (
      ap (λ xs. xs ++ script ∷ []) (sym e ∙ ap (λ k. entry_of k table) (sym (==→eq key token hit))))
  | inr miss ↦ rw miss refl
]

pub entry_of-append_entry :
    (key token script : ℕ) (table : List (ℕ × List ℕ))
    → entry_of key (append_entry token script table)
      ≡ (if key == token then entry_of key table ++ script ∷ [] else entry_of key table)
unfolding append_entry
entry_of-append_entry key token script table = elim (Option-cases (find_entry token table)) [
  | inl e ↦
      rw (append_entry, e)
        (ap listed (find_entry-append key token (script ∷ []) table e)
          ∙ listed_at key token script [] table (ap listed e))
  | inr (l, e) ↦
      rw (append_entry, e)
        (ap listed (find_entry-change key token (l ++ script ∷ []) l table e)
          ∙ listed_at key token script l table (ap listed e))
]

pub find_script-change :
    (f : Script → Script) (t n : ℕ) (ss : List Script)
    → ((s : Script) → (f s).name ≡ s.name)
    → find_script t (change_script n f ss)
      ≡ (if t == n then Option.map f (find_script t ss) else find_script t ss)
find_script-change f t n [] same = ground arith
find_script-change f t n (s ∷ ss) same = elim (Bool-cases (n == s.name)) [
  | inl hit ↦ elim (Bool-cases (t == n)) [
    | inl e ↦
        let kept : t == (f s).name ≡ true = ground (arith, same s) in
        let there : t == s.name ≡ true = ground arith in rw (hit, e, kept, there) refl
    | inr e ↦
        let kept : t == (f s).name ≡ false = ground (arith, same s) in
        let apart : t == s.name ≡ false = ground arith in rw (hit, e, kept, apart) refl
  ]
  | inr miss ↦ elim (Bool-cases (t == s.name)) [
    | inl e ↦ let apart : t == n ≡ false = ground arith in rw (miss, e, apart) refl
    | inr e ↦ rw (miss, e) (find_script-change f t n ss same)
  ]
]
