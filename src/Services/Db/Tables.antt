-- ===== src/Services/Db/Tables.antt =====
-- What the magic comments of a script change in the tables of services_db.c.
use freebsd_pkg_plugins.Base.{
  ℕ, ◌≡◌, refl, subst, sym, ap, ◌∙◌, Bool, Bool-cases, true, false, Option, none, some, List, [],
  ◌∷◌, ◌++◌, ◌==◌, if◌then◌else◌, inl, inr, arith, append-nil, append_assoc,
}
use mathlib.Core.Option
use freebsd_pkg_plugins.Services.Db.{
  Text, Magic, magic_before, magic_require, magic_provide, magic_keyword, Script, ServicesDb,
  find_script, change_script, append_entry, handle_token, parse_rc_d_script,
}
use freebsd_pkg_plugins.Services.Db.Parsing.{declarations, handle_all, parse_loop-declarations}
use freebsd_pkg_plugins.Services.Db.Entries.{entry_of, entry_of-append_entry, find_script-change}

abbrev is_kind : Magic → Magic → Bool
is_kind magic_before magic_before = true
is_kind magic_require magic_require = true
is_kind magic_provide magic_provide = true
is_kind magic_keyword magic_keyword = true
is_kind _ _ = false

-- the names that a magic comment of this kind declares
abbrev pub of_kind : Magic → List (Magic × ℕ) → List ℕ
of_kind m [] = []
of_kind m ((k, n) ∷ ds) = elim (is_kind m k) [ true ↦ n ∷ of_kind m ds | false ↦ of_kind m ds ]

-- the script once for each time that the name is declared
abbrev pub marks : (key script : ℕ) → List ℕ → List ℕ
marks key script [] = []
marks key script (n ∷ ns) = if key == n then script ∷ marks key script ns else marks key script ns

-- a script with what it declares
abbrev pub declare : List (Magic × ℕ) → Script → Script
declare ds s = record s {
  befores = s.befores ++ of_kind magic_before ds;
  requires = s.requires ++ of_kind magic_require ds;
  keywords = s.keywords ++ of_kind magic_keyword ds;
}

-- what `ds` change in the database, for a script
pub record Declares (db : ServicesDb) (script : ℕ) (ds : List (Magic × ℕ)) (db' : ServicesDb)
    : Type 0 where
  pub provided :
      (key : ℕ)
      → entry_of key db'.provides
        ≡ entry_of key db.provides ++ marks key script (of_kind magic_provide ds)
  pub kept :
      (key : ℕ)
      → entry_of key db'.keywords
        ≡ entry_of key db.keywords ++ marks key script (of_kind magic_keyword ds)
  pub declared :
      (t : ℕ)
      → find_script t db'.scripts ≡ (
          if t == script
          then Option.map (declare ds) (find_script t db.scripts)
          else find_script t db.scripts)
  pub packages : db'.packages ≡ db.packages

declare-nil : (o : Option Script) → Option.map (declare []) o ≡ o
declare-nil none = refl
declare-nil (some s) = λ i. some (record s {
  befores = append-nil s.befores i;
  requires = append-nil s.requires i;
  keywords = append-nil s.keywords i;
})

Declares-nil : (db : ServicesDb) (script : ℕ) → Declares db script [] db
Declares-nil db script = record {
  provided = λ key. sym (append-nil _);
  kept = λ key. sym (append-nil _);
  declared = λ t. rw (declare-nil (find_script t db.scripts)) (ground arith);
  packages = refl;
}

-- a declaration through the pointer, and those after it
declare-then :
    (f : Script → Script) (d : Magic × ℕ) (ds : List (Magic × ℕ)) (t script : ℕ) (ss : List Script)
    → ((s : Script) → (f s).name ≡ s.name)
    → ((s : Script) → declare ds (f s) ≡ declare (d ∷ ds) s)
    → (if t == script
        then Option.map (declare ds) (find_script t (change_script script f ss))
        else find_script t (change_script script f ss))
      ≡ (if t == script then Option.map (declare (d ∷ ds)) (find_script t ss) else find_script t ss)
declare-then f d ds t script ss same step =
    rw (find_script-change f t script ss same) (elim (Bool-cases (t == script)) [
      | inl hit ↦ rw hit (twice (find_script t ss))
      | inr miss ↦ rw miss refl
    ])
  where
    twice :
        (o : Option Script)
        → Option.map (declare ds) (Option.map f o) ≡ Option.map (declare (d ∷ ds)) o
    twice none = refl
    twice (some s) = ap some (step s)

marks-append :
    (key n script : ℕ) (ns : List ℕ) (table : List (ℕ × List ℕ)) (l : List ℕ)
    → l ≡ entry_of key (append_entry n script table) ++ marks key script ns
    → l ≡ entry_of key table ++ marks key script (n ∷ ns)
marks-append key n script ns table l e =
    e
    ∙ rw (entry_of-append_entry key n script table) (elim (Bool-cases (key == n)) [
      | inl hit ↦ rw hit (append_assoc (entry_of key table) (script ∷ []) _)
      | inr miss ↦ rw miss refl
    ])

Declares-step :
    (m : Magic) (n : ℕ) (ds : List (Magic × ℕ)) (db db' : ServicesDb) (script : ℕ)
    → Declares (handle_token m db script n) script ds db'
    → Declares db script ((m, n) ∷ ds) db'
unfolding handle_token
Declares-step magic_before n ds db db' script h = record {
  provided = h.provided;
  kept = h.kept;
  declared = λ t.
      h.declared t
      ∙ declare-then _ (magic_before, n) ds t script db.scripts (λ s. refl)
          (λ s i. record (declare ds s) {
            befores = append_assoc s.befores (n ∷ []) (of_kind magic_before ds) i;
          });
  packages = h.packages;
}
Declares-step magic_require n ds db db' script h = record {
  provided = h.provided;
  kept = h.kept;
  declared = λ t.
      h.declared t
      ∙ declare-then _ (magic_require, n) ds t script db.scripts (λ s. refl)
          (λ s i. record (declare ds s) {
            requires = append_assoc s.requires (n ∷ []) (of_kind magic_require ds) i;
          });
  packages = h.packages;
}
Declares-step magic_provide n ds db db' script h = record {
  provided =
      λ key. marks-append key n script (of_kind magic_provide ds) db.provides _ (h.provided key);
  kept = h.kept;
  declared = h.declared;
  packages = h.packages;
}
Declares-step magic_keyword n ds db db' script h = record {
  provided = h.provided;
  kept = λ key. marks-append key n script (of_kind magic_keyword ds) db.keywords _ (h.kept key);
  declared = λ t.
      h.declared t
      ∙ declare-then _ (magic_keyword, n) ds t script db.scripts (λ s. refl)
          (λ s i. record (declare ds s) {
            keywords = append_assoc s.keywords (n ∷ []) (of_kind magic_keyword ds) i;
          });
  packages = h.packages;
}

handle_all-Declares :
    (name_of : Text → ℕ) (db : ServicesDb) (script : ℕ) (ds : List (Magic × ℕ))
    → Declares db script ds (handle_all name_of db script ds)
handle_all-Declares name_of db script [] = Declares-nil db script
handle_all-Declares name_of db script ((m, n) ∷ ds) =
    Declares-step m n ds db _ script
      (handle_all-Declares name_of (handle_token m db script n) script ds)

-- Parsing a script that can be opened succeeds. It appends the script to the lists of the names that
-- its first block of magic comments provides or has as keywords, once for each time, and the names
-- after BEFORE, REQUIRE and KEYWORD to the script's own lists, in order; the other scripts, the other
-- names and the packages stay.
pub parse_rc_d_script-Declares :
    (name_of : Text → ℕ) (db : ServicesDb) (script : ℕ) (lines : List Text)
    → ((parse_rc_d_script name_of db script (some lines)).0 ≡ true)
      × Declares db script
          (declarations name_of lines)
          (parse_rc_d_script name_of db script (some lines)).1
unfolding parse_rc_d_script
parse_rc_d_script-Declares name_of db script lines = (
  refl,
  subst (Declares db script (declarations name_of lines))
      (sym (parse_loop-declarations name_of db script lines))
      (handle_all-Declares name_of db script (declarations name_of lines)),
)
