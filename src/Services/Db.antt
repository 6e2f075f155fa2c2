-- ===== src/Services/Db.antt =====
-- The database of rc.d scripts of plugins/services/services_db.c: the parser of the magic comments and
-- the tables that it fills. The packages stand in Db/Packages, the directories in Db/Scan.
--
-- A text is its bytes. `name_of` numbers texts, so that strcmp answers 0 where the numbers are equal.
-- A script is its name, the key of the table `scripts`. A table is its entries in the order of
-- insertion, one for a key; a script is changed through its pointer, here by its name. Allocations
-- succeed.
pub mod Retrieved
pub mod Entries
pub mod Parsing
pub mod Tables
pub mod Packages
pub mod Scan
pub mod Owned
pub mod Scanned
mod Examples
use freebsd_pkg_plugins.Base.{
  ℕ, zero, suc, ◌+◌, Bool, true, false, not, ◌&&◌, ◌||◌, Option, none, some, List, [], ◌∷◌, ◌++◌,
  ◌==◌, if◌then◌else◌, length, codes,
}

abbrev pub Text : Type 0
Text = List ℕ

-- one of " \t\n"
unfoldable pub is_delimiter : ℕ → Bool
is_delimiter c = c == 32 || c == 9 || c == 10

-- strsep(3): the token, and the text after its delimiter, `none` for NULL at the end
unfoldable pub strsep : Text → Text × Option Text
unfolding is_delimiter
strsep [] = ([], none)
strsep (c ∷ s) =
    let rest = strsep s in if is_delimiter c then ([], some s) else (c ∷ rest.0, rest.1)

abbrev pub is_empty : Text → Bool
is_empty [] = true
is_empty (c ∷ s) = false

-- the tokens that the loop over strsep hands on
unfoldable pub tokens_loop : (fuel : ℕ) → Option Text → List Text
unfolding strsep
tokens_loop fuel none = []
tokens_loop zero (some s) = []
tokens_loop (suc k) (some s) =
    let (token, rest) = strsep s in
    let later = tokens_loop k rest in if is_empty token then later else token ∷ later

-- Each round takes one byte at least from the line.
unfoldable pub tokens : Text → List Text
unfolding tokens_loop
tokens s = tokens_loop (suc (length s)) (some s)

-- the functions `handle_token`
pub data Magic : Type 0 where
  magic_before : Magic
  magic_require : Magic
  magic_provide : Magic
  magic_keyword : Magic

unfoldable pub rc_d_magic_comments : List (Text × Magic)
rc_d_magic_comments =
    (codes "# BEFORE:", magic_before)
    ∷ (codes "# REQUIRE:", magic_require)
    ∷ (codes "# REQUIRES:", magic_require)
    ∷ (codes "# PROVIDE:", magic_provide)
    ∷ (codes "# PROVIDES:", magic_provide)
    ∷ (codes "# KEYWORD:", magic_keyword)
    ∷ (codes "# KEYWORDS:", magic_keyword)
    ∷ []

-- `0 == strncmp(bol, line, bol_len)`: the text after it
unfoldable pub after_bol : Text → Text → Option Text
after_bol [] line = some line
after_bol (b ∷ bol) [] = none
after_bol (b ∷ bol) (c ∷ line) = let rest = after_bol bol line in if b == c then rest else none

-- the loop over `rc_d_magic_comments`, which breaks at the first that starts the line
unfoldable pub find_magic : List (Text × Magic) → Text → Option (Magic × Text)
unfolding after_bol
find_magic [] line = none
find_magic ((bol, m) ∷ ms) line = elim (after_bol bol line) [
  | none ↦ find_magic ms line
  | some rest ↦ some (m, rest)
]

pub record Script : Type 0 where
  pub name : ℕ
  pub path : Text
  pub pkg : Option ℕ
  pub befores : List ℕ
  pub requires : List ℕ
  pub keywords : List ℕ

pub record Package : Type 0 where
  pub rshlibs : List ℕ
  pub owned : List ℕ

pub record ServicesDb : Type 0 where
  pub scripts : List Script
  pub provides : List (ℕ × List ℕ)
  pub keywords : List (ℕ × List ℕ)
  pub packages : List (ℕ × Package)

unfoldable pub services_db_create : ServicesDb
services_db_create = record { scripts = []; provides = []; keywords = []; packages = [] }

module _ {V : Type 0} where
  abbrev pub find_entry : ℕ → List (ℕ × V) → Option V
  find_entry key [] = none
  find_entry key ((k, v) ∷ t) = if key == k then some v else find_entry key t

  -- a change through the pointer that the table holds
  abbrev pub change_entry : ℕ → V → List (ℕ × V) → List (ℕ × V)
  change_entry key v [] = []
  change_entry key v ((k, w) ∷ t) = if key == k then (k, v) ∷ t else (k, w) ∷ change_entry key v t

abbrev pub find_script : ℕ → List Script → Option Script
find_script n [] = none
find_script n (s ∷ ss) = if n == s.name then some s else find_script n ss

abbrev pub change_script : ℕ → (Script → Script) → List Script → List Script
change_script n f [] = []
change_script n f (s ∷ ss) = if n == s.name then f s ∷ ss else s ∷ change_script n f ss

-- what handle_provide and handle_keyword do with their table: the list of the key is made if it is
-- missing, and the script appended to it
unfoldable pub append_entry : ℕ → ℕ → List (ℕ × List ℕ) → List (ℕ × List ℕ)
append_entry token script table = elim (find_entry token table) [
  | none ↦ table ++ (token, script ∷ []) ∷ []
  | some scripts ↦ change_entry token (scripts ++ script ∷ []) table
]

unfoldable pub handle_before : ServicesDb → (script token : ℕ) → ServicesDb
handle_before db script token = record db {
  scripts = change_script script (λ s. record s { befores = s.befores ++ token ∷ [] }) db.scripts;
}

unfoldable pub handle_require : ServicesDb → (script token : ℕ) → ServicesDb
handle_require db script token = record db {
  scripts = change_script script (λ s. record s { requires = s.requires ++ token ∷ [] }) db.scripts;
}

unfoldable pub handle_provide : ServicesDb → (script token : ℕ) → ServicesDb
unfolding append_entry
handle_provide db script token = record db { provides = append_entry token script db.provides }

unfoldable pub handle_keyword : ServicesDb → (script token : ℕ) → ServicesDb
unfolding append_entry
handle_keyword db script token = record db {
  keywords = append_entry token script db.keywords;
  scripts = change_script script (λ s. record s { keywords = s.keywords ++ token ∷ [] }) db.scripts;
}

unfoldable pub handle_token : Magic → ServicesDb → (script token : ℕ) → ServicesDb
unfolding handle_before handle_require handle_provide handle_keyword
handle_token magic_before = handle_before
handle_token magic_require = handle_require
handle_token magic_provide = handle_provide
handle_token magic_keyword = handle_keyword

pub data ParsingState : Type 0 where
  parsing_before : ParsingState
  parsing_pending : ParsingState
  parsing_done : ParsingState

-- the state before the magic comments of a line are looked for
abbrev pub next_state : ParsingState → ParsingState
next_state parsing_before = parsing_before
next_state parsing_pending = parsing_done
next_state parsing_done = parsing_done

abbrev pub is_done : ParsingState → Bool
is_done parsing_before = false
is_done parsing_pending = false
is_done parsing_done = true

module _ (name_of : Text → ℕ) where
  unfoldable pub handle_tokens : Magic → ServicesDb → ℕ → List Text → ServicesDb
  unfolding handle_token
  handle_tokens m db script [] = db
  handle_tokens m db script (t ∷ ts) =
      handle_tokens m (handle_token m db script (name_of t)) script ts

  -- the loop over the lines that fparseln answers
  unfoldable pub parse_loop : ParsingState → ServicesDb → ℕ → List Text → ServicesDb
  unfolding find_magic rc_d_magic_comments tokens handle_tokens
  parse_loop state db script [] = db
  parse_loop state db script (line ∷ lines) = elim (is_done state) [
    | true ↦ db
    | false ↦ elim (find_magic rc_d_magic_comments line) [
      | none ↦ parse_loop (next_state state) db script lines
      | some (m, rest) ↦
          parse_loop parsing_pending (handle_tokens m db script (tokens rest)) script lines
    ]
  ]

  -- `lines` is none where fopen fails
  unfoldable pub parse_rc_d_script :
      ServicesDb → (script : ℕ) (lines : Option (List Text)) → Bool × ServicesDb
  unfolding parse_loop
  parse_rc_d_script db script none = (false, db)
  parse_rc_d_script db script (some lines) = (true, parse_loop parsing_before db script lines)
