-- ===== src/Services/Db/Parsing.antt =====
-- What the parser of services_db.c takes from a script: the tokens of a line, and the lines that it
-- looks at.
use freebsd_pkg_plugins.Base.{
  ℕ, zero, suc, ◌<◌, ◌≡◌, refl, ◌∙◌, Option-cases, Option, ap, codes, ◌==◌, true, false, none, some,
  List, [], ◌∷◌, ◌++◌, if◌then◌else◌, inl, inr, arith, length, length-append, append-nil, is_some,
}
use freebsd_pkg_plugins.Services.Db.{
  Text, is_delimiter, strsep, is_empty, tokens_loop, tokens, Magic, find_magic, rc_d_magic_comments,
  ServicesDb, parse_loop, handle_tokens, parsing_before, parsing_pending, parsing_done,
  handle_token, after_bol, magic_before, magic_require, magic_provide, magic_keyword,
}

abbrev pub Free : Text → Type 0
Free [] = Unit {0}
Free (c ∷ s) = (is_delimiter c ≡ false) × Free s

-- a text that strsep hands on whole
abbrev pub IsToken : Text → Type 0
IsToken t = (is_empty t ≡ false) × Free t

abbrev pub AllTokens : List Text → Type 0
AllTokens [] = Unit {0}
AllTokens (t ∷ ts) = IsToken t × AllTokens ts

-- tokens, each with the delimiters after it
abbrev pub unwords : List (Text × Text) → Text
unwords [] = []
unwords ((t, gap) ∷ ts) = t ++ (gap ++ unwords ts)

abbrev pub Gap : Text → Type 0
Gap [] = Unit {0}
Gap (c ∷ s) = (is_delimiter c ≡ true) × Gap s

-- between two tokens stands one delimiter at least
abbrev pub IsLine : List (Text × Text) → Type 0
IsLine [] = Unit {0}
IsLine ((t, gap) ∷ []) = IsToken t × Gap gap
IsLine ((t, gap) ∷ u ∷ ts) = IsToken t × Gap gap × (is_empty gap ≡ false) × IsLine (u ∷ ts)

abbrev pub words : List (Text × Text) → List Text
words [] = []
words ((t, gap) ∷ ts) = t ∷ words ts

strsep-append :
    (t : Text) (c : ℕ) (s : Text)
    → Free t
    → is_delimiter c ≡ true
    → strsep (t ++ c ∷ s) ≡ (t, some s)
unfolding strsep
strsep-append [] c s free delimiter = rw delimiter refl
strsep-append (x ∷ t) c s free delimiter = rw (free.0, strsep-append t c s free.1 delimiter) refl

strsep-last : (t : Text) → Free t → strsep t ≡ (t, none)
unfolding strsep
strsep-last [] free = refl
strsep-last (x ∷ t) free = rw (free.0, strsep-last t free.1) refl

tokens_loop-none : (k : ℕ) → tokens_loop k none ≡ []
unfolding tokens_loop
tokens_loop-none zero = refl
tokens_loop-none (suc k) = refl

-- With more fuel than bytes, the loop finds these tokens.
abbrev Finds : Text → List Text → Type 0
Finds s ts = (k : ℕ) → length s < k → tokens_loop k (some s) ≡ ts

Finds-nil : Finds [] []
unfolding tokens_loop strsep
Finds-nil zero h = absurd (omega arith)
Finds-nil (suc k) h = tokens_loop-none k

Finds-Gap : (gap s : Text) (ts : List Text) → Gap gap → Finds s ts → Finds (gap ++ s) ts
unfolding tokens_loop strsep
Finds-Gap [] s ts g found k h = found k h
Finds-Gap (c ∷ gap) s ts g found zero h = absurd (omega arith)
Finds-Gap (c ∷ gap) s ts g found (suc k) h = rw (g.0) (Finds-Gap gap s ts g.1 found k (omega arith))

Finds-last : (t : Text) → IsToken t → Finds t (t ∷ [])
unfolding tokens_loop
Finds-last t is zero h = absurd (omega arith)
Finds-last t is (suc k) h = rw (strsep-last t is.1, is.0, tokens_loop-none k) refl

Finds-token :
    (t : Text) (c : ℕ) (s : Text) (ts : List Text)
    → IsToken t
    → is_delimiter c ≡ true
    → Finds s ts
    → Finds (t ++ c ∷ s) (t ∷ ts)
unfolding tokens_loop
Finds-token t c s ts is delimiter found zero h = absurd (omega arith)
Finds-token t c s ts is delimiter found (suc k) h =
    rw (strsep-append t c s is.1 delimiter, is.0, found k (room h)) refl
  where
    room : length (t ++ c ∷ s) < suc k → length s < k
    room h = omega (arith, length-append t (c ∷ s))

Finds-unwords : (ts : List (Text × Text)) → IsLine ts → Finds (unwords ts) (words ts)
Finds-unwords [] is = Finds-nil
Finds-unwords ((t, []) ∷ []) is = rw (append-nil t) (Finds-last t is.0)
Finds-unwords ((t, c ∷ gap) ∷ []) is =
    Finds-token t c (gap ++ []) [] is.0 is.1.0 (Finds-Gap gap [] [] is.1.1 Finds-nil)
Finds-unwords ((t, []) ∷ u ∷ ts) is = cc
Finds-unwords ((t, c ∷ gap) ∷ u ∷ ts) is =
    Finds-token t c (gap ++ unwords (u ∷ ts)) (words (u ∷ ts)) is.0 is.1.0
      (Finds-Gap gap _ _ is.1.1 (Finds-unwords (u ∷ ts) is.3))

-- The loop over strsep reads a line of tokens back: from texts without delimiters that are not empty,
-- with delimiters before, between and after them, it takes these texts, in order.
pub tokens-unwords :
    (gap : Text) (ts : List (Text × Text))
    → Gap gap
    → IsLine ts
    → tokens (gap ++ unwords ts) ≡ words ts
unfolding tokens
tokens-unwords gap ts g is =
    Finds-Gap gap _ _ g (Finds-unwords ts is) (suc (length (gap ++ unwords ts))) (omega arith)

-- the text after this prefix
abbrev pub strip : Text → Text → Option Text
strip [] line = some line
strip (b ∷ prefix) [] = none
strip (b ∷ prefix) (c ∷ line) = if b == c then strip prefix line else none

abbrev pub first_of : Option Text → Option Text → Option Text
first_of none o = o
first_of (some rest) o = some rest

-- What a magic comment says: its kind, by the word, and the text after it.
abbrev pub comment_of : Text → Option (Magic × Text)
comment_of line = elim (strip (codes "# BEFORE:") line) [
  | some rest ↦ some (magic_before, rest)
  | none ↦ elim (first_of (strip (codes "# REQUIRE:") line) (strip (codes "# REQUIRES:") line)) [
    | some rest ↦ some (magic_require, rest)
    | none ↦ elim (first_of (strip (codes "# PROVIDE:") line) (strip (codes "# PROVIDES:") line)) [
      | some rest ↦ some (magic_provide, rest)
      | none ↦
          elim (first_of (strip (codes "# KEYWORD:") line) (strip (codes "# KEYWORDS:") line)) [
            | some rest ↦ some (magic_keyword, rest)
            | none ↦ none
          ]
    ]
  ]
]

after_bol-strip : (bol line : Text) → after_bol bol line ≡ strip bol line
unfolding after_bol
after_bol-strip [] line = refl
after_bol-strip (b ∷ bol) [] = refl
after_bol-strip (b ∷ bol) (c ∷ line) =
    ap (λ r. if b == c then r else none) (after_bol-strip bol line)

-- the search of the loop, for the texts after the seven prefixes
abbrev first_match : (a b c d e f g : Option Text) → Option (Magic × Text)
first_match a b c d e f g = elim a as (λ x. Option (Magic × Text)) [
  | none ↦ elim b as (λ x. Option (Magic × Text)) [
    | none ↦ elim c as (λ x. Option (Magic × Text)) [
      | none ↦ elim d as (λ x. Option (Magic × Text)) [
        | none ↦ elim e as (λ x. Option (Magic × Text)) [
          | none ↦ elim f as (λ x. Option (Magic × Text)) [
            | none ↦ elim g as (λ x. Option (Magic × Text)) [
              | none ↦ none
              | some rest ↦ some (magic_keyword, rest)
            ]
            | some rest ↦ some (magic_keyword, rest)
          ]
          | some rest ↦ some (magic_provide, rest)
        ]
        | some rest ↦ some (magic_provide, rest)
      ]
      | some rest ↦ some (magic_require, rest)
    ]
    | some rest ↦ some (magic_require, rest)
  ]
  | some rest ↦ some (magic_before, rest)
]

-- two spellings of a word are one kind
two_spellings :
    (a b c d e f g : Option Text)
    → first_match a b c d e f g ≡ elim a as (λ x. Option (Magic × Text)) [
      | some rest ↦ some (magic_before, rest)
      | none ↦ elim (first_of b c) as (λ x. Option (Magic × Text)) [
        | some rest ↦ some (magic_require, rest)
        | none ↦ elim (first_of d e) as (λ x. Option (Magic × Text)) [
          | some rest ↦ some (magic_provide, rest)
          | none ↦ elim (first_of f g) as (λ x. Option (Magic × Text)) [
            | some rest ↦ some (magic_keyword, rest)
            | none ↦ none
          ]
        ]
      ]
    ]
two_spellings (some r) b c d e f g = refl
two_spellings none (some r) c d e f g = refl
two_spellings none none (some r) d e f g = refl
two_spellings none none none (some r) e f g = refl
two_spellings none none none none (some r) f g = refl
two_spellings none none none none none (some r) g = refl
two_spellings none none none none none none (some r) = refl
two_spellings none none none none none none none = refl

find_magic-comment_of : (line : Text) → find_magic rc_d_magic_comments line ≡ comment_of line
unfolding find_magic rc_d_magic_comments
find_magic-comment_of line =
    (λ t.
      first_match (after_bol-strip (codes "# BEFORE:") line t)
        (after_bol-strip (codes "# REQUIRE:") line t) (after_bol-strip (codes "# REQUIRES:") line t)
        (after_bol-strip (codes "# PROVIDE:") line t) (after_bol-strip (codes "# PROVIDES:") line t)
        (after_bol-strip (codes "# KEYWORD:") line t)
        (after_bol-strip (codes "# KEYWORDS:") line t))
    ∙ two_spellings (strip (codes "# BEFORE:") line) (strip (codes "# REQUIRE:") line)
        (strip (codes "# REQUIRES:") line) (strip (codes "# PROVIDE:") line)
        (strip (codes "# PROVIDES:") line) (strip (codes "# KEYWORD:") line)
        (strip (codes "# KEYWORDS:") line)

-- the lines from the first magic comment on
abbrev pub skip_plain : List Text → List Text
skip_plain [] = []
skip_plain (line ∷ lines) = if is_some (comment_of line) then line ∷ lines else skip_plain lines

-- the magic comments that follow one another at the start
abbrev pub magic_block : List Text → List (Magic × Text)
magic_block [] = []
magic_block (line ∷ lines) = elim (comment_of line) [ none ↦ [] | some c ↦ c ∷ magic_block lines ]

module _ (name_of : Text → ℕ) where
  abbrev pub declare_all : Magic → List Text → List (Magic × ℕ)
  declare_all m [] = []
  declare_all m (t ∷ ts) = (m, name_of t) ∷ declare_all m ts

  abbrev pub block_declarations : List (Magic × Text) → List (Magic × ℕ)
  block_declarations [] = []
  block_declarations ((m, rest) ∷ cs) = declare_all m (tokens rest) ++ block_declarations cs

  -- what a script declares: the tokens of its first block of magic comments
  abbrev pub declarations : List Text → List (Magic × ℕ)
  declarations lines = block_declarations (magic_block (skip_plain lines))

  abbrev pub handle_all : ServicesDb → ℕ → List (Magic × ℕ) → ServicesDb
  handle_all db script [] = db
  handle_all db script ((m, n) ∷ ds) = handle_all (handle_token m db script n) script ds

  handle_tokens-append :
      (m : Magic) (db : ServicesDb) (script : ℕ) (ts : List Text) (ds : List (Magic × ℕ))
      → handle_all (handle_tokens name_of m db script ts) script ds
        ≡ handle_all db script (declare_all m ts ++ ds)
  unfolding handle_tokens
  handle_tokens-append m db script [] ds = refl
  handle_tokens-append m db script (t ∷ ts) ds =
      handle_tokens-append m (handle_token m db script (name_of t)) script ts ds

  parse_loop-done :
      (db : ServicesDb) (script : ℕ) (lines : List Text)
      → parse_loop name_of parsing_done db script lines ≡ db
  unfolding parse_loop
  parse_loop-done db script [] = refl
  parse_loop-done db script (line ∷ lines) = refl

  parse_loop-pending :
      (db : ServicesDb) (script : ℕ) (lines : List Text)
      → parse_loop name_of parsing_pending db script lines
        ≡ handle_all db script (block_declarations (magic_block lines))
  unfolding parse_loop
  parse_loop-pending db script [] = refl
  parse_loop-pending db script (line ∷ lines) = elim (Option-cases (comment_of line)) [
    | inl e ↦ rw (find_magic-comment_of line, e) (parse_loop-done db script lines)
    | inr ((m, rest), e) ↦
        rw (find_magic-comment_of line, e)
          (parse_loop-pending (handle_tokens name_of m db script (tokens rest)) script lines
            ∙ handle_tokens-append m db script (tokens rest) _)
  ]

  -- The parser handles the first block of magic comments, and nothing before or after it.
  pub parse_loop-declarations :
      (db : ServicesDb) (script : ℕ) (lines : List Text)
      → parse_loop name_of parsing_before db script lines
        ≡ handle_all db script (declarations lines)
  unfolding parse_loop
  parse_loop-declarations db script [] = refl
  parse_loop-declarations db script (line ∷ lines) = elim (Option-cases (comment_of line)) [
    | inl e ↦ rw (find_magic-comment_of line, e) (parse_loop-declarations db script lines)
    | inr ((m, rest), e) ↦
        rw (find_magic-comment_of line, e, magic_block, e)
          (parse_loop-pending _ script lines ∙ handle_tokens-append m db script (tokens rest) _)
  ]
