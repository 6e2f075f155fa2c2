-- ===== src/Iterator.antt =====
-- The iterators of kissc/iterator.c: the structure `Iterator`, and the functions over any of them.
--
-- A callback gets the collection and the state, and answers `none` where it reads memory that it
-- must not read. A function pointer that may be NULL is an `Option`. `close`, `member` and `delete` are left
-- out: the functions here never call them.
pub mod Array
pub mod Arrays
pub mod Folds
pub mod Reductions
pub mod Traverses
use freebsd_pkg_plugins.Base.{
  ℕ, zero, suc, ◌+◌, ◌*◌, ◌%◌, ◌^◌, Bool, true, false, not, ◌&&◌, Option, none, some, ◌==◌, leb,
  if◌then◌else◌, word_size, ℤ, pos, negsuc,
}

pub record Iterator (C S K V : Type 0) : Type 0 where
  pub collection : C
  pub state : S
  pub first : Option (C → S → Option S)
  pub last : Option (C → S → Option S)
  pub current : C → S → Option (K × V)
  pub next : Option (C → S → Option S)
  pub previous : Option (C → S → Option S)
  pub valid : C → S → Option Bool
  pub count : Option (C → ℕ)

infixl 5 ◌>>=◌
abbrev pub ◌>>=◌ : {A B : Type 0} → Option A → (A → Option B) → Option B
none >>= f = none
some a >>= f = f a

-- a move that is not supported does nothing
abbrev pub moved : {C S : Type 0} → Option (C → S → Option S) → C → S → Option S
moved none c s = some s
moved (some f) c s = f c s

-- what the callback for the number says, where there is one
abbrev pub count_or : {C : Type 0} → Option (C → ℕ) → C → Option ℕ → Option ℕ
count_or none c slow = slow
count_or (some count) c slow = some (count c)

abbrev pub empty_or : {C : Type 0} → Option (C → ℕ) → C → Option Bool → Option Bool
empty_or none c slow = slow
empty_or (some count) c slow = some (count c == 0)

module _ {C S K V : Type 0} where
  unfoldable pub iterator_first : Iterator C S K V → Option (Iterator C S K V)
  iterator_first it = do s ← moved it.first it.collection it.state; some (record it { state = s })

  unfoldable pub iterator_last : Iterator C S K V → Option (Iterator C S K V)
  iterator_last it = do s ← moved it.last it.collection it.state; some (record it { state = s })

  unfoldable pub iterator_next : Iterator C S K V → Option (Iterator C S K V)
  iterator_next it = do s ← moved it.next it.collection it.state; some (record it { state = s })

  unfoldable pub iterator_previous : Iterator C S K V → Option (Iterator C S K V)
  iterator_previous it = do
    s ← moved it.previous it.collection it.state
    some (record it { state = s })

  -- `_iterator_is_valid`: the inner option is the answer `true`, with the key and the value.
  unfoldable pub iterator_is_valid : Iterator C S K V → Option (Option (K × V))
  iterator_is_valid it = do
    valid ← it.valid it.collection it.state
    if valid then (do kv ← it.current it.collection it.state; some (some kv)) else some none

  unfoldable pub no_element : Iterator C S K V → Option Bool
  unfolding iterator_is_valid
  no_element it = do kv ← iterator_is_valid it; some (elim kv [ none ↦ true | some _ ↦ false ])

  unfoldable pub iterator_empty : Iterator C S K V → Option Bool
  unfolding iterator_first no_element
  iterator_empty it = empty_or it.count it.collection (iterator_first it >>= no_element)

  -- The loops below take fuel: `none` is also the answer where it runs out.
  unfoldable pub count_loop : (fuel : ℕ) → ℕ → Iterator C S K V → Option ℕ
  unfolding iterator_is_valid iterator_next
  count_loop zero n it = none
  count_loop (suc k) n it = do
    kv ← iterator_is_valid it
    elim kv [
      | none ↦ some n
      | some _ ↦ do it' ← iterator_next it; count_loop k ((n + 1) % word_size) it'
    ]

  unfoldable pub iterator_count : (fuel : ℕ) → Iterator C S K V → Option ℕ
  unfolding iterator_first count_loop
  iterator_count fuel it =
      count_or it.count it.collection (do it' ← iterator_first it; count_loop fuel 0 it')

  module _ (callback : V → Bool) where
    unfoldable pub any_loop : (fuel : ℕ) → Bool → Iterator C S K V → Option Bool
    unfolding iterator_is_valid iterator_next
    any_loop zero any it = none
    any_loop (suc k) true it = some true
    any_loop (suc k) false it = do
      kv ← iterator_is_valid it
      elim kv [
        | none ↦ some false
        | some (key, value) ↦ do it' ← iterator_next it; any_loop k (callback value) it'
      ]

    unfoldable pub iterator_any : (fuel : ℕ) → Iterator C S K V → Option Bool
    unfolding iterator_first any_loop
    iterator_any fuel it = do it' ← iterator_first it; any_loop fuel false it'

    unfoldable pub all_loop : (fuel : ℕ) → Bool → Iterator C S K V → Option Bool
    unfolding iterator_is_valid iterator_next
    all_loop zero all it = none
    all_loop (suc k) false it = some false
    all_loop (suc k) true it = do
      kv ← iterator_is_valid it
      elim kv [
        | none ↦ some true
        | some (key, value) ↦ do it' ← iterator_next it; all_loop k (true && callback value) it'
      ]

    unfoldable pub iterator_all : (fuel : ℕ) → Iterator C S K V → Option Bool
    unfolding iterator_first all_loop
    iterator_all fuel it = do it' ← iterator_first it; all_loop fuel true it'

  -- `first` and `next` are those of the direction; the variable `i` stays 0. The inner result is
  -- the last value read, none where there is none yet.
  unfoldable pub at_loop :
      (fuel : ℕ) (next : Iterator C S K V → Option (Iterator C S K V)) (i index : ℕ)
      → Option V
      → Iterator C S K V
      → Option (Option V)
  unfolding iterator_is_valid
  at_loop zero next i index value it = none
  at_loop (suc k) next i index value it = elim (leb index i) [
    | true ↦ some value
    | false ↦ do
      kv ← iterator_is_valid it
      elim kv [
        | none ↦ some value
        | some (key, read) ↦ do it' ← next it; at_loop k next i index (some read) it'
      ]
  ]

  -- The answer, and what is written to `*data`: none where it is a value that was never set.
  unfoldable pub iterator_at : (fuel : ℕ) → Iterator C S K V → ℤ → Option (Bool × Option V)
  unfolding iterator_first iterator_last iterator_next iterator_previous at_loop
  iterator_at fuel it (pos n) = do
    it' ← iterator_first it
    value ← at_loop fuel iterator_next 0 n none it'
    some (0 == n, if 0 == n then value else none)
  iterator_at fuel it (negsuc n) = do
    it' ← iterator_last it
    value ← at_loop fuel iterator_previous 0 (n + 1) none it'
    some (0 == n + 1, if 0 == n + 1 then value else none)
