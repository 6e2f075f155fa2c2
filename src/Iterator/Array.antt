-- ===== src/Iterator/Array.antt =====
-- The iterators of kissc/iterator.c over arrays: of a given number of elements, of pointers up to a
-- NULL, and of structures up to one with a NULL field.
--
-- A pointer is its address, modulo 2 ^ 64; `memory` reads a pointer at an address.
use freebsd_pkg_plugins.Base.{
  ℕ, ◌+◌, ◌-◌, ◌*◌, ◌/◌, ◌%◌, Bool, not, ◌&&◌, none, some, ◌==◌, ltb, leb, word_size,
}
use freebsd_pkg_plugins.Iterator.{Iterator}

-- `as_t`
pub record ArrayState : Type 0 where
  pub ptr : ℕ
  pub element_size : ℕ
  pub element_count : ℕ

-- `p - q` of pointers, as the unsigned number that the division reads
abbrev pub distance : ℕ → ℕ → ℕ
distance p q = (p + word_size - q) % word_size

unfoldable pub array_iterator_first : ℕ → ArrayState → ArrayState
array_iterator_first collection s = record s { ptr = collection }

unfoldable pub array_iterator_last : ℕ → ArrayState → ArrayState
array_iterator_last collection s =
    let before = (s.element_count + word_size - 1) % word_size in
    record s { ptr = (collection + before * s.element_size) % word_size }

unfoldable pub array_iterator_is_valid : ℕ → ArrayState → Bool
array_iterator_is_valid collection s =
    leb collection s.ptr && ltb s.ptr ((collection + s.element_count * s.element_size) % word_size)

unfoldable pub array_iterator_current : ℕ → ArrayState → ℕ × ℕ
array_iterator_current collection s = (distance s.ptr collection / s.element_size, s.ptr)

unfoldable pub array_iterator_next : ℕ → ArrayState → ArrayState
array_iterator_next collection s = record s { ptr = (s.ptr + s.element_size) % word_size }

unfoldable pub array_iterator_prev : ℕ → ArrayState → ArrayState
array_iterator_prev collection s = record s {
  ptr = (s.ptr + word_size - s.element_size % word_size) % word_size;
}

unfoldable pub array_to_iterator : ℕ → ℕ → ℕ → Iterator ℕ ArrayState ℕ ℕ
unfolding array_iterator_first array_iterator_last array_iterator_is_valid array_iterator_current
    array_iterator_next array_iterator_prev
array_to_iterator array element_size element_count = record {
  collection = array;
  state = record { ptr = array; element_size = element_size; element_count = element_count };
  first = some (λ c s. some (array_iterator_first c s));
  last = some (λ c s. some (array_iterator_last c s));
  current = λ c s. some (array_iterator_current c s);
  next = some (λ c s. some (array_iterator_next c s));
  previous = some (λ c s. some (array_iterator_prev c s));
  valid = λ c s. some (array_iterator_is_valid c s);
  count = none;
}

module _ (memory : ℕ → ℕ) where
  unfoldable pub null_terminated_ptr_array_iterator_is_valid : ℕ → Bool
  null_terminated_ptr_array_iterator_is_valid state = not (memory state == 0)

  -- The key is a difference of `void *`, in bytes.
  unfoldable pub null_terminated_ptr_array_iterator_current : ℕ → ℕ → ℕ × ℕ
  null_terminated_ptr_array_iterator_current collection state =
      (distance state collection, memory state)

abbrev pub pointer_size : ℕ
pointer_size = 8

unfoldable pub null_terminated_ptr_array_iterator_next : ℕ → ℕ
null_terminated_ptr_array_iterator_next state = (state + pointer_size) % word_size

unfoldable pub null_terminated_ptr_array_to_iterator : (memory : ℕ → ℕ) → ℕ → Iterator ℕ ℕ ℕ ℕ
unfolding null_terminated_ptr_array_iterator_is_valid null_terminated_ptr_array_iterator_current
    null_terminated_ptr_array_iterator_next
null_terminated_ptr_array_to_iterator memory array = record {
  collection = array;
  state = 0;
  first = some (λ c s. some c);
  last = none;
  current = λ c s. some (null_terminated_ptr_array_iterator_current memory c s);
  next = some (λ c s. some (null_terminated_ptr_array_iterator_next s));
  previous = none;
  valid = λ c s. some (null_terminated_ptr_array_iterator_is_valid memory s);
  count = none;
}

-- `nsftas_t`
pub record SentineledState : Type 0 where
  pub ptr : ℕ
  pub element_size : ℕ
  pub field_offset : ℕ

unfoldable pub sentineled_iterator_is_valid : (memory : ℕ → ℕ) → SentineledState → Bool
sentineled_iterator_is_valid memory s = not (memory ((s.ptr + s.field_offset) % word_size) == 0)

unfoldable pub sentineled_iterator_current : ℕ → SentineledState → ℕ × ℕ
sentineled_iterator_current collection s = (distance s.ptr collection / s.element_size, s.ptr)

unfoldable pub sentineled_iterator_next : SentineledState → SentineledState
sentineled_iterator_next s = record s { ptr = (s.ptr + s.element_size) % word_size }

-- `null_sentineled_field_terminated_array_to_iterator`
unfoldable pub sentineled_to_iterator :
    (memory : ℕ → ℕ) → ℕ → ℕ → ℕ → Iterator ℕ SentineledState ℕ ℕ
unfolding sentineled_iterator_is_valid sentineled_iterator_current sentineled_iterator_next
sentineled_to_iterator memory array element_size field_offset = record {
  collection = array;
  state = record { ptr = array; element_size = element_size; field_offset = field_offset };
  first = some (λ c s. some (record s { ptr = c }));
  last = none;
  current = λ c s. some (sentineled_iterator_current c s);
  next = some (λ c s. some (sentineled_iterator_next s));
  previous = none;
  valid = λ c s. some (sentineled_iterator_is_valid memory s);
  count = none;
}
