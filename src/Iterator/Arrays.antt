-- ===== src/Iterator/Arrays.antt =====
-- The iterators over arrays keep what an iterator promises.
use native.Mathlib.Nat.{mul-div_cancel, mul-le-mul_right}
use freebsd_pkg_plugins.Base.{
  ℕ, zero, suc, ◌+◌, ◌*◌, ◌/◌, ◌%◌, ◌<◌, ◌≤◌, ◌≡◌, ◌∙◌, ap, refl, subst, true, false, none, some,
  List, [], ◌∷◌, arith, ltb, leb, word_size,
}
use freebsd_pkg_plugins.Iterator.{Iterator, iterator_first, iterator_next, iterator_is_valid}
use freebsd_pkg_plugins.Iterator.Traverses.{Forward, Traverses}
use freebsd_pkg_plugins.Iterator.Array.{
  ArrayState, distance, array_iterator_first, array_iterator_is_valid, array_iterator_current,
  array_iterator_next, array_to_iterator,
}

-- index and address of the elements `i` to `i + k - 1`
abbrev pub elements : (array element_size i k : ℕ) → List (ℕ × ℕ)
elements array element_size i zero = []
elements array element_size i (suc k) =
    (i, array + i * element_size) ∷ elements array element_size (i + 1) k

module _ (array size n : ℕ) (some_size : 0 < size) (room : array + n * size < word_size) where
  at : ℕ → Iterator ℕ ArrayState ℕ ℕ
  at p = record (array_to_iterator array size n) {
    state = record { ptr = p; element_size = size; element_count = n };
  }

  following : (i : ℕ) → (i + 1) * size ≡ i * size + size
  following i = omega arith

  index-lt : (i : ℕ) → i < n → i * size + size ≤ n * size
  index-lt i lt =
      subst (λ k. k ≤ n * size) (following i) (mul-le-mul_right size (omega (arith, lt)))

  at-valid :
      (i : ℕ)
      → i < n
      → iterator_is_valid (at (array + i * size)) ≡ some (some (i, array + i * size))
  unfolding at iterator_is_valid array_to_iterator array_iterator_is_valid array_iterator_current
  at-valid i lt =
      let inside = index-lt i lt in
      let above : leb array (array + i * size) ≡ true = ground arith in
      let below : ltb (array + i * size) ((array + n * size) % word_size) ≡ true = ground arith in
      let offset : distance (array + i * size) array ≡ i * size = omega arith in
      rw (above, below)
        (ap (λ k. some (some (k, array + i * size)))
          (ap (λ d. d / size) offset ∙ mul-div_cancel i some_size))

  at-end : iterator_is_valid (at (array + n * size)) ≡ some none
  unfolding at iterator_is_valid array_to_iterator array_iterator_is_valid
  at-end =
      let above : leb array (array + n * size) ≡ true = ground arith in
      let beyond : ltb (array + n * size) ((array + n * size) % word_size) ≡ false = ground arith in
      rw (above, beyond) refl

  at-next :
      (i : ℕ) → i < n → iterator_next (at (array + i * size)) ≡ some (at (array + (i + 1) * size))
  unfolding at iterator_next array_to_iterator array_iterator_next
  at-next i lt =
      let inside = index-lt i lt in
      let next : (array + i * size + size) % word_size ≡ array + (i + 1) * size =
        omega (arith, following i) in
      ap (λ p. some (at p)) next

  at-Forward : (k i : ℕ) → i + k ≡ n → Forward (at (array + i * size)) (elements array size i k)
  unfolding Forward
  at-Forward zero i e =
      let here : n ≡ i = omega arith in
      subst (λ j. iterator_is_valid (at (array + j * size)) ≡ some none) here at-end
  at-Forward (suc k) i e = (
    at-valid i (omega arith),
    (at (array + (i + 1) * size), at-next i (omega arith), at-Forward k (i + 1) (omega arith)),
  )

  -- The iterator of an array in the address space goes through the indices and the addresses of
  -- its elements, and then ends.
  array_to_iterator-Traverses : Traverses (array_to_iterator array size n) (elements array size 0 n)
  unfolding Traverses at array_to_iterator array_iterator_first iterator_first
  array_to_iterator-Traverses =
      (at (array + 0 * size), ap (λ p. some (at p)) (omega arith), at-Forward n 0 (omega arith))
