-- ===== src/Iterator/Traverses.antt =====
-- What an iterator promises, and what the functions of kissc/iterator.c make of it.
--
-- `Traverses it xs`: from `first` on, `next` goes through the keys and the values `xs`, and then the
-- position is not valid.
use freebsd_pkg_plugins.Base.{
  ℕ, zero, suc, ◌+◌, ◌<◌, ◌≡◌, ◌∙◌, ap, sym, refl, Bool, true, false, ◌||◌, ◌&&◌, Option, none,
  some, List, [], ◌∷◌, arith, ◌==◌, if◌then◌else◌, leb, length, word_size, pos,
}
use freebsd_pkg_plugins.Iterator.{
  Iterator, ◌>>=◌, iterator_first, iterator_next, iterator_is_valid, count_or, empty_or, no_element,
  iterator_empty, count_loop, iterator_count, any_loop, iterator_any, all_loop, iterator_all,
  at_loop, iterator_at,
}

no_index-le : (n : ℕ) → leb (suc n) 0 ≡ false
no_index-le n = ground arith

zero-==-suc : (n : ℕ) → 0 == suc n ≡ false
zero-==-suc n = ground arith

suc-==-zero : (n : ℕ) → suc n == 0 ≡ false
suc-==-zero n = ground arith

module _ {K V : Type 0} where
  pub any : (V → Bool) → List (K × V) → Bool
  any f [] = false
  any f ((k, v) ∷ xs) = f v || any f xs

  pub all : (V → Bool) → List (K × V) → Bool
  all f [] = true
  all f ((k, v) ∷ xs) = f v && all f xs

module _ {C S K V : Type 0} where
  unfoldable pub Forward : Iterator C S K V → List (K × V) → Type 0
  Forward it [] = iterator_is_valid it ≡ some none
  Forward it (kv ∷ xs) =
      (iterator_is_valid it ≡ some (some kv))
      × ((it' : Iterator C S K V) × (iterator_next it ≡ some it') × Forward it' xs)

  unfoldable pub Traverses : Iterator C S K V → List (K × V) → Type 0
  unfolding Forward
  Traverses it xs = (it' : Iterator C S K V) × (iterator_first it ≡ some it') × Forward it' xs

  any_loop-eq :
      (f : V → Bool) (xs : List (K × V)) (fuel : ℕ) (it : Iterator C S K V)
      → Forward it xs
      → length xs + 1 < fuel
      → any_loop f fuel false it ≡ some (any f xs)
  unfolding Forward any any_loop
  any_loop-eq f [] zero it walk room = elim room [ ]
  any_loop-eq f ((key, v) ∷ xs) zero it walk room = elim room [ ]
  any_loop-eq f [] (suc k) it walk room = rw walk refl
  any_loop-eq f ((key, v) ∷ xs) (suc zero) it (valid, (it', next, walk)) room = absurd (omega arith)
  any_loop-eq f ((key, v) ∷ xs) (suc (suc k)) it (valid, (it', next, walk)) room =
      rw (valid, next)
        (elim (f v) as (λ b. any_loop f (suc k) b it' ≡ some (b || any f xs)) [
          | true ↦ refl
          | false ↦ any_loop-eq f xs (suc k) it' walk (omega arith)
        ])

  all_loop-eq :
      (f : V → Bool) (xs : List (K × V)) (fuel : ℕ) (it : Iterator C S K V)
      → Forward it xs
      → length xs + 1 < fuel
      → all_loop f fuel true it ≡ some (all f xs)
  unfolding Forward all all_loop
  all_loop-eq f [] zero it walk room = elim room [ ]
  all_loop-eq f ((key, v) ∷ xs) zero it walk room = elim room [ ]
  all_loop-eq f [] (suc k) it walk room = rw walk refl
  all_loop-eq f ((key, v) ∷ xs) (suc zero) it (valid, (it', next, walk)) room = absurd (omega arith)
  all_loop-eq f ((key, v) ∷ xs) (suc (suc k)) it (valid, (it', next, walk)) room =
      rw (valid, next)
        (elim (f v) as (λ b. all_loop f (suc k) b it' ≡ some (b && all f xs)) [
          | true ↦ all_loop-eq f xs (suc k) it' walk (omega arith)
          | false ↦ refl
        ])

  count_loop-eq :
      (xs : List (K × V)) (fuel n : ℕ) (it : Iterator C S K V)
      → Forward it xs
      → length xs < fuel
      → n + length xs < word_size
      → count_loop fuel n it ≡ some (n + length xs)
  unfolding Forward count_loop
  count_loop-eq [] zero n it walk room bound = elim room [ ]
  count_loop-eq ((key, v) ∷ xs) zero n it walk room bound = elim room [ ]
  count_loop-eq [] (suc k) n it walk room bound = rw walk (ap some (omega arith))
  count_loop-eq ((key, v) ∷ xs) (suc k) n it (valid, (it', next, walk)) room bound =
      rw (valid, next)
        (ap (λ i. count_loop k i it') (omega arith)
          ∙ count_loop-eq xs k (n + 1) it' walk (omega arith) (omega arith)
          ∙ ap some (omega arith))

  -- On a traversal with enough fuel, `iterator_any` answers whether the callback accepts a value.
  pub iterator_any-eq :
      (f : V → Bool) (xs : List (K × V)) (fuel : ℕ) (it : Iterator C S K V)
      → Traverses it xs
      → length xs + 1 < fuel
      → iterator_any f fuel it ≡ some (any f xs)
  unfolding Traverses iterator_any
  iterator_any-eq f xs fuel it (it', first, walk) room =
      rw first (any_loop-eq f xs fuel it' walk room)

  -- The same of `iterator_all`, which answers whether the callback accepts all the values.
  pub iterator_all-eq :
      (f : V → Bool) (xs : List (K × V)) (fuel : ℕ) (it : Iterator C S K V)
      → Traverses it xs
      → length xs + 1 < fuel
      → iterator_all f fuel it ≡ some (all f xs)
  unfolding Traverses iterator_all
  iterator_all-eq f xs fuel it (it', first, walk) room =
      rw first (all_loop-eq f xs fuel it' walk room)

  no_element-eq :
      (xs : List (K × V)) (it : Iterator C S K V)
      → Forward it xs
      → no_element it ≡ some (length xs == 0)
  unfolding Forward no_element
  no_element-eq [] it walk = rw walk refl
  no_element-eq (kv ∷ xs) it walk = rw (walk.0, suc-==-zero (length xs)) refl

  -- An iterator without a callback for the number counts the elements, and is empty where there are
  -- none, as long as their number is a `size_t`.
  iterator_count-eq :
      (xs : List (K × V)) (fuel : ℕ) (it : Iterator C S K V)
      → Traverses it xs
      → it.count ≡ none
      → length xs < fuel
      → length xs < word_size
      → (iterator_count fuel it ≡ some (length xs)) × (iterator_empty it ≡ some (length xs == 0))
  unfolding Traverses iterator_count iterator_empty
  iterator_count-eq xs fuel it (it', first, walk) default room bound = (
    ap (λ o. count_or o it.collection (iterator_first it >>= count_loop fuel 0)) default
        ∙ rw first
            (count_loop-eq xs fuel 0 it' walk room (omega (arith, bound)) ∙ ap some (omega arith)),
    ap (λ o. empty_or o it.collection (iterator_first it >>= no_element)) default
        ∙ rw first (no_element-eq xs it' walk),
  )

  at_loop-first :
      (xs : List (K × V)) (fuel index : ℕ) (value : Option V) (it : Iterator C S K V)
      → Forward it xs
      → length xs < fuel
      → (read : Option V) × (at_loop fuel iterator_next 0 index value it ≡ some read)
  unfolding Forward at_loop
  at_loop-first [] zero index value it walk room = elim room [ ]
  at_loop-first ((key, v) ∷ xs) zero index value it walk room = elim room [ ]
  at_loop-first [] (suc k) zero value it walk room = (value, refl)
  at_loop-first [] (suc k) (suc n) value it walk room =
      (value, rw (at_loop, no_index-le n, walk) refl)
  at_loop-first (kv ∷ xs) (suc k) zero value it walk room = (value, refl)
  at_loop-first ((key, v) ∷ xs) (suc k) (suc n) value it (valid, (it', next, walk)) room =
      let (read, run) = at_loop-first xs k (suc n) (some v) it' walk (omega arith) in
      (read, rw (at_loop, no_index-le n, valid, next) run)

  -- On a traversal `iterator_at` never answers an element: for the index 0 it answers `true` with a
  -- value that was never set, for a greater one `false`, as many elements as there may be.
  iterator_at-misses :
      (xs : List (K × V)) (fuel index : ℕ) (it : Iterator C S K V)
      → Traverses it xs
      → length xs < fuel
      → iterator_at fuel it (pos index) ≡ some (index == 0, none)
  unfolding Traverses iterator_at at_loop
  iterator_at-misses xs zero zero it walk room = elim room [ ]
  iterator_at-misses xs (suc k) zero it (it', first, walk) room = rw first refl
  iterator_at-misses xs fuel (suc n) it (it', first, walk) room =
      let (read, run) = at_loop-first xs fuel (suc n) none it' walk room in
      rw (first, run)
        (ap (λ b. some (b, if b then read else none)) (zero-==-suc n)
          ∙ ap (λ b. some (b, none)) (sym (suc-==-zero n)))
