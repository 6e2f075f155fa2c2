-- ===== src/Iterator/Folds.antt =====
-- The functions of kissc/iterator.c that compute a value from all the elements: the greatest one,
-- a reduction, the sum and the product.
use freebsd_pkg_plugins.Base.{
  ℕ, zero, suc, ◌+◌, ◌*◌, ◌%◌, Bool, true, false, ◌&&◌, Option, none, some, if◌then◌else◌,
  word_size,
}
use freebsd_pkg_plugins.Iterator.{Iterator, ◌>>=◌, iterator_first, iterator_next, iterator_is_valid}

-- The values are numbers behind pointers, `deref`; an `int64_t` is its bit pattern.
module _ {V : Type 0} (deref : V → ℕ) where
  unfoldable pub iterator_sum_callback : ℕ → V → Bool × ℕ
  iterator_sum_callback acc value = (true, (acc + deref value) % word_size)

  unfoldable pub iterator_product_callback : ℕ → V → Bool × ℕ
  iterator_product_callback acc value = (true, acc * deref value % word_size)

module _ {C S K V : Type 0} where
  -- `gt` tells whether `cmp` is positive.
  unfoldable pub max_loop : (gt : V → V → Bool) (fuel : ℕ) → V → Iterator C S K V → Option V
  unfolding iterator_is_valid iterator_next
  max_loop gt zero best it = none
  max_loop gt (suc k) best it = do
    kv ← iterator_is_valid it
    elim kv [
      | none ↦ some best
      | some (key, value) ↦ do
        it' ← iterator_next it
        max_loop gt k (if gt value best then value else best) it'
    ]

  -- the inner option is the answer `true`, with what is written to `*max`
  unfoldable pub iterator_max :
      (gt : V → V → Bool) (fuel : ℕ) → Iterator C S K V → Option (Option V)
  unfolding iterator_first iterator_is_valid iterator_next max_loop
  iterator_max gt fuel it = do
    it₀ ← iterator_first it
    kv ← iterator_is_valid it₀
    elim kv [
      | none ↦ some none
      | some (key, value) ↦ do
        it₁ ← iterator_next it₀
        best ← max_loop gt fuel value it₁
        some (some best)
    ]

  module _ {A : Type 0} (callback : A → V → Bool × A) where
    unfoldable pub reduce_loop : (fuel : ℕ) → Bool → A → Iterator C S K V → Option (Bool × A)
    unfolding iterator_is_valid iterator_next
    reduce_loop zero ok acc it = none
    reduce_loop (suc k) false acc it = some (false, acc)
    reduce_loop (suc k) true acc it = do
      kv ← iterator_is_valid it
      elim kv [
        | none ↦ some (true, acc)
        | some (key, value) ↦ do
          it' ← iterator_next it
          let (ok, acc') = callback acc value
          reduce_loop k (true && ok) acc' it'
      ]

    unfoldable pub iterator_reduce : (fuel : ℕ) → A → Iterator C S K V → Option (Bool × A)
    unfolding iterator_first reduce_loop
    iterator_reduce fuel acc it = do it' ← iterator_first it; reduce_loop fuel true acc it'

  module _ (deref : V → ℕ) where
    unfoldable pub iterator_sum : (fuel : ℕ) → Iterator C S K V → Option ℕ
    unfolding iterator_reduce iterator_sum_callback
    iterator_sum fuel it = do
      (ok, sum) ← iterator_reduce (iterator_sum_callback deref) fuel 0 it
      some sum

    unfoldable pub iterator_product : (fuel : ℕ) → Iterator C S K V → Option ℕ
    unfolding iterator_reduce iterator_product_callback
    iterator_product fuel it = do
      (ok, product) ← iterator_reduce (iterator_product_callback deref) fuel 1 it
      some product
