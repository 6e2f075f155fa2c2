-- ===== src/Iterator/Reductions.antt =====
-- What the functions of Iterator/Folds compute on a traversal.
use freebsd_pkg_plugins.Base.{
  ℕ, zero, suc, ◌+◌, ◌%◌, ◌<◌, ◌≡◌, ◌⊎◌, inl, inr, ◌∙◌, ap, refl, Bool, true, false, none, some,
  List, [], ◌∷◌, arith, Bool-cases, length, word_size, IsOrder, irreflexive,
}
use freebsd_pkg_plugins.Iterator.{Iterator}
use freebsd_pkg_plugins.Iterator.Folds.{
  max_loop, iterator_max, reduce_loop, iterator_reduce, iterator_sum, iterator_sum_callback,
}
use freebsd_pkg_plugins.Iterator.Traverses.{Forward, Traverses}

module _ {K V A : Type 0} (callback : A → V → Bool × A) where
  -- the callback on the values in order, up to the first one for which it fails
  abbrev pub reduced : Bool → A → List (K × V) → Bool × A
  reduced ok acc [] = (ok, acc)
  reduced false acc (x ∷ xs) = (false, acc)
  reduced true acc ((k, v) ∷ xs) = let (ok, acc') = callback acc v in reduced ok acc' xs

module _ {C S K V A : Type 0} (callback : A → V → Bool × A) where
  reduce_loop-eq :
      (xs : List (K × V)) (fuel : ℕ) (ok : Bool) (acc : A) (it : Iterator C S K V)
      → Forward it xs
      → length xs < fuel
      → reduce_loop callback fuel ok acc it ≡ some (reduced callback ok acc xs)
  unfolding Forward reduce_loop
  reduce_loop-eq [] zero ok acc it walk room = elim room [ ]
  reduce_loop-eq (x ∷ xs) zero ok acc it walk room = elim room [ ]
  reduce_loop-eq [] (suc k) false acc it walk room = refl
  reduce_loop-eq [] (suc k) true acc it walk room = rw walk refl
  reduce_loop-eq (x ∷ xs) (suc k) false acc it walk room = refl
  reduce_loop-eq ((key, v) ∷ xs) (suc k) true acc it (valid, (it', next, walk)) room =
      rw (valid, next)
        (reduce_loop-eq xs k (callback acc v).0 (callback acc v).1 it' walk (omega arith))

  -- On a traversal with enough fuel, `iterator_reduce` calls the callback on the values in order, and
  -- stops at the first one for which it fails.
  pub iterator_reduce-eq :
      (xs : List (K × V)) (fuel : ℕ) (acc : A) (it : Iterator C S K V)
      → Traverses it xs
      → length xs < fuel
      → iterator_reduce callback fuel acc it ≡ some (reduced callback true acc xs)
  unfolding Traverses iterator_reduce
  iterator_reduce-eq xs fuel acc it (it', first, walk) room =
      rw first (reduce_loop-eq xs fuel true acc it' walk room)

module _ {K V : Type 0} (deref : V → ℕ) where
  pub total : List (K × V) → ℕ
  total [] = 0
  total ((k, v) ∷ xs) = deref v + total xs

  reduced-sum :
      (xs : List (K × V)) (acc : ℕ)
      → (acc < word_size)
      → reduced (iterator_sum_callback deref) true acc xs ≡ (true, (acc + total xs) % word_size)
  unfolding iterator_sum_callback total
  reduced-sum [] acc small = ap (λ n. (true, n)) (omega arith)
  reduced-sum ((k, v) ∷ xs) acc small =
      reduced-sum xs ((acc + deref v) % word_size) (omega arith) ∙ ap (λ n. (true, n)) (omega arith)

-- `iterator_sum` is the sum of the numbers, modulo 2 ^ 64.
pub iterator_sum-eq :
    {C S K V : Type 0} (deref : V → ℕ) (xs : List (K × V)) (fuel : ℕ) (it : Iterator C S K V)
    → Traverses it xs
    → length xs < fuel
    → iterator_sum deref fuel it ≡ some (total deref xs % word_size)
unfolding iterator_sum
iterator_sum-eq deref xs fuel it walk room =
    rw
      (
        iterator_reduce-eq (iterator_sum_callback deref) xs fuel 0 it walk room,
        reduced-sum deref xs 0 (omega arith),
      )
      (ap (λ n. some (n % word_size)) (omega arith))

module _ {K V : Type 0} where
  unfoldable pub NoneGreater : (gt : V → V → Bool) → V → List (K × V) → Type 0
  NoneGreater gt best [] = Unit
  NoneGreater gt best ((k, v) ∷ xs) = (gt v best ≡ false) × NoneGreater gt best xs

  unfoldable pub Occurs : V → List (K × V) → Type 0
  Occurs a [] = ⊥
  Occurs a ((k, v) ∷ xs) = (a ≡ v) ⊎ Occurs a xs

-- what `iterator_max` answers on these keys and values
abbrev pub IsGreatest :
    {C S K V : Type 0} → (V → V → Bool) → ℕ → Iterator C S K V → List (K × V) → Type 0
IsGreatest {V = V} gt fuel it xs =
    ((xs ≡ []) × (iterator_max gt fuel it ≡ some none))
    ⊎ ((found : V) × (iterator_max gt fuel it ≡ some (some found))
        × Occurs found xs
        × NoneGreater gt found xs)

module _ {C S K V : Type 0} (gt : V → V → Bool) (order : IsOrder gt) where
  max_loop-IsGreatest :
      (xs : List (K × V)) (fuel : ℕ) (best : V) (it : Iterator C S K V)
      → Forward it xs
      → length xs < fuel
      → (found : V) × (max_loop gt fuel best it ≡ some found)
        × ((found ≡ best) ⊎ Occurs found xs)
        × NoneGreater gt found xs
        × ((a : V) → gt a best ≡ false → gt a found ≡ false)
  unfolding Forward NoneGreater Occurs max_loop
  max_loop-IsGreatest [] zero best it walk room = elim room [ ]
  max_loop-IsGreatest (x ∷ xs) zero best it walk room = elim room [ ]
  max_loop-IsGreatest [] (suc k) best it walk room = (best, rw walk refl, inl refl, tt, λ a le. le)
  max_loop-IsGreatest ((key, v) ∷ xs) (suc k) best it (valid, (it', next, walk)) room =
      elim (Bool-cases (gt v best)) [
        | inl greater ↦
            let (found, run, among, none_greater, kept) =
              max_loop-IsGreatest xs k v it' walk (omega arith) in
            (
              found,
              rw (valid, next, greater) run,
              inr among,
              (kept v (irreflexive gt order v), none_greater),
              λ a le. kept a (order.transitive a best v le (order.asymmetric v best greater)),
            )
        | inr less ↦
            let (found, run, among, none_greater, kept) =
              max_loop-IsGreatest xs k best it' walk (omega arith) in
            (
              found,
              rw (valid, next, less) run,
              elim among [ inl e ↦ inl e | inr o ↦ inr (inr o) ],
              (kept v less, none_greater),
              kept,
            )
      ]

  -- With a comparison that orders the values, `iterator_max` on a traversal of one value or more
  -- answers one of the values, than which none is greater; without a value it answers `false`.
  iterator_max-IsGreatest :
      (xs : List (K × V)) (fuel : ℕ) (it : Iterator C S K V)
      → Traverses it xs
      → length xs < fuel
      → IsGreatest gt fuel it xs
  unfolding Traverses Forward NoneGreater Occurs iterator_max
  iterator_max-IsGreatest [] fuel it (it', first, walk) room = inl (refl, rw (first, walk) refl)
  iterator_max-IsGreatest ((key, v) ∷ xs) fuel it (it', first, (valid, (it₁, next, walk))) room =
      let (found, run, among, none_greater, kept) =
        max_loop-IsGreatest xs fuel v it₁ walk (omega arith) in
      inr (
        found,
        rw (first, valid, next, run) refl,
        among,
        (kept v (irreflexive gt order v), none_greater),
      )
