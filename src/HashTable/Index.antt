-- ===== src/HashTable/Index.antt =====
-- A masked hash is no larger than the mask.
use Prim.Native.Nat.{bit_and, digits, min, bit_and-bitwise}
use freebsd_pkg_plugins.Base.{ℕ, zero, suc, ◌/◌, ◌<◌, ◌≤◌, ◌≡◌, true, ltb, arith}
use freebsd_pkg_plugins.HashTable.{index_of}

digits-le : (n a b : ℕ) → digits (λ b. zero) min n a b ≤ b
digits-le zero a b = omega arith
digits-le (suc n) zero b = omega arith
digits-le (suc n) (suc a) b = omega (arith, digits-le n (suc a / 2) (b / 2))

bit_and-le : (a b : ℕ) → bit_and a b ≤ b
bit_and-le a b = omega (arith, bit_and-bitwise a b, digits-le a a b)

pub index_of-below : (h mask capacity : ℕ) → mask < capacity → ltb (index_of h mask) capacity ≡ true
unfolding index_of
index_of-below h mask capacity lt = ground (arith, bit_and-le h mask)
