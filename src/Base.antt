-- ===== src/Base.antt =====
-- The names that the other modules share: the libraries', passed on, and small helpers on numbers,
-- tests, lists and options.
pub use Prim.Native.Nat.{ℕ, zero, suc, ◌+◌, ◌-◌, ◌*◌, ◌/◌, ◌%◌, ◌^◌, ◌≤◌, ◌<◌}
pub use mathlib.Core.Path.{◌≡◌, refl, sym, ap, ◌∙◌, subst}
pub use mathlib.Core.Logic.{◌≢◌, ◌↔◌, ◌⊎◌, inl, inr}
pub use mathlib.Core.Bool.{Bool, true, false, not, ◌&&◌, ◌||◌}
pub use mathlib.Core.Option.{Option, none, some}
pub use mathlib.Core.List.{List, [], ◌∷◌, ◌++◌, map, append-nil, append_assoc}
pub use native.Mathlib.Omega.{arith}
use Prim.Native.Nat.{compare, Ordering}
use Prim.Native.Char.{code}
use Prim.Native.String.{String}

infix 50 ◌==◌
abbrev pub ◌==◌ : ℕ → ℕ → Bool
a == b = elim (compare a b) [ Ordering.eq ↦ true | _ ↦ false ]

abbrev pub ltb : ℕ → ℕ → Bool
ltb a b = elim (compare a b) [ Ordering.lt ↦ true | _ ↦ false ]

abbrev pub leb : ℕ → ℕ → Bool
leb a b = elim (compare a b) [ Ordering.gt ↦ false | _ ↦ true ]

infix 1 if◌then◌else◌
abbrev pub if◌then◌else◌ {ℓ} : {A : Type ℓ} → Bool → A → A → A
if true then x else y = x
if false then x else y = y

pub Bool-cases : (b : Bool) → (b ≡ true) ⊎ (b ≡ false)
Bool-cases true = inl refl
Bool-cases false = inr refl

pub ==→eq : (a b : ℕ) → a == b ≡ true → a ≡ b
==→eq a b h = ground arith

pub ==_refl : (a : ℕ) → a == a ≡ true
==_refl a = ground arith

-- the integers of C's signed types
pub data ℤ : Type 0 where
  pos : ℕ → ℤ
  negsuc : ℕ → ℤ

-- `size_t` and `uint64_t` count modulo this number.
abbrev pub word_size : ℕ
word_size = 2 ^ 64

module _ {ℓ} {A : Type ℓ} where
  abbrev pub length : List A → ℕ
  length [] = 0
  length (x ∷ xs) = suc (length xs)

  abbrev pub is_some : Option A → Bool
  is_some none = false
  is_some (some _) = true

  abbrev pub get_elem? : List A → ℕ → Option A
  get_elem? [] i = none
  get_elem? (x ∷ xs) zero = some x
  get_elem? (x ∷ xs) (suc i) = get_elem? xs i

  pub length-append : (xs ys : List A) → length (xs ++ ys) ≡ length xs + length ys
  length-append [] ys = omega arith
  length-append (x ∷ xs) ys = omega (arith, length-append xs ys)

  pub Option-cases : (o : Option A) → (o ≡ none) ⊎ ((a : A) × (o ≡ some a))
  Option-cases none = inl refl
  Option-cases (some a) = inr (a, refl)

-- `gt`, "the comparison is positive", is the strict part of a total preorder.
pub record IsOrder {V : Type 0} (gt : V → V → Bool) : Type 0 where
  pub asymmetric : (a b : V) → gt a b ≡ true → gt b a ≡ false
  pub transitive : (a b c : V) → gt a b ≡ false → gt b c ≡ false → gt a c ≡ false

pub irreflexive : {V : Type 0} (gt : V → V → Bool) → IsOrder gt → (a : V) → gt a a ≡ false
irreflexive gt order a = elim (Bool-cases (gt a a)) [
  | inl greater ↦ order.asymmetric a a greater
  | inr less ↦ less
]

-- `0 == strcmp(a, b)`, on texts without their NUL
abbrev pub same_text : List ℕ → List ℕ → Bool
same_text [] [] = true
same_text [] (y ∷ ys) = false
same_text (x ∷ xs) [] = false
same_text (x ∷ xs) (y ∷ ys) = (x == y) && same_text xs ys

-- the bytes of a literal
abbrev pub codes : String → List ℕ
codes String.[] = []
codes (String.◌∷◌ c s) = code c ∷ codes s

pub or_assoc : (a b c : Bool) → ((a || b) || c) ≡ (a || (b || c))
or_assoc true b c = refl
or_assoc false b c = refl

pub or_false : (a : Bool) → (a || false) ≡ a
or_false true = refl
or_false false = refl

-- the order of the integers
abbrev pub below : ℤ → ℤ → Bool
below (pos m) (pos n) = ltb m n
below (pos m) (negsuc n) = false
below (negsuc m) (pos n) = true
below (negsuc m) (negsuc n) = ltb n m
