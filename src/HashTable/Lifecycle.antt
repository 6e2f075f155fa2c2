-- ===== src/HashTable/Lifecycle.antt =====
-- Initialisation and clearing of the hash table, and its capacity (kissc/nearest_power.h).
use Prim.Native.Nat.{max}
use freebsd_pkg_plugins.Base.{
  ℕ, zero, suc, ◌+◌, ◌^◌, ◌<◌, ◌≤◌, ◌≡◌, refl, subst, sym, ap, ◌∙◌, Bool, true, false, Option, none,
  some, List, [], ◌∷◌, ◌++◌, ltb, arith, if◌then◌else◌, Bool-cases, inl, inr, append_assoc,
  append-nil,
}
use freebsd_pkg_plugins.HashTable.{
  HashNode, Nodes, HashTable, Call, destroy_key, destroy_value, call_if, nearest_loop,
  nearest_power, half_size, hashtable_init, hashtable_clear, clear_loop, hashtable_quick_get,
}
use freebsd_pkg_plugins.HashTable.Chains.{IsValid}
use freebsd_pkg_plugins.HashTable.Content.{quick_get-last_match}

-- `2 ^ j` is the least power of two from `2 ^ i` on that reaches `wanted`.
abbrev pub IsLeastPower : ℕ → ℕ → ℕ → Type 0
IsLeastPower i wanted j = (i ≤ j) × (wanted ≤ 2 ^ j) × ((k : ℕ) → i ≤ k → k < j → 2 ^ k < wanted)

below_step :
    (i wanted j k : ℕ)
    → ltb (2 ^ i) wanted ≡ true
    → ((k : ℕ) → i + 1 ≤ k → k < j → 2 ^ k < wanted)
    → i ≤ k
    → k < j
    → 2 ^ k < wanted
below_step i wanted j k more least from below = elim (Bool-cases (ltb i k)) [
  | inl above ↦ least k (ground arith) below
  | inr same ↦ let e : i ≡ k = ground arith in subst (λ n. 2 ^ n < wanted) e (ground arith)
]

nearest_loop-IsLeastPower :
    (f i wanted : ℕ)
    → wanted ≤ 2 ^ (i + f)
    → (j : ℕ) × (nearest_loop f i wanted ≡ 2 ^ j) × IsLeastPower i wanted j
unfolding nearest_loop
nearest_loop-IsLeastPower zero i wanted h = (
  i,
  refl,
  (omega arith, subst (λ n. wanted ≤ 2 ^ n) (omega arith) h, λ k lo hi. absurd (omega arith)),
)
nearest_loop-IsLeastPower (suc f) i wanted h = elim (Bool-cases (ltb (2 ^ i) wanted)) [
  | inr stop ↦ (i, rw stop, (omega arith, ground arith, λ k lo hi. absurd (omega arith)))
  | inl more ↦
      let (j, run, (lo, reach, least)) =
        nearest_loop-IsLeastPower f (i + 1) wanted (subst (λ n. wanted ≤ 2 ^ n) (omega arith) h) in
      (
        j,
        rw more run,
        (omega arith, reach, λ k from below. below_step i wanted j k more least from below),
      )
]

-- Up to the largest power of two in a word, `nearest_power` is the least power of two, two at the
-- least, that reaches both the requested and the minimal length.
pub nearest_power-IsLeastPower :
    (requested minimal : ℕ)
    → requested ≤ half_size
    → minimal ≤ half_size
    → (j : ℕ) × (nearest_power requested minimal ≡ 2 ^ j) × IsLeastPower 1 (max requested minimal) j
unfolding nearest_power
nearest_power-IsLeastPower requested minimal h h' =
    let fits : ltb half_size requested ≡ false = ground arith in
    rw fits (nearest_loop-IsLeastPower 63 1 (max requested minimal) (omega arith))

power_pos : (n : ℕ) → 0 < 2 ^ n
power_pos zero = omega arith
power_pos (suc n) = omega (arith, power_pos n)

nearest_loop_pos : (k i wanted : ℕ) → 0 < nearest_loop k i wanted
unfolding nearest_loop
nearest_loop_pos zero i wanted = power_pos i
nearest_loop_pos (suc k) i wanted = ground (arith, nearest_loop_pos k (i + 1) wanted, power_pos i)

nearest_power_pos : (requested minimal : ℕ) → 0 < nearest_power requested minimal
unfolding nearest_power
nearest_power_pos requested minimal = ground (arith, nearest_loop_pos 63 1 (max requested minimal))

-- A new table is valid, empty, and reads nothing under any key.
hashtable_init-IsValid :
    (capacity : ℕ) (hf : Option (ℕ → ℕ)) (ef : Option (ℕ → ℕ → Bool)) (dup : Option (ℕ → ℕ))
    (kd vd : Bool)
    → let t = hashtable_init capacity hf ef dup kd vd in
      IsValid t × ((h key : ℕ) → hashtable_quick_get t h key ≡ some none)
unfolding hashtable_init
hashtable_init-IsValid capacity hf ef dup kd vd =
    let t : HashTable = hashtable_init capacity hf ef dup kd vd in
    let some_buckets = nearest_power_pos capacity 8 in
    let valid : IsValid t = record {
      buckets = λ i. refl;
      distinct = tt;
      counted = refl;
      masked = omega arith;
    } in
    (valid, λ h key. quick_get-last_match t h key valid)

-- the destructors' calls for one node: the value first, then the key
abbrev pub node_calls : Bool → Bool → HashNode → List Call
node_calls kd vd n =
    (if vd then destroy_value n.content ∷ [] else []) ++ (if kd then destroy_key n.key ∷ [] else [])

pub all_calls : Bool → Bool → Nodes → List Call
all_calls kd vd [] = []
all_calls kd vd ((p, n) ∷ g) = node_calls kd vd n ++ all_calls kd vd g

call_if-node_calls :
    (kd vd : Bool) (n : HashNode) (cs : List Call)
    → call_if kd (destroy_key n.key) (call_if vd (destroy_value n.content) cs)
      ≡ cs ++ node_calls kd vd n
call_if-node_calls true true n cs =
    append_assoc cs (destroy_value n.content ∷ []) (destroy_key n.key ∷ [])
call_if-node_calls false true n cs = refl
call_if-node_calls true false n cs = refl
call_if-node_calls false false n cs = sym (append-nil cs)

clear_loop-all_calls :
    (kd vd : Bool) (g : Nodes) (cs : List Call) → clear_loop kd vd g cs ≡ cs ++ all_calls kd vd g
unfolding clear_loop all_calls
clear_loop-all_calls kd vd [] cs = sym (append-nil cs)
clear_loop-all_calls kd vd ((p, n) ∷ g) cs =
    clear_loop-all_calls kd vd g _
    ∙ (ap (λ c. c ++ all_calls kd vd g) (call_if-node_calls kd vd n cs)
        ∙ append_assoc cs (node_calls kd vd n) (all_calls kd vd g))

-- Clearing a table, where the mask is below the capacity, leaves a valid, empty table, after calling the destructors that are set, once for each
-- node in the order of insertion, on the value and then on the key.
pub hashtable_clear-IsValid :
    (ht : HashTable)
    → ht.mask < ht.capacity
    → let t = hashtable_clear ht in
      IsValid t
      × (t.global ≡ [])
      × (t.count ≡ 0)
      × (t.calls ≡ ht.calls ++ all_calls ht.key_dtor ht.value_dtor ht.global)
unfolding hashtable_clear
hashtable_clear-IsValid ht bounded = (
  record { buckets = λ i. refl; distinct = tt; counted = refl; masked = bounded },
  refl,
  refl,
  clear_loop-all_calls ht.key_dtor ht.value_dtor ht.global ht.calls,
)
