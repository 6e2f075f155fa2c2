-- ===== src/HashTable.antt =====
-- The hash table of kissc/hashtable.c and kissc/hashtable.h, with kissc/nearest_power.h.
--
-- A node stands at an address. `global` is the chain from `gHead` to `gTail`, each node with its
-- address; `buckets i` is the chain from `nodes[i]`, addresses only; an
-- index from `capacity` on is a fault. A node is read through its
-- address, so a chain with the address of a freed node faults (`none`). `fresh` is what `malloc`
-- returns. `calls` records the calls of the destructors, the oldest first.

pub mod Content
pub mod Unlinking
pub mod Index
pub mod Chains
pub mod Deletion
pub mod Links
pub mod Relinked
pub mod Linked
pub mod Deleted
mod Examples
pub mod Insertion
pub mod Iterator
pub mod Lifecycle
pub mod Reading
pub mod Uniqueness
pub mod Whole
pub mod Copied
pub mod Copy
pub mod Union
use Prim.Native.Nat.{bit_and, max}
use freebsd_pkg_plugins.Base.{
  ℕ, zero, suc, ◌+◌, ◌-◌, ◌*◌, ◌%◌, ◌^◌, Bool, true, false, not, ◌&&◌, Option, none, some, List, [],
  ◌∷◌, ◌++◌, ◌==◌, ltb, leb, if◌then◌else◌, word_size, is_some, length,
}

abbrev pub Ptr : Type 0
Ptr = ℕ

pub record HashNode : Type 0 where
  pub hash : ℕ
  pub key : ℕ
  pub content : ℕ

abbrev pub Nodes : Type 0
Nodes = List (Ptr × HashNode)

pub data Call : Type 0 where
  destroy_value : ℕ → Call
  destroy_key : ℕ → Call

-- `key_dtor` and `value_dtor` say whether these pointers are set.
pub record HashTable : Type 0 where
  pub buckets : ℕ → List Ptr
  pub global : Nodes
  pub hf : Option (ℕ → ℕ)
  pub ef : ℕ → ℕ → Bool
  pub key_duper : Option (ℕ → ℕ)
  pub key_dtor : Bool
  pub value_dtor : Bool
  pub capacity : ℕ
  pub count : ℕ
  pub mask : ℕ
  pub calls : List Call

infixl 5 ◌>>=◌
abbrev pub ◌>>=◌ : {A B : Type 0} → Option A → (A → Option B) → Option B
none >>= f = none
some a >>= f = f a

-- `n->...` at an address
unfoldable pub load_node : Ptr → Nodes → Option HashNode
load_node p [] = none
load_node p ((q, n) ∷ g) = if p == q then some n else load_node p g

-- `n->data = value`
unfoldable pub set_content : Ptr → ℕ → Nodes → Nodes
set_content p v [] = []
set_content p v ((q, n) ∷ g) =
    if p == q then (q, record n { content = v }) ∷ g else (q, n) ∷ set_content p v g

-- the global chain without a node
unfoldable pub unlink_node : Ptr → Nodes → Nodes
unlink_node p [] = []
unlink_node p ((q, n) ∷ g) = if p == q then g else (q, n) ∷ unlink_node p g

-- a bucket's chain without a node
unfoldable pub unlink_ptr : Ptr → List Ptr → List Ptr
unlink_ptr p [] = []
unlink_ptr p (q ∷ ps) = if p == q then ps else q ∷ unlink_ptr p ps

unfoldable pub set_bucket : (ℕ → List Ptr) → ℕ → List Ptr → ℕ → List Ptr
set_bucket b i c j = if j == i then c else b j

-- `uint32_t index = h & mask`
unfoldable pub index_of : ℕ → ℕ → ℕ
index_of h mask = bit_and h mask % 2 ^ 32

abbrev pub half_size : ℕ
half_size = 2 ^ 63

nearest_loop : ℕ → ℕ → ℕ → ℕ
nearest_loop zero i wanted = 2 ^ i
nearest_loop (suc k) i wanted =
    let rest = nearest_loop k (i + 1) wanted in if ltb (2 ^ i) wanted then rest else 2 ^ i

-- `1UL << i` is a word for the 63 rounds that the loop can take.
unfoldable pub nearest_power : ℕ → ℕ → ℕ
unfolding nearest_loop
nearest_power requested minimal =
    if ltb half_size requested then half_size else nearest_loop 63 1 (max requested minimal)

unfoldable pub hashtable_init :
    ℕ → Option (ℕ → ℕ) → Option (ℕ → ℕ → Bool) → Option (ℕ → ℕ) → Bool → Bool → HashTable
hashtable_init capacity hf ef key_duper key_dtor value_dtor = record {
  buckets = λ _. [];
  global = [];
  hf = hf;
  ef = elim ef [ none ↦ λ a b. a == b | some f ↦ f ];
  key_duper = key_duper;
  key_dtor = key_dtor;
  value_dtor = value_dtor;
  capacity = nearest_power capacity 8;
  count = 0;
  mask = nearest_power capacity 8 - 1;
  calls = [];
}

-- the walk of `hashtable_rehash`: each node goes to the front of its bucket; an index from `capacity`
-- on is out of bounds
unfoldable pub rehash_loop : (capacity mask : ℕ) → Nodes → (ℕ → List Ptr) → Option (ℕ → List Ptr)
rehash_loop capacity mask [] b = some b
rehash_loop capacity mask ((p, n) ∷ g) b =
    let i = index_of n.hash mask in
    let rest = rehash_loop capacity mask g (set_bucket b i (p ∷ b i)) in
    if ltb i capacity then rest else none

unfoldable pub hashtable_rehash : HashTable → Option HashTable
unfolding rehash_loop
hashtable_rehash ht =
    if ltb ht.count 1 then some ht else elim (rehash_loop ht.capacity ht.mask ht.global (λ _. [])) [
      | none ↦ none
      | some b ↦ some (record ht { buckets = b })
    ]

-- `realloc` succeeds.
unfoldable pub hashtable_maybe_resize : HashTable → Option HashTable
unfolding hashtable_rehash
hashtable_maybe_resize ht =
    if ltb ht.count ht.capacity
    then some ht
    else if ltb 0 ((ht.capacity * 2) % word_size)
    then hashtable_rehash (record ht {
      capacity = (ht.capacity * 2) % word_size;
      mask = (ht.capacity * 2) % word_size - 1;
    })
    else some ht

-- `_hashtable_hash`
unfoldable pub hashtable_hash : HashTable → ℕ → ℕ
hashtable_hash ht key = elim ht.hf [ none ↦ key | some f ↦ f key ]

unfoldable pub hashtable_size : HashTable → ℕ
hashtable_size ht = ht.count

-- the test of each walk along a bucket
abbrev pub matches : (ℕ → ℕ → Bool) → ℕ → ℕ → HashNode → Bool
matches ef h key n = n.hash == h && ef key n.key

-- The walk that the lookups, insertion and deletion begin with; `some none` is the end.
unfoldable pub find_loop : (ℕ → ℕ → Bool) → Nodes → ℕ → ℕ → List Ptr → Option (Option Ptr)
find_loop ef g h key [] = some none
find_loop ef g h key (p ∷ ps) = elim (load_node p g) [
  | none ↦ none
  | some n ↦ if matches ef h key n then some (some p) else find_loop ef g h key ps
]

-- `nodes` has `capacity` chains: reading another is a fault.
abbrev pub find_node : HashTable → ℕ → ℕ → Option (Option Ptr)
find_node ht h key =
    if ltb (index_of h ht.mask) ht.capacity
    then find_loop ht.ef ht.global h key (ht.buckets (index_of h ht.mask))
    else none

abbrev pub call_if : Bool → Call → List Call → List Call
call_if b c cs = if b then cs ++ c ∷ [] else cs

-- A new node at the front of its bucket and at the end of the global chain.
unfoldable pub insert_node : (fresh : Ptr) → HashTable → ℕ → ℕ → ℕ → Option HashTable
unfolding hashtable_maybe_resize
insert_node fresh ht h key value =
    let i = index_of h ht.mask in
    let k : ℕ = elim ht.key_duper [ none ↦ key | some dup ↦ dup key ] in
    hashtable_maybe_resize (record ht {
      buckets = set_bucket ht.buckets i (fresh ∷ ht.buckets i);
      global = ht.global ++ (fresh, record { hash = h; key = k; content = value }) ∷ [];
      count = (ht.count + 1) % word_size;
    })

-- What an insertion answers: the Boolean, the old value where there was one, and the table.
pub record Put : Type 0 where
  pub changed : Bool
  pub oldvalue : Option ℕ
  pub table : HashTable

-- The branch of an insertion that finds the key, at the node `n`. `preserve` is the flag
-- `HT_PUT_ON_DUP_KEY_PRESERVE`.
unfoldable pub put_existing : HashTable → Bool → Ptr → HashNode → ℕ → Put
put_existing ht preserve p n value =
    if preserve then record { changed = false; oldvalue = some n.content; table = ht } else record {
      changed = true;
      oldvalue = some n.content;
      table = record ht {
        global = set_content p value ht.global;
        calls = call_if ht.value_dtor (destroy_value n.content) ht.calls;
      };
    }

unfoldable pub hashtable_put_real : (fresh : Ptr) → HashTable → Bool → ℕ → ℕ → ℕ → Option Put
unfolding insert_node put_existing
hashtable_put_real fresh ht preserve h key value = do
  found ← find_node ht h key
  elim found [
    | some p ↦ do n ← load_node p ht.global; some (put_existing ht preserve p n value)
    | none ↦ if fresh == 0 then none else elim (insert_node fresh ht h key value) [
      | none ↦ none
      | some t ↦ some (record { changed = true; oldvalue = none; table = t })
    ]
  ]

unfoldable pub hashtable_quick_put : (fresh : Ptr) → HashTable → Bool → ℕ → ℕ → ℕ → Option Put
hashtable_quick_put = hashtable_put_real

unfoldable pub hashtable_put : (fresh : Ptr) → HashTable → Bool → ℕ → ℕ → Option Put
hashtable_put fresh ht preserve key value =
    hashtable_put_real fresh ht preserve (hashtable_hash ht key) key value

unfoldable pub hashtable_direct_put : (fresh : Ptr) → HashTable → Bool → ℕ → ℕ → Option Put
hashtable_direct_put fresh ht preserve h value = hashtable_put_real fresh ht preserve h h value

unfoldable pub hashtable_quick_contains : HashTable → ℕ → ℕ → Option Bool
hashtable_quick_contains ht h key = do found ← find_node ht h key; some (is_some found)

unfoldable pub hashtable_contains : HashTable → ℕ → Option Bool
hashtable_contains ht key = hashtable_quick_contains ht (hashtable_hash ht key) key

unfoldable pub hashtable_direct_contains : HashTable → ℕ → Option Bool
hashtable_direct_contains ht h = hashtable_quick_contains ht h h

-- The inner option is the answer `false`, with no value written.
unfoldable pub hashtable_quick_get : HashTable → ℕ → ℕ → Option (Option ℕ)
hashtable_quick_get ht h key = do
  found ← find_node ht h key
  elim found [ none ↦ some none | some p ↦ do n ← load_node p ht.global; some (some n.content) ]

unfoldable pub hashtable_get : HashTable → ℕ → Option (Option ℕ)
hashtable_get ht key = hashtable_quick_get ht (hashtable_hash ht key) key

unfoldable pub hashtable_direct_get : HashTable → ℕ → Option (Option ℕ)
hashtable_direct_get ht h = hashtable_quick_get ht h h

-- the destructors' calls for one node
abbrev pub calls_for : Bool → HashTable → HashNode → List Call
calls_for call_dtor ht n =
    call_if (call_dtor && ht.key_dtor) (destroy_key n.key)
      (call_if (call_dtor && ht.value_dtor) (destroy_value n.content) ht.calls)

-- A node leaves its bucket and the global chain, and is freed.
unfoldable pub drop_node : HashTable → Ptr → HashNode → ℕ → Bool → HashTable
drop_node ht p n i call_dtor = record ht {
  buckets = set_bucket ht.buckets i (unlink_ptr p (ht.buckets i));
  global = unlink_node p ht.global;
  count = (ht.count + word_size - 1) % word_size;
  calls = calls_for call_dtor ht n;
}

unfoldable pub hashtable_delete_real : HashTable → ℕ → ℕ → Bool → Option (Bool × HashTable)
unfolding drop_node
hashtable_delete_real ht h key call_dtor = do
  found ← find_node ht h key
  elim found [
    | none ↦ some (false, ht)
    | some p ↦ do
      n ← load_node p ht.global
      some (true, drop_node ht p n (index_of h ht.mask) call_dtor)
  ]

unfoldable pub hashtable_quick_delete : HashTable → ℕ → ℕ → Bool → Option (Bool × HashTable)
hashtable_quick_delete = hashtable_delete_real

unfoldable pub hashtable_delete : HashTable → ℕ → Bool → Option (Bool × HashTable)
hashtable_delete ht key call_dtor = hashtable_delete_real ht (hashtable_hash ht key) key call_dtor

unfoldable pub hashtable_direct_delete : HashTable → ℕ → Bool → Option (Bool × HashTable)
hashtable_direct_delete ht h call_dtor = hashtable_delete_real ht h h call_dtor

-- the walk of `hashtable_clear_real` along the global chain
unfoldable pub clear_loop : Bool → Bool → Nodes → List Call → List Call
clear_loop kd vd [] cs = cs
clear_loop kd vd ((p, n) ∷ g) cs =
    clear_loop kd vd g (call_if kd (destroy_key n.key) (call_if vd (destroy_value n.content) cs))

unfoldable pub hashtable_clear : HashTable → HashTable
unfolding clear_loop
hashtable_clear ht = record ht {
  buckets = λ _. [];
  global = [];
  count = 0;
  calls = clear_loop ht.key_dtor ht.value_dtor ht.global ht.calls;
}
