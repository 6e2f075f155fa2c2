-- ===== src/HashTable/Whole.antt =====
-- The functions of kissc/hashtable.c on whole tables: copy, union, comparison, destruction, and
-- the first and the last value.
--
-- `fresh i` is what `malloc` returns in the round `i` of a loop, if the round calls it. The calls
-- of the destructors are recorded in the table whose they are. Two tables have the same callbacks
-- where the pointers are equal: that comparison is the argument `same_callbacks`.
use freebsd_pkg_plugins.Base.{
  ℕ, zero, suc, ◌+◌, Bool, true, false, not, ◌&&◌, Option, none, some, List, [], ◌∷◌, ◌==◌,
  if◌then◌else◌, is_some,
}
use freebsd_pkg_plugins.HashTable.{
  Ptr, HashNode, Nodes, HashTable, Call, ◌>>=◌, hashtable_init, hashtable_clear, clear_loop,
  hashtable_quick_put, hashtable_quick_get,
}

-- `hashtable_destroy`: what is left are the destructors' calls.
unfoldable pub hashtable_destroy : HashTable → List Call
unfolding clear_loop
hashtable_destroy ht = clear_loop ht.key_dtor ht.value_dtor ht.global ht.calls

-- the value of the head of the chain, `none` for `NULL`
unfoldable pub hashtable_first : HashTable → Option ℕ
hashtable_first ht = elim ht.global [ [] ↦ none | (p, n) ∷ g ↦ some n.content ]

abbrev last_content : Nodes → Option ℕ
last_content [] = none
last_content ((p, n) ∷ []) = some n.content
last_content (x ∷ y ∷ g) = last_content (y ∷ g)

unfoldable pub hashtable_last : HashTable → Option ℕ
hashtable_last ht = last_content ht.global

-- the argument `key_duper` of a copy: `(void *) 1` or a pointer, perhaps `NULL`
pub data KeyDuper : Type 0 where
  keep_callback : KeyDuper
  use_callback : Option (ℕ → ℕ) → KeyDuper

abbrev pub chosen : KeyDuper → Option (ℕ → ℕ) → Option (ℕ → ℕ)
chosen keep_callback own = own
chosen (use_callback f) own = f

-- `NULL == value_duper ? data : value_duper(data)`
abbrev pub duplicate : Option (ℕ → ℕ) → ℕ → ℕ
duplicate none data' = data'
duplicate (some f) data' = f data'

unfoldable pub copy_loop :
    (fresh : ℕ → Ptr) → Option (ℕ → ℕ) → ℕ → HashTable → Nodes → Option HashTable
copy_loop fresh value_duper i ret [] = some ret
copy_loop fresh value_duper i ret ((p, n) ∷ g) = do
  r ← hashtable_quick_put (fresh i) ret false n.hash n.key (duplicate value_duper n.content)
  copy_loop fresh value_duper (i + 1) r.table g

-- `dst` is none for `NULL`: then the last assignment is through that pointer, a fault.
unfoldable pub hashtable_copy :
    (fresh : ℕ → Ptr) → Option HashTable → HashTable → KeyDuper → Option (ℕ → ℕ) → Option HashTable
unfolding copy_loop
hashtable_copy fresh none src key_duper value_duper = do
  ret ←
      copy_loop fresh value_duper 0
        (hashtable_init src.count src.hf (some src.ef) (chosen key_duper src.key_duper) src.key_dtor
          src.value_dtor)
        src.global
  none
hashtable_copy fresh (some dst) src key_duper value_duper = do
  ret ←
      copy_loop fresh value_duper 0
        (record (hashtable_clear dst) {
          hf = src.hf;
          ef = src.ef;
          key_duper = chosen key_duper src.key_duper;
          key_dtor = src.key_dtor;
          value_dtor = src.value_dtor;
        })
        src.global
  some (record ret { key_duper = src.key_duper })

-- where `dst` points
pub data Destination : Type 0 where
  null_table : Destination
  first_set : Destination
  second_set : Destination
  other_table : HashTable → Destination

-- `NULL != key_duper`
abbrev pub is_set : KeyDuper → Bool
is_set keep_callback = true
is_set (use_callback f) = is_some f

-- One round. A key that is there already is put again, with `value_duper` called (a fault if it is
-- `NULL`), where `key_duper` is not `NULL`.
unfoldable pub union_put :
    (fresh : Ptr) → KeyDuper → Option (ℕ → ℕ) → HashTable → HashNode → Option HashTable
union_put fresh key_duper value_duper dst n = do
  r ← hashtable_quick_put fresh dst true n.hash n.key n.content
  if not r.changed && is_set key_duper
      then (elim value_duper [
        | none ↦ none
        | some f ↦ do
          r' ← hashtable_quick_put fresh r.table true n.hash n.key (f n.content)
          some r'.table
      ])
      else some r.table

-- the loop over a second table that is not `dst`
unfoldable pub union_loop :
    (fresh : ℕ → Ptr) → KeyDuper → Option (ℕ → ℕ) → ℕ → HashTable → Nodes → Option HashTable
unfolding union_put
union_loop fresh key_duper value_duper i dst [] = some dst
union_loop fresh key_duper value_duper i dst ((p, n) ∷ g) = do
  dst' ← union_put (fresh i) key_duper value_duper dst n
  union_loop fresh key_duper value_duper (i + 1) dst' g

-- the chain from the nth node on
abbrev pub drop_nodes : ℕ → Nodes → Nodes
drop_nodes zero g = g
drop_nodes (suc i) [] = []
drop_nodes (suc i) (x ∷ g) = drop_nodes i g

-- The loop over `dst` itself, whose chain may grow meanwhile: round `i` is at its node `i`.
unfoldable pub self_loop :
    (fuel : ℕ) (fresh : ℕ → Ptr) → KeyDuper → Option (ℕ → ℕ) → ℕ → HashTable → Option HashTable
unfolding union_put
self_loop zero fresh key_duper value_duper i dst = none
self_loop (suc k) fresh key_duper value_duper i dst = elim (drop_nodes i dst.global) [
  | [] ↦ some dst
  | (p, n) ∷ g ↦ do
    dst' ← union_put (fresh i) key_duper value_duper dst n
    self_loop k fresh key_duper value_duper (i + 1) dst'
]

-- The answer with the table that `dst` points to; the inner option is the answer `NULL`.
unfoldable pub hashtable_union :
    (fuel : ℕ) (fresh more : ℕ → Ptr) (same_callbacks : Bool)
    → Destination
    → HashTable
    → HashTable
    → KeyDuper
    → Option (ℕ → ℕ)
    → Option (Option HashTable)
unfolding hashtable_copy union_loop self_loop
hashtable_union fuel fresh more false dst set1 set2 key_duper value_duper = some none
hashtable_union fuel fresh more true null_table set1 set2 key_duper value_duper = do
  ret ← hashtable_copy fresh none set1 key_duper value_duper
  some (some ret)
hashtable_union fuel fresh more true first_set set1 set2 key_duper value_duper = do
  ret ←
      union_loop more key_duper value_duper 0
        (record set1 { key_duper = chosen key_duper set1.key_duper }) set2.global
  some (some (record ret { key_duper = set1.key_duper }))
hashtable_union fuel fresh more true second_set set1 set2 key_duper value_duper = do
  ret ←
      self_loop fuel more key_duper value_duper 0
        (record set2 { key_duper = chosen key_duper set2.key_duper })
  some (some (record ret { key_duper = set2.key_duper }))
hashtable_union fuel fresh more true (other_table dst) set1 set2 key_duper value_duper = do
  copied ← hashtable_copy fresh (some dst) set1 key_duper value_duper
  ret ←
      union_loop more key_duper value_duper 0
        (record copied { key_duper = chosen key_duper copied.key_duper }) set2.global
  some (some (record ret { key_duper = copied.key_duper }))

unfoldable pub equals_loop : HashTable → HashTable → Bool → Nodes → Option Bool
equals_loop ht1 ht2 equals [] = some equals
equals_loop ht1 ht2 false (x ∷ g) = some false
equals_loop ht1 ht2 true ((p, n) ∷ g) = do
  found ← hashtable_quick_get ht2 n.hash n.key
  elim found [ none ↦ some false | some value ↦ equals_loop ht1 ht2 (ht1.ef n.content value) g ]

unfoldable pub hashtable_equals : HashTable → HashTable → Option Bool
unfolding equals_loop
hashtable_equals ht1 ht2 = equals_loop ht1 ht2 (ht1.count == ht2.count) ht1.global
