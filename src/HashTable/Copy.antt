-- ===== src/HashTable/Copy.antt =====
-- hashtable_copy of kissc/hashtable.c as lookups see it.
use mathlib.Core.Option
use freebsd_pkg_plugins.Base.{
  ℕ, ◌<◌, ◌≡◌, ◌≢◌, refl, ap, ◌∙◌, true, false, Option, some, [], ◌==◌, arith, length, word_size,
}
use freebsd_pkg_plugins.HashTable.{Ptr, HashTable, hashtable_quick_get, hashtable_clear}
use freebsd_pkg_plugins.HashTable.Chains.{IsValid}
use freebsd_pkg_plugins.HashTable.Content.{quick_get-last_match}
use freebsd_pkg_plugins.HashTable.Reading.{reading}
use freebsd_pkg_plugins.HashTable.Lifecycle.{hashtable_clear-IsValid}
use freebsd_pkg_plugins.HashTable.Uniqueness.{KeysOnce}
use freebsd_pkg_plugins.HashTable.Whole.{KeyDuper, chosen, duplicate, hashtable_copy}
use freebsd_pkg_plugins.HashTable.Copied.{last_match-copied, copy_loop-IsValid}

-- each lookup reads the copy of what it reads in the source
abbrev pub Copies : Option (ℕ → ℕ) → HashTable → HashTable → Type 0
Copies value_duper src t =
    (h key : ℕ)
    → (o : Option ℕ) × (hashtable_quick_get src h key ≡ some o)
      × (hashtable_quick_get t h key ≡ some (Option.map (duplicate value_duper) o))

-- a copy that ends without a fault in a valid table that reads so
abbrev pub CopiesTo : (ℕ → Ptr) → HashTable → HashTable → KeyDuper → Option (ℕ → ℕ) → Type 0
CopiesTo fresh dst src key_duper value_duper =
    (t : HashTable) × (hashtable_copy fresh (some dst) src key_duper value_duper ≡ some t)
    × IsValid t
    × Copies value_duper src t

-- Copying a valid table with each key once into another table, whose mask is below its capacity and
-- whatever that table had, ends without a fault in a valid table, in which every lookup reads the copy
-- of what it reads in the source. Every key must equal itself, and a key's copy must be tested as the key is.
pub hashtable_copy-Copies :
    (fresh : ℕ → Ptr) (dst src : HashTable) (key_duper : KeyDuper) (value_duper : Option (ℕ → ℕ))
    → dst.mask < dst.capacity
    → IsValid src
    → KeysOnce src
    → length src.global < word_size
    → ((i : ℕ) → fresh i ≢ 0)
    → ((i j : ℕ) → i < j → fresh j == fresh i ≡ false)
    → ((x k : ℕ) → src.ef x (duplicate (chosen key_duper src.key_duper) k) ≡ src.ef x k)
    → ((k : ℕ) → src.ef k k ≡ true)
    → CopiesTo fresh dst src key_duper value_duper
unfolding hashtable_copy
hashtable_copy-Copies fresh dst src key_duper value_duper bounded v once room some_memory new_memory
      same self =
    let (cleared, nothing, zeroed, called) = hashtable_clear-IsValid dst bounded in
    let kd = chosen key_duper src.key_duper in
    let ret : HashTable = record (hashtable_clear dst) {
      hf = src.hf;
      ef = src.ef;
      key_duper = kd;
      key_dtor = src.key_dtor;
      value_dtor = src.value_dtor;
    } in
    let valid : IsValid ret = record {
      buckets = cleared.buckets;
      distinct = cleared.distinct;
      counted = cleared.counted;
      masked = cleared.masked;
    } in
    let (t, run, v', e', gl) =
      copy_loop-IsValid fresh kd value_duper src.ef some_memory new_memory same self src.global []
        ret valid refl refl nothing (omega (arith, room)) once in
    let t' : HashTable = record t { key_duper = src.key_duper } in
    let valid' : IsValid t' = record {
      buckets = v'.buckets;
      distinct = v'.distinct;
      counted = v'.counted;
      masked = v'.masked;
    } in
    (
      t',
      rw run refl,
      valid',
      λ h key. (
        _,
        quick_get-last_match src h key v,
        reading t' src.ef _ h key valid' e' gl
            ∙ ap some (last_match-copied fresh kd value_duper src.ef h key 0 src.global same),
      ),
    )
