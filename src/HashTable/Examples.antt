-- ===== src/HashTable/Examples.antt =====
-- Tests of the hash table at a table with the node 5 ↦ 70, and the theorems at that table.
use Prim.Native.Nat.{max}
use freebsd_pkg_plugins.Base.{
  ℕ, ◌≡◌, ◌^◌, refl, true, false, not, ◌&&◌, none, some, [], ◌∷◌, ◌++◌, ◌==◌, arith, if◌then◌else◌,
  is_some, ◌⊎◌, suc, length, Bool-cases, inl, inr, ◌*◌, ◌+◌,
}
use freebsd_pkg_plugins.HashTable.{
  Ptr, HashNode, HashTable, Put, index_of, hashtable_put_real, hashtable_delete_real, calls_for,
  nearest_power,
}
use freebsd_pkg_plugins.HashTable.Chains.{IsValid, last_match}
use freebsd_pkg_plugins.HashTable.Insertion.{put_real-IsValid}
use freebsd_pkg_plugins.HashTable.Reading.{Overwrites, put_real-Overwrites}
use freebsd_pkg_plugins.Dlist.Memory.{Memory, element}
use freebsd_pkg_plugins.HashTable.Deletion.{Deletes}
use freebsd_pkg_plugins.HashTable.Links.{Links, delete_linked, IsLinked, link_last}
use freebsd_pkg_plugins.HashTable.Deleted.{hashtable_delete_real-IsLinked}
use freebsd_pkg_plugins.HashTable.Lifecycle.{IsLeastPower, nearest_power-IsLeastPower}
use freebsd_pkg_plugins.HashTable.Uniqueness.{IsEquality, KeysOnce, put_real-KeysOnce}
use freebsd_pkg_plugins.Iterator.Traverses.{Traverses}
use freebsd_pkg_plugins.HashTable.Iterator.{
  hashtable_to_iterator, entries, GlobalLinked, hashtable_to_iterator-Traverses,
}
use freebsd_pkg_plugins.HashTable.Whole.{keep_callback}
use freebsd_pkg_plugins.HashTable.Copy.{CopiesTo, hashtable_copy-Copies}

abbrev five : HashNode
five = record { hash = 5; key = 5; content = 70 }

abbrev one : HashTable
one = record {
  buckets = λ i. if i == 5 then 16 ∷ [] else [];
  global = (16, five) ∷ [];
  hf = none;
  ef = λ a b. a == b;
  key_duper = none;
  key_dtor = false;
  value_dtor = true;
  capacity = 8;
  count = 1;
  mask = 7;
  calls = [];
}

one-IsValid : IsValid one
unfolding index_of
one-IsValid = record {
  buckets = λ i. ground arith;
  distinct = (refl, tt);
  counted = refl;
  masked = omega arith;
}

==-IsEquality : IsEquality (λ a b. a == b)
==-IsEquality = record { symm = λ a b. ground arith; trans = λ a b c h k. ground arith }

one-KeysOnce : KeysOnce one
one-KeysOnce h key = ground arith

hashtable_put_example :
    (r : Put) × (hashtable_put_real 24 one true 5 5 71 ≡ some r)
    × IsValid r.table
    × (r.oldvalue ≡ some 70)
    × (r.changed ≡ not (true && is_some r.oldvalue))
hashtable_put_example =
    put_real-IsValid 24 one true 5 5 71 one-IsValid refl (omega arith) (omega arith)

hashtable_overwrite_example :
    (r : Put) × (hashtable_put_real 24 one false 5 5 71 ≡ some r) × Overwrites one 5 5 71 r
hashtable_overwrite_example =
    put_real-Overwrites 24 one 5 5 71 one-IsValid refl (omega arith) (omega arith) refl

hashtable_once_example :
    (r : Put) × (hashtable_put_real 24 one false 13 13 71 ≡ some r) × KeysOnce r.table
hashtable_once_example =
    put_real-KeysOnce 24 one false 13 13 71 one-IsValid refl (omega arith) (omega arith)
      ==-IsEquality refl one-KeysOnce

-- the links of that table: its node stands alone in both chains
abbrev lone : Memory
lone = record { heap = λ a. if a == 16 then some (element 0 0 0) else none; destroyed = [] }

abbrev one_links : Links
one_links = record {
  bucket_links = lone;
  global_links = lone;
  nodes = λ i. if i == 5 then 16 else 0;
  g_head = 16;
  g_tail = 16;
}

one-IsLinked : IsLinked one one_links
one-IsLinked = record {
  global = (refl, λ e. ground (arith, e), refl, tt);
  head = refl;
  tail = refl;
  buckets = λ i. elim (Bool-cases (i == 5)) [
    | inl e ↦ rw e (refl, λ e. ground (arith, e), refl, tt)
    | inr e ↦ rw e tt
  ];
  firsts = λ i. elim (Bool-cases (i == 5)) [ inl e ↦ rw e refl | inr e ↦ rw e refl ];
}

hashtable_delete_example :
    ((last_match one.ef 5 5 one.global ≡ none)
      × (hashtable_delete_real one 5 5 true ≡ some (false, one))
      × (delete_linked (suc (length one.global)) one one_links 5 5 ≡ some (false, one_links)))
    ⊎ ((p : Ptr) × (n : HashNode) × (t : HashTable) × (k' : Links) × (last_match one.ef 5 5
            one.global
          ≡ some (p, n))
        × (hashtable_delete_real one 5 5 true ≡ some (true, t))
        × (delete_linked (suc (length one.global)) one one_links 5 5 ≡ some (true, k'))
        × IsLinked t k'
        × (t.calls ≡ calls_for true one n)
        × Deletes one 5 5 n t)
hashtable_delete_example =
    hashtable_delete_real-IsLinked one one_links 5 5 true one-IsValid one-IsLinked (omega arith)

hashtable_capacity_example : (j : ℕ) × (nearest_power 32 8 ≡ 2 ^ j) × IsLeastPower 1 (max 32 8) j
hashtable_capacity_example = nearest_power-IsLeastPower 32 8 (omega arith) (omega arith)

nearest_power-five : nearest_power 5 8 ≡ 8
unfolding nearest_power
nearest_power-five = refl

abbrev addresses : ℕ → Ptr
addresses i = 24 + 8 * i

hashtable_copy_example : CopiesTo addresses one one keep_callback (some suc)
hashtable_copy_example =
    hashtable_copy-Copies addresses one one keep_callback (some suc) (omega arith) one-IsValid
      one-KeysOnce (omega arith) (λ i. omega arith) (λ i j lt. ground arith) (λ x k. refl)
      (λ k. ground arith)

one-GlobalLinked : GlobalLinked one.global one_links
one-GlobalLinked = record {
  links = (refl, λ e. ground (arith, e), refl, tt);
  head = refl;
  tail = refl;
}

hashtable_to_iterator_example :
    Traverses (hashtable_to_iterator (one, one_links)) (entries one.global)
    × ((t : HashTable) × (k' : Links) × (hashtable_put_real 24 one false 13 13 71
          ≡ some (record { changed = true; oldvalue = none; table = t }))
        × (link_last one_links 24 ≡ some k')
        × Traverses (hashtable_to_iterator (t, k')) (entries one.global ++ (13, 71) ∷ []))
hashtable_to_iterator_example =
    hashtable_to_iterator-Traverses 24 one one_links false 13 13 71 one-IsValid one-GlobalLinked
      refl refl (λ e. ground (arith, e)) (omega arith) refl
