-- ===== src/HashTable/Links.antt =====
-- The four link fields of the nodes of kissc/hashtable.c as they stand in memory, and what
-- hashtable_delete_real does to them.
--
-- Each pair of fields has a memory of its own, of the kind that lists use; its data is not used here.
use freebsd_pkg_plugins.Base.{
  ℕ, zero, suc, Bool, true, false, Option, none, some, List, [], ◌∷◌, ◌==◌, ltb, if◌then◌else◌, ◌≡◌,
}
use freebsd_pkg_plugins.Dlist.Memory.{
  Ptr, null, Memory, Run, ok, fault, out_of_fuel, Cmd, pure, ◌>>=◌, ◌>>◌, load, put, element,
  set_next, free,
}
use freebsd_pkg_plugins.Dlist.{relink_prev, relink_next}
use freebsd_pkg_plugins.Dlist.Linked.{Chain, Joined, front_or, back_or}
use freebsd_pkg_plugins.HashTable.{Nodes, HashTable, load_node, matches, index_of}

-- `nNext` and `nPrev` are in `bucket_links`, `gNext` and `gPrev` in `global_links`.
pub record Links : Type 0 where
  pub bucket_links : Memory
  pub global_links : Memory
  pub nodes : ℕ → Ptr
  pub g_head : Ptr
  pub g_tail : Ptr

-- `nodes[index]` is `first` before, and what is answered after
unfoldable pub unlink_bucket : (first n : Ptr) → Cmd Ptr
unlink_bucket first n = do
  e ← load n
  if n == first then pure tt else set_next e.prev e.next
  e' ← load n
  relink_next e'.next e'.prev
  free n
  pure (if n == first then e'.next else first)

-- The global chain's part of `hashtable_put_real`: `gHead` and `gTail` before and after a new node.
unfoldable pub link_global : (fresh head tail : Ptr) → Cmd (Ptr × Ptr)
link_global fresh head tail = do
  put fresh (some (element null tail 0))
  relink_prev tail fresh
  pure (if head == null then fresh else head, fresh)

-- `none` is a fault
unfoldable pub link_last : Links → (fresh : Ptr) → Option Links
link_last k fresh =
    elim (link_global fresh k.g_head k.g_tail k.global_links) as (λ _. Option Links) [
      | ok (head, tail) m ↦ some (record k { global_links = m; g_head = head; g_tail = tail })
      | fault ↦ none
      | out_of_fuel ↦ none
    ]

-- `gHead` and `gTail` before and after
unfoldable pub unlink_global : (head tail n : Ptr) → Cmd (Ptr × Ptr)
unlink_global head tail n = do
  e ← load n
  relink_prev e.prev e.next
  e' ← load n
  relink_next e'.next e'.prev
  free n
  pure (if e.prev == null then e.next else head, if e'.next == null then e'.prev else tail)

-- The node leaves both chains; `none` is a fault.
unfoldable pub unlink : Links → Ptr → ℕ → Option Links
unlink k n i = elim (unlink_bucket (k.nodes i) n k.bucket_links) as (λ _. Option Links) [
  | ok first m ↦ elim (unlink_global k.g_head k.g_tail n k.global_links) as (λ _. Option Links) [
    | ok (head, tail) m' ↦ some (record {
      bucket_links = m;
      global_links = m';
      nodes = λ j. if j == i then first else k.nodes j;
      g_head = head;
      g_tail = tail;
    })
    | fault ↦ none
    | out_of_fuel ↦ none
  ]
  | fault ↦ none
  | out_of_fuel ↦ none
]

-- the walk along `nNext`, from a node on
unfoldable pub find_linked :
    (fuel : ℕ) → (ℕ → ℕ → Bool) → Nodes → ℕ → ℕ → (n : Ptr) → Cmd (Option Ptr)
find_linked zero ef g h key n m = out_of_fuel
find_linked (suc fuel) ef g h key n m =
    let rest = λ (p : Ptr). find_linked fuel ef g h key p m in
    if n == null then ok none m else elim (load n m) as (λ _. Run (Option Ptr)) [
      | fault ↦ fault
      | out_of_fuel ↦ out_of_fuel
      | ok e m' ↦ elim (load_node n g) as (λ _. Run (Option Ptr)) [
        | none ↦ fault
        | some o ↦ if matches ef h key o then ok (some n) m else rest e.next
      ]
    ]

-- `hashtable_delete_real` on the links; hashes and keys are those of the table. `none` is a fault, or
-- that the fuel ran out.
unfoldable pub delete_linked : (fuel : ℕ) → HashTable → Links → ℕ → ℕ → Option (Bool × Links)
delete_linked fuel ht k h key =
    let i = index_of h ht.mask in
    if ltb i ht.capacity
    then elim (find_linked fuel ht.ef ht.global h key (k.nodes i) k.bucket_links)
        as (λ _. Option (Bool × Links)) [
          | fault ↦ none
          | out_of_fuel ↦ none
          | ok none m ↦ some (false, k)
          | ok (some n) m ↦ elim (unlink k n i) as (λ _. Option (Bool × Links)) [
            | none ↦ none
            | some k' ↦ some (true, k')
          ]
        ]
    else none

-- a chain of addresses
abbrev pub plain : List Ptr → Chain
plain [] = []
plain (p ∷ ps) = (p, 0) ∷ plain ps

abbrev pub addresses : Nodes → List Ptr
addresses [] = []
addresses ((p, n) ∷ g) = p ∷ addresses g

-- The links join the nodes as the chains of the table name them, in both directions.
pub record IsLinked (ht : HashTable) (k : Links) : Type 0 where
  pub global : Joined k.global_links.heap null null (plain (addresses ht.global))
  pub head : k.g_head ≡ front_or (plain (addresses ht.global)) null
  pub tail : k.g_tail ≡ back_or (plain (addresses ht.global)) null
  pub buckets : (i : ℕ) → Joined k.bucket_links.heap null null (plain (ht.buckets i))
  pub firsts : (i : ℕ) → k.nodes i ≡ front_or (plain (ht.buckets i)) null
