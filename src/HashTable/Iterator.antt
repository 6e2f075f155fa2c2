-- ===== src/HashTable/Iterator.antt =====
-- The iterator of kissc/hashtable.c: it walks the global chain along the stored `gNext` and `gPrev`.
use freebsd_pkg_plugins.Base.{
  ℕ, ◌+◌, ◌<◌, ◌≡◌, ◌≢◌, ◌∙◌, ap, sym, subst, refl, Bool, true, false, not, Option, none, some,
  List, [], ◌∷◌, ◌++◌, ◌==◌, if◌then◌else◌, length, word_size,
}
use freebsd_pkg_plugins.Dlist.Memory.{Ptr, null, Memory, Element}
use freebsd_pkg_plugins.Dlist.Append.{not_null}
use freebsd_pkg_plugins.Dlist.Linked.{front_or, back_or, Joined}
use freebsd_pkg_plugins.Iterator.{Iterator, ◌>>=◌, iterator_first, iterator_next, iterator_is_valid}
use freebsd_pkg_plugins.Iterator.Traverses.{Forward, Traverses}
use freebsd_pkg_plugins.HashTable.{
  HashNode, Nodes, HashTable, load_node, hashtable_size, hashtable_put_real,
}
use freebsd_pkg_plugins.HashTable.Chains.{has, IsValid, Loaded, Loaded-self, last_match}
use freebsd_pkg_plugins.HashTable.Insertion.{
  linked, stored_key, inserted, inserted-IsValid, put-new, resized-same,
}
use freebsd_pkg_plugins.HashTable.Links.{Links, link_last, plain, addresses}
use freebsd_pkg_plugins.HashTable.Relinked.{link_global-Joined}

-- a table with the links of its nodes
abbrev pub LinkedTable : Type 0
LinkedTable = HashTable × Links

-- `*p` in the memory of `gNext` and `gPrev`
unfoldable pub links_at : Memory → Ptr → Option Element
links_at m p = if p == null then none else m.heap p

unfoldable pub hashtable_iterator_first : LinkedTable → Ptr
hashtable_iterator_first c = c.1.g_head

unfoldable pub hashtable_iterator_last : LinkedTable → Ptr
hashtable_iterator_last c = c.1.g_tail

unfoldable pub hashtable_iterator_is_valid : Ptr → Bool
hashtable_iterator_is_valid state = not (state == null)

unfoldable pub hashtable_iterator_current : LinkedTable → Ptr → Option (ℕ × ℕ)
hashtable_iterator_current c state = do n ← load_node state c.0.global; some (n.key, n.content)

unfoldable pub hashtable_iterator_next : LinkedTable → Ptr → Option Ptr
unfolding links_at
hashtable_iterator_next c state = do e ← links_at c.1.global_links state; some e.next

unfoldable pub hashtable_iterator_previous : LinkedTable → Ptr → Option Ptr
unfolding links_at
hashtable_iterator_previous c state = do e ← links_at c.1.global_links state; some e.prev

unfoldable pub hashtable_to_iterator : LinkedTable → Iterator LinkedTable Ptr ℕ ℕ
unfolding hashtable_iterator_first hashtable_iterator_last hashtable_iterator_is_valid
    hashtable_iterator_current hashtable_iterator_next hashtable_iterator_previous
hashtable_to_iterator ht = record {
  collection = ht;
  state = null;
  first = some (λ c s. some (hashtable_iterator_first c));
  last = some (λ c s. some (hashtable_iterator_last c));
  current = hashtable_iterator_current;
  next = some hashtable_iterator_next;
  previous = some hashtable_iterator_previous;
  valid = λ c s. some (hashtable_iterator_is_valid s);
  count = some (λ c. hashtable_size c.0);
}

-- keys and values along the chain
abbrev pub entries : Nodes → List (ℕ × ℕ)
entries [] = []
entries ((p, n) ∷ g) = (n.key, n.content) ∷ entries g

entries-append :
    (g : Nodes) (p : Ptr) (n : HashNode)
    → entries (g ++ (p, n) ∷ []) ≡ entries g ++ (n.key, n.content) ∷ []
entries-append [] p n = refl
entries-append ((q, o) ∷ g) p n = ap (λ xs. (o.key, o.content) ∷ xs) (entries-append g p n)

addresses-append :
    (g : Nodes) (p : Ptr) (n : HashNode)
    → plain (addresses (g ++ (p, n) ∷ [])) ≡ plain (addresses g) ++ (p, 0) ∷ []
addresses-append [] p n = refl
addresses-append ((q, o) ∷ g) p n = ap (λ xs. (q, 0) ∷ xs) (addresses-append g p n)

-- `gNext` and `gPrev` join the nodes in the order of the chain, from `gHead` to `gTail`.
pub record GlobalLinked (g : Nodes) (k : Links) : Type 0 where
  pub links : Joined k.global_links.heap null null (plain (addresses g))
  pub head : k.g_head ≡ front_or (plain (addresses g)) null
  pub tail : k.g_tail ≡ back_or (plain (addresses g)) null

module _ (ht : HashTable) (k : Links) where
  at : Ptr → Iterator LinkedTable Ptr ℕ ℕ
  at p = record (hashtable_to_iterator (ht, k)) { state = p }

  at-Forward :
      (b : Ptr) (g : Nodes)
      → Joined k.global_links.heap b null (plain (addresses g))
      → Loaded ht.global g
      → Forward (at (front_or (plain (addresses g)) null)) (entries g)
  unfolding at Forward iterator_is_valid iterator_next hashtable_to_iterator links_at
      hashtable_iterator_is_valid hashtable_iterator_current hashtable_iterator_next
  at-Forward b [] links loaded = refl
  at-Forward b ((p, n) ∷ g) links (load, loaded) = (
    rw (not_null p links.1, load) refl,
    (
      at (front_or (plain (addresses g)) null),
      rw (not_null p links.1, links.0) refl,
      at-Forward p g links.3 loaded,
    ),
  )

  linked-Traverses :
      IsValid ht
      → GlobalLinked ht.global k
      → Traverses (hashtable_to_iterator (ht, k)) (entries ht.global)
  unfolding Traverses at iterator_first hashtable_to_iterator hashtable_iterator_first
  linked-Traverses v is = (
    at (front_or (plain (addresses ht.global)) null),
    ap (λ p. some (at p)) is.head,
    at-Forward null ht.global is.links (Loaded-self ht.global v.distinct),
  )

  link_last-GlobalLinked :
      (fresh : Ptr) (n : HashNode)
      → GlobalLinked ht.global k
      → k.global_links.heap fresh ≡ none
      → fresh ≢ null
      → (k' : Links) × (link_last k fresh ≡ some k')
        × GlobalLinked (ht.global ++ (fresh, n) ∷ []) k'
  unfolding link_last
  link_last-GlobalLinked fresh n is unused set =
      let (h, run, links) =
        link_global-Joined (plain (addresses ht.global)) fresh k.global_links is.links unused set in
      let whole = addresses-append ht.global fresh n in
      (
        record k {
          global_links = record k.global_links { heap = h };
          g_head = front_or (plain (addresses ht.global) ++ (fresh, 0) ∷ []) null;
          g_tail = back_or (plain (addresses ht.global) ++ (fresh, 0) ∷ []) null;
        },
        rw (link_last, is.head, is.tail, run) refl,
        record { links = rw whole links; head = rw whole refl; tail = rw whole refl },
      )

module _ (fresh : Ptr) (ht : HashTable) (k : Links) (preserve : Bool) (h key value : ℕ)
    (v : IsValid ht) (is : GlobalLinked ht.global k) (unused : has fresh ht.global ≡ false)
    (free : k.global_links.heap fresh ≡ none) (set : fresh ≢ 0)
    (room : length ht.global + 1 < word_size) where
  inserted-global :
      (inserted fresh ht h key value).global
      ≡ ht.global ++ (fresh, record { hash = h; key = stored_key ht key; content = value }) ∷ []
  unfolding inserted
  inserted-global = (resized-same (linked fresh ht h (stored_key ht key) value)).0

  -- The iterator of a valid table whose nodes are joined goes along `gNext` through the keys and the
  -- values in the order of the chain, and then ends. After an insertion of a key that is not in the
  -- table, at a free address, with its node linked behind `gTail`, the iterator goes through the same
  -- keys and values and then through the new ones: so the order is that of insertion, whether or not
  -- the table has grown.
  pub hashtable_to_iterator-Traverses :
      last_match ht.ef h key ht.global ≡ none
      → Traverses (hashtable_to_iterator (ht, k)) (entries ht.global)
        × ((t : HashTable) × (k' : Links) × (hashtable_put_real fresh ht preserve h key value
              ≡ some (record { changed = true; oldvalue = none; table = t }))
            × (link_last k fresh ≡ some k')
            × Traverses
                (hashtable_to_iterator (t, k'))
                (entries ht.global ++ (stored_key ht key, value) ∷ []))
  hashtable_to_iterator-Traverses new =
      let n : HashNode = record { hash = h; key = stored_key ht key; content = value } in
      let (k', run, joined) = link_last-GlobalLinked ht k fresh n is free set in
      let t = inserted fresh ht h key value in
      let valid = inserted-IsValid fresh ht preserve h key value v unused set room in
      let walk =
        linked-Traverses t k' valid (subst (λ g. GlobalLinked g k') (sym inserted-global) joined) in
      (
        linked-Traverses ht k v is,
        (
          t,
          k',
          put-new fresh ht preserve h key value v unused set room new,
          run,
          subst (Traverses (hashtable_to_iterator (t, k')))
              (ap entries inserted-global ∙ entries-append ht.global fresh n) walk,
        ),
      )
