-- ===== src/Dlist/Relinking.antt =====
-- Giving a chain of the list another neighbour, as `dlist_remove_link` does on both sides.
use freebsd_pkg_plugins.Base.{ℕ, ◌≡◌, ◌≢◌, refl, false, some, [], ◌∷◌, ◌∙◌, arith}
use freebsd_pkg_plugins.Dlist.Memory.{
  Ptr, null, Element, element, Heap, write, Memory, ok, set_next-ok, set_prev-ok,
}
use freebsd_pkg_plugins.Dlist.Linked.{
  Chain, on_chain, front_or, back_or, Joined, frame, write_other, Disjoint, Joined-set_last,
  Joined-set_first, last_lem, on_chain-back_or, ne_of_has,
}
use freebsd_pkg_plugins.Dlist.Append.{not_null}
use freebsd_pkg_plugins.Dlist.{relink_prev, relink_next}

-- A chain is given another successor: its own elements alone change.
pub relink_prev-ok :
    (m : Memory) (s s' : Ptr) (us : Chain)
    → Joined m.heap null s us
    → (h' : Heap) × (relink_prev (back_or us null) s' m ≡ ok tt (record m { heap = h' }))
      × Joined h' null s' us
      × ((a : Ptr) → on_chain a us ≡ false → h' a ≡ m.heap a)
unfolding relink_prev
relink_prev-ok m s s' [] links = (m.heap, refl, tt, λ a out. refl)
relink_prev-ok m s s' ((p, v) ∷ us) links =
    let (e, found, stop, ne) = last_lem m.heap null s p v us links in
    (
      write m.heap (back_or us p) (some (record e { next = s' })),
      rw (not_null (back_or us p) ne) (set_next-ok m (back_or us p) e ne found s'),
      Joined-set_last m.heap null s s' p v us e links found,
      λ a out.
          write_other m.heap (back_or us p) a _
            (ne_of_has (back_or us p) a ((p, v) ∷ us) (on_chain-back_or p v us) out),
    )

-- A chain is given another predecessor.
pub relink_next-ok :
    (m : Memory) (b b' : Ptr) (ws : Chain)
    → Joined m.heap b null ws
    → (h' : Heap) × (relink_next (front_or ws null) b' m ≡ ok tt (record m { heap = h' }))
      × Joined h' b' null ws
      × ((a : Ptr) → on_chain a ws ≡ false → h' a ≡ m.heap a)
unfolding relink_next
relink_next-ok m b b' [] links = (m.heap, refl, tt, λ a out. refl)
relink_next-ok m b b' ((p, v) ∷ ws) links = (
  write m.heap p (some (element (front_or ws null) b' v)),
  rw (not_null p links.1) (set_prev-ok m p _ links.1 links.0 b'),
  Joined-set_first m.heap b b' null p v ws links,
  λ a out. write_other m.heap p a _ (ne_of_has p a ((p, v) ∷ ws) (ground arith) out),
)

pub Disjoint-sym : (us ws : Chain) → Disjoint us ws → Disjoint ws us
Disjoint-sym us ws apart a i = ground (arith, apart a)

-- the element that goes from between two chains
abbrev pub between : Chain → Chain → ℕ → Element
between us ws v = element (front_or ws null) (back_or us null) v

-- Both chains are joined past the element, which is still there.
abbrev pub Bypassed : Chain → Chain → Ptr → ℕ → Heap → Type 0
Bypassed us ws p v h =
    Joined h null (front_or ws null) us
    × Joined h (back_or us null) null ws
    × (h p ≡ some (between us ws v))

-- the element stands in neither chain, and they share none
abbrev pub Apart : Chain → Chain → Ptr → Type 0
Apart us ws p = (p ≢ null) × (on_chain p us ≡ false) × (on_chain p ws ≡ false) × Disjoint us ws

pub relink_prev-step :
    (us ws : Chain) (p : Ptr) (v : ℕ) (m : Memory) (s b : Ptr)
    → Apart us ws p
    → Joined m.heap null s us
    → Joined m.heap b null ws
    → m.heap p ≡ some (between us ws v)
    → (h' : Heap) × (relink_prev (back_or us null) (front_or ws null) m
        ≡ ok tt (record m { heap = h' }))
      × Joined h' null (front_or ws null) us
      × Joined h' b null ws
      × (h' p ≡ some (between us ws v))
relink_prev-step us ws p v m s b apart lu lw found =
    let (h', run, lu', same) = relink_prev-ok m s (front_or ws null) us lu in
    (
      h',
      run,
      lu',
      frame m.heap h' b null ws lw (λ a i. same a (Disjoint-sym us ws apart.3 a i)),
      same p apart.1 ∙ found,
    )

pub relink_next-step :
    (us ws : Chain) (p : Ptr) (v : ℕ) (m : Memory) (b b' : Ptr)
    → Apart us ws p
    → Joined m.heap null (front_or ws null) us
    → Joined m.heap b null ws
    → m.heap p ≡ some (between us ws v)
    → (h' : Heap) × (relink_next (front_or ws null) b' m ≡ ok tt (record m { heap = h' }))
      × Joined h' null (front_or ws null) us
      × Joined h' b' null ws
      × (h' p ≡ some (between us ws v))
relink_next-step us ws p v m b b' apart lu lw found =
    let (h', run, lw', same) = relink_next-ok m b b' ws lw in
    (
      h',
      run,
      frame m.heap h' null (front_or ws null) us lu (λ a i. same a (apart.3 a i)),
      lw',
      same p apart.2 ∙ found,
    )
