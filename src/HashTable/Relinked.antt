-- ===== src/HashTable/Relinked.antt =====
-- Taking a node out of one of the doubly linked chains of the hash table, at any place in the chain.
use freebsd_pkg_plugins.Base.{
  ℕ, ◌≡◌, ◌≢◌, refl, sym, false, none, some, ◌∷◌, [], ◌++◌, ◌∙◌, ◌==◌, ==_refl, arith,
  if◌then◌else◌, ◌||◌,
}
use freebsd_pkg_plugins.Dlist.Memory.{
  Ptr, null, element, Heap, write, Memory, ok, load-ok, free-ok, set_next, Cmd, pure,
}
use freebsd_pkg_plugins.Dlist.{relink_prev, relink_next}
use freebsd_pkg_plugins.Dlist.Append.{not_null}
use freebsd_pkg_plugins.Dlist.Linked.{
  Chain, on_chain, front_or, back_or, Joined, frame, write_other, back_or-append, on_chain-append,
  last_lem, Joined-split, Joined-append, frame-write, write_self, not_has_of_none,
}
use freebsd_pkg_plugins.Dlist.Relinking.{between, relink_prev-ok, relink_next-ok, Disjoint-sym}
use freebsd_pkg_plugins.Dlist.Remove.{element_within, joined, differs}
use freebsd_pkg_plugins.HashTable.Links.{unlink_bucket, unlink_global, link_global}

-- What the two statements between a chain's neighbours and the `free` do, before and behind.
record Relinks (us ws : Chain) (p : Ptr) (v : ℕ) (m : Memory) : Type 0 where
  before : Heap
  behind : Heap
  set : p ≢ null
  found : m.heap p ≡ some (between us ws v)
  run_before :
      relink_prev (back_or us null) (front_or ws null) m ≡ ok tt (record m { heap = before })
  found_before : before p ≡ some (between us ws v)
  run_behind :
      relink_next (front_or ws null) (back_or us null) (record m { heap = before })
      ≡ ok tt (record m { heap = behind })
  found_behind : behind p ≡ some (between us ws v)
  links : Joined (write behind p none) null null (us ++ ws)
  others : (a : Ptr) → on_chain a (us ++ (p, v) ∷ ws) ≡ false → write behind p none a ≡ m.heap a

untouched :
    (us ws : Chain) (p : Ptr) (v : ℕ) (m : Memory) (h₁ h₂ : Heap)
    → ((a : Ptr) → on_chain a us ≡ false → h₁ a ≡ m.heap a)
    → ((a : Ptr) → on_chain a ws ≡ false → h₂ a ≡ h₁ a)
    → (a : Ptr) → on_chain a (us ++ (p, v) ∷ ws) ≡ false
    → write h₂ p none a ≡ m.heap a
untouched us ws p v m h₁ h₂ same₁ same₂ a out =
    let parted : (on_chain a us || on_chain a ((p, v) ∷ ws)) ≡ false =
      sym (on_chain-append a us ((p, v) ∷ ws)) ∙ out in
    let off : a == p ≡ false = ground arith in
    write_other h₂ p a none off ∙ (same₂ a (ground arith) ∙ same₁ a (ground arith))

relinks :
    (us ws : Chain) (p : Ptr) (v : ℕ) (m : Memory)
    → Joined m.heap null null (us ++ (p, v) ∷ ws)
    → Relinks us ws p v m
relinks us ws p v m is =
    let (lu, lw, found, apart) = element_within m.heap us ws p v is in
    let (h₁, run₁, lu₁, same₁) = relink_prev-ok m p (front_or ws null) us lu in
    let lw₁ = frame m.heap h₁ p null ws lw (λ a i. same₁ a (Disjoint-sym us ws apart.3 a i)) in
    let (h₂, run₂, lw₂, same₂) =
      relink_next-ok (record m { heap = h₁ }) p (back_or us null) ws lw₁ in
    let lu₂ = frame h₁ h₂ null (front_or ws null) us lu₁ (λ a i. same₂ a (apart.3 a i)) in
    let found₁ = same₁ p apart.1 ∙ found in
    let found₂ = same₂ p apart.2 ∙ found₁ in
    record {
      before = h₁;
      behind = h₂;
      set = apart.0;
      found = found;
      run_before = run₁;
      found_before = found₁;
      run_behind = run₂;
      found_behind = found₂;
      links = joined us ws p v h₂ apart (lu₂, lw₂, found₂);
      others = untouched us ws p v m h₁ h₂ same₁ same₂;
    }

-- after the node has gone: the chain without it, and all other nodes as they were
abbrev pub Without : Chain → Chain → Ptr → ℕ → Memory → Heap → Type 0
Without us ws p v m h' =
    Joined h' null null (us ++ ws)
    × ((a : Ptr) → on_chain a (us ++ (p, v) ∷ ws) ≡ false → h' a ≡ m.heap a)

back_set :
    (us ws : Chain) (q p : Ptr) (w v : ℕ) (m : Memory)
    → Joined m.heap null null (((q, w) ∷ us) ++ (p, v) ∷ ws)
    → back_or us q == null ≡ false
back_set us ws q p w v m is =
    let (lu, lw) = Joined-split m.heap null null ((q, w) ∷ us) ((p, v) ∷ ws) is in
    not_null (back_or us q) (last_lem m.heap null p q w us lu).3

head_after :
    (us ws : Chain) (p : Ptr) (v : ℕ) (m : Memory)
    → Joined m.heap null null (us ++ (p, v) ∷ ws)
    → (if back_or us null == null then front_or ws null else front_or (us ++ (p, v) ∷ ws) null)
      ≡ front_or (us ++ ws) null
head_after [] ws p v m is = refl
head_after ((q, w) ∷ us) ws p v m is = rw (back_set us ws q p w v m is) refl

tail_after :
    (us ws : Chain) (p : Ptr) (v : ℕ) (m : Memory)
    → Joined m.heap null null (us ++ (p, v) ∷ ws)
    → (if front_or ws null == null then back_or us null else back_or (us ++ (p, v) ∷ ws) null)
      ≡ back_or (us ++ ws) null
tail_after us [] p v m is = sym (back_or-append us [] null)
tail_after us ((q, w) ∷ ws) p v m is =
    let (lu, lw) = Joined-split m.heap null null us ((p, v) ∷ (q, w) ∷ ws) is in
    rw (not_null q lw.3.1)
      (back_or-append us ((p, v) ∷ (q, w) ∷ ws) null ∙ sym (back_or-append us ((q, w) ∷ ws) null))

-- the statement that is taken at the head of the bucket and elsewhere
bucket_before :
    (us ws : Chain) (p : Ptr) (v : ℕ) (m : Memory) (h : Heap)
    → Joined m.heap null null (us ++ (p, v) ∷ ws)
    → relink_prev (back_or us null) (front_or ws null) m ≡ ok tt (record m { heap = h })
    → if◌then◌else◌ {A = Cmd (Unit {0})}
        (p == front_or (us ++ (p, v) ∷ ws) null)
        (pure tt)
        (set_next (back_or us null) (front_or ws null))
        m
      ≡ ok tt (record m { heap = h })
unfolding relink_prev
bucket_before [] ws p v m h is run = rw (==_refl p) run
bucket_before ((q, w) ∷ us) ws p v m h is run =
    let (lu, lw, found, apart) = element_within m.heap ((q, w) ∷ us) ws p v is in
    rw (differs p q w us apart.1) (rw (back_set us ws q p w v m is) at run)

first_after :
    (us ws : Chain) (p : Ptr) (v : ℕ) (m : Memory)
    → Joined m.heap null null (us ++ (p, v) ∷ ws)
    → (if p == front_or (us ++ (p, v) ∷ ws) null
        then front_or ws null
        else front_or (us ++ (p, v) ∷ ws) null)
      ≡ front_or (us ++ ws) null
first_after [] ws p v m is = rw (==_refl p) refl
first_after ((q, w) ∷ us) ws p v m is =
    let (lu, lw, found, apart) = element_within m.heap ((q, w) ∷ us) ws p v is in
    rw (differs p q w us apart.1) refl

pub unlink_global-Without :
    (us ws : Chain) (p : Ptr) (v : ℕ) (m : Memory)
    → Joined m.heap null null (us ++ (p, v) ∷ ws)
    → (h' : Heap) × (unlink_global
          (front_or (us ++ (p, v) ∷ ws) null)
          (back_or (us ++ (p, v) ∷ ws) null)
          p
          m
        ≡ ok (front_or (us ++ ws) null, back_or (us ++ ws) null) (record m { heap = h' }))
      × Without us ws p v m h'
unfolding unlink_global
unlink_global-Without us ws p v m is =
    let r = relinks us ws p v m is in
    (
      write r.behind p none,
      rw
          (
            load-ok m p _ r.set r.found,
            r.run_before,
            load-ok (record m { heap = r.before }) p _ r.set r.found_before,
            r.run_behind,
            free-ok (record m { heap = r.behind }) p _ r.set r.found_behind,
            head_after us ws p v m is,
            tail_after us ws p v m is,
          )
          refl,
      (r.links, r.others),
    )

pub unlink_bucket-Without :
    (us ws : Chain) (p : Ptr) (v : ℕ) (m : Memory)
    → Joined m.heap null null (us ++ (p, v) ∷ ws)
    → (h' : Heap) × (unlink_bucket (front_or (us ++ (p, v) ∷ ws) null) p m
        ≡ ok (front_or (us ++ ws) null) (record m { heap = h' }))
      × Without us ws p v m h'
unfolding unlink_bucket
unlink_bucket-Without us ws p v m is =
    let r = relinks us ws p v m is in
    (
      write r.behind p none,
      rw
          (
            load-ok m p _ r.set r.found,
            bucket_before us ws p v m r.before is r.run_before,
            load-ok (record m { heap = r.before }) p _ r.set r.found_before,
            r.run_behind,
            free-ok (record m { heap = r.behind }) p _ r.set r.found_behind,
            first_after us ws p v m is,
          )
          refl,
      (r.links, r.others),
    )

last_only : (us : Chain) (p : Ptr) → back_or (us ++ (p, 0) ∷ []) null ≡ p
last_only us p = back_or-append us ((p, 0) ∷ []) null

new_head :
    (us : Chain) (p : Ptr) (m : Memory)
    → Joined m.heap null null us
    → (if front_or us null == null then p else front_or us null) ≡ front_or (us ++ (p, 0) ∷ []) null
new_head [] p m is = refl
new_head ((q, w) ∷ us) p m is = rw (not_null q is.1) refl

-- A new node becomes the last of the global chain, joined in both directions.
pub link_global-Joined :
    (us : Chain) (fresh : Ptr) (m : Memory)
    → Joined m.heap null null us
    → m.heap fresh ≡ none
    → fresh ≢ null
    → (h' : Heap) × (link_global fresh (front_or us null) (back_or us null) m
        ≡ ok
            (front_or (us ++ (fresh, 0) ∷ []) null, back_or (us ++ (fresh, 0) ∷ []) null)
            (record m { heap = h' }))
      × Joined h' null null (us ++ (fresh, 0) ∷ [])
unfolding link_global
link_global-Joined us fresh m is free set =
    let out = not_has_of_none m.heap fresh null null us is free in
    let e = element null (back_or us null) 0 in
    let h₀ = write m.heap fresh (some e) in
    let (h₁, run, lu, same) =
      relink_prev-ok (record m { heap = h₀ }) null fresh us
        (frame-write m.heap fresh (some e) null null us is out) in
    (
      h₁,
      rw (run, new_head us fresh m is, last_only us fresh) refl,
      Joined-append h₁ null null us ((fresh, 0) ∷ []) lu
          (same fresh out ∙ write_self m.heap fresh (some e), set, refl, tt)
          (λ a on. ground (arith, out, on)),
    )
