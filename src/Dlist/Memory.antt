-- ===== src/Dlist/Memory.antt =====
-- The memory under kissc/dlist.c: list elements at addresses, the calls of the data destructor in
-- order, and commands that read and write them.
use freebsd_pkg_plugins.Base.{
  ℕ, ◌≡◌, refl, ◌≢◌, Bool, Option, none, some, List, [], ◌∷◌, ◌++◌, ◌==◌, arith, if◌then◌else◌,
}

abbrev pub Ptr : Type 0
Ptr = ℕ

abbrev pub null : Ptr
null = 0

-- `content` is the field `data`, a `void *`.
pub record Element : Type 0 where
  pub next : Ptr
  pub prev : Ptr
  pub content : ℕ

abbrev pub element : Ptr → Ptr → ℕ → Element
element n p v = record { next = n; prev = p; content = v }

abbrev pub Heap : Type 0
Heap = Ptr → Option Element

unfoldable pub write : Heap → Ptr → Option Element → Heap
write h p c a = if a == p then c else h a

-- The heap, and the arguments of the calls `dtor(data)` made so far, the oldest first.
pub record Memory : Type 0 where
  pub heap : Heap
  pub destroyed : List ℕ

pub data Run (A : Type 0) : Type 0 where
  ok : A → Memory → Run A
  fault : Run A
  out_of_fuel : Run A

abbrev pub Cmd : Type 0 → Type 0
Cmd A = Memory → Run A

abbrev pub pure : {A : Type 0} → A → Cmd A
pure a m = ok a m

module _ {A B : Type 0} where
  abbrev pub and_then : Run A → (A → Cmd B) → Run B
  and_then (ok a m) k = k a m
  and_then fault k = fault
  and_then out_of_fuel k = out_of_fuel

  infixl 5 ◌>>=◌ ◌>>◌
  abbrev pub ◌>>=◌ : Cmd A → (A → Cmd B) → Cmd B
  c >>= k = λ m. and_then (c m) k

  abbrev pub ◌>>◌ : Cmd A → Cmd B → Cmd B
  c >> d = c >>= λ _. d

-- `*p`: a fault at `NULL` and at an address that holds no element.
unfoldable pub load : Ptr → Cmd Element
load p m = if p == null then fault else elim (m.heap p) [ none ↦ fault | some e ↦ ok e m ]

abbrev pub put : Ptr → Option Element → Cmd (Unit {0})
put p c m = ok tt (record m { heap = write m.heap p c })

-- `p->next = q`
unfoldable pub set_next : Ptr → Ptr → Cmd (Unit {0})
set_next p q = do e ← load p; put p (some (record e { next = q }))

-- `p->prev = q`
unfoldable pub set_prev : Ptr → Ptr → Cmd (Unit {0})
set_prev p q = do e ← load p; put p (some (record e { prev = q }))

-- `p->data = v`
unfoldable pub set_content : Ptr → ℕ → Cmd (Unit {0})
set_content p v = do e ← load p; put p (some (record e { content = v }))

unfoldable pub free : Ptr → Cmd (Unit {0})
free p = do _ ← load p; put p none

-- `if (NULL != dtor) dtor(data);`
unfoldable pub call_dtor : Bool → ℕ → Cmd (Unit {0})
call_dtor b v m = if b then ok tt (record m { destroyed = m.destroyed ++ v ∷ [] }) else ok tt m

-- A run that ends without a fault and with enough fuel, in a result that satisfies `P`.
abbrev pub Returns : {A : Type 0} → Run A → (A → Memory → Type 0) → Type 0
Returns (ok a m) P = P a m
Returns fault P = ⊥
Returns out_of_fuel P = ⊥

pub Returns-mono :
    {A : Type 0} (r : Run A) (P Q : A → Memory → Type 0)
    → Returns r P
    → ((a : A) (m : Memory) → P a m → Q a m)
    → Returns r Q
Returns-mono (ok a m) P Q p f = f a m p
Returns-mono fault P Q p f = p
Returns-mono out_of_fuel P Q p f = p

pub Returns-then :
    {A B : Type 0} (r : Run A) (k : A → Cmd B) (P : A → Memory → Type 0) (Q : B → Memory → Type 0)
    → Returns r P
    → ((a : A) (m : Memory) → P a m → Returns (k a m) Q)
    → Returns (and_then r k) Q
Returns-then (ok a m) k P Q p f = f a m p
Returns-then fault k P Q p f = p
Returns-then out_of_fuel k P Q p f = p

pub Returns-ok :
    {A : Type 0} (r : Run A) (P : A → Memory → Type 0)
    → Returns r P
    → (a : A) × (m : Memory) × (r ≡ ok a m) × P a m
Returns-ok (ok a m) P p = (a, m, refl, p)
Returns-ok fault P p = absurd p
Returns-ok out_of_fuel P p = absurd p

pub load-fault : (p : Ptr) (m : Memory) → m.heap p ≡ none → load p m ≡ fault
unfolding load
load-fault p m h = ground arith

module _ (m : Memory) (p : Ptr) (e : Element) (ne : p ≢ null) (found : m.heap p ≡ some e) where
  pub load-ok : load p m ≡ ok e m
  unfolding load
  load-ok = ground arith

  pub set_next-ok :
      (q : Ptr)
      → set_next p q m ≡ ok tt (record m { heap = write m.heap p (some (record e { next = q })) })
  unfolding set_next
  set_next-ok q = rw load-ok

  pub set_prev-ok :
      (q : Ptr)
      → set_prev p q m ≡ ok tt (record m { heap = write m.heap p (some (record e { prev = q })) })
  unfolding set_prev
  set_prev-ok q = rw load-ok

  pub set_content-ok :
      (v : ℕ)
      → set_content p v m
        ≡ ok tt (record m { heap = write m.heap p (some (record e { content = v })) })
  unfolding set_content
  set_content-ok v = rw load-ok

  pub free-ok : free p m ≡ ok tt (record m { heap = write m.heap p none })
  unfolding free
  free-ok = rw load-ok
