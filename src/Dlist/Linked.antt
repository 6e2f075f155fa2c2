-- ===== src/Dlist/Linked.antt =====
-- When the elements of a heap form a doubly linked chain, and what writes do to one.
use mathlib.Core.Bool.{or_assoc}
use freebsd_pkg_plugins.Base.{
  ℕ, ◌≡◌, ◌≢◌, refl, Bool, true, false, ◌||◌, Option, none, some, List, [], ◌∷◌, ◌++◌, arith, ◌==◌,
  ==_refl, length, ◌∙◌,
}
use freebsd_pkg_plugins.Dlist.Memory.{Ptr, null, Element, element, Heap, write}
use freebsd_pkg_plugins.Dlist.{DList}

-- address and data of each element, in order
abbrev pub Chain : Type 0
Chain = List (Ptr × ℕ)

-- where a chain begins that goes on to `s`, and where it ends if `b` stands before it
abbrev pub front_or : Chain → Ptr → Ptr
front_or [] s = s
front_or ((p, _) ∷ xs) s = p

abbrev pub back_or : Chain → Ptr → Ptr
back_or [] b = b
back_or ((p, _) ∷ xs) b = back_or xs p

abbrev pub on_chain : Ptr → Chain → Bool
on_chain a [] = false
on_chain a ((p, _) ∷ xs) = (a == p) || on_chain a xs

-- The elements of `xs` are distinct, `next` leads through them to `s`, `prev` back to `b`.
abbrev pub Joined : Heap → Ptr → Ptr → Chain → Type 0
Joined h b s [] = Unit
Joined h b s ((p, v) ∷ xs) =
    (h p ≡ some (element (front_or xs s) b v))
    × (p ≢ null)
    × (on_chain p xs ≡ false)
    × Joined h p s xs

pub record IsDList (h : Heap) (l : DList) (xs : Chain) : Type 0 where
  pub head : l.head ≡ front_or xs null
  pub tail : l.tail ≡ back_or xs null
  pub length : l.length ≡ length xs
  pub links : Joined h null null xs

pub on_chain-append :
    (a : Ptr) (xs ys : Chain) → on_chain a (xs ++ ys) ≡ (on_chain a xs || on_chain a ys)
on_chain-append a [] ys = refl
on_chain-append a (x ∷ xs) ys = rw (on_chain-append a xs ys, or_assoc)

pub front_or-append :
    (xs ys : Chain) (s : Ptr) → front_or (xs ++ ys) s ≡ front_or xs (front_or ys s)
front_or-append [] ys s = refl
front_or-append (x ∷ xs) ys s = refl

pub back_or-append : (xs ys : Chain) (b : Ptr) → back_or (xs ++ ys) b ≡ back_or ys (back_or xs b)
back_or-append [] ys b = refl
back_or-append (x ∷ xs) ys b = back_or-append xs ys x.0

-- A chain survives any change that spares its own elements.
pub frame :
    (h g : Heap) (b s : Ptr) (xs : Chain)
    → Joined h b s xs
    → ((a : Ptr) → on_chain a xs ≡ true → g a ≡ h a)
    → Joined g b s xs
frame h g b s [] l same = tt
frame h g b s ((p, v) ∷ xs) l same =
    (ground (arith, same p), l.1, l.2, frame h g p s xs l.3 (λ a i. ground (arith, same a)))

pub frame-write :
    (h : Heap) (a : Ptr) (c : Option Element) (b s : Ptr) (xs : Chain)
    → Joined h b s xs
    → on_chain a xs ≡ false
    → Joined (write h a c) b s xs
unfolding write
frame-write h a c b s xs l out = frame h _ b s xs l (ground arith)

pub not_has_of_none :
    (h : Heap) (a b s : Ptr) (xs : Chain) → Joined h b s xs → h a ≡ none → on_chain a xs ≡ false
not_has_of_none h a b s [] l unused = refl
not_has_of_none h a b s ((p, v) ∷ xs) l unused = ground (arith, not_has_of_none h a p s xs l.3)

abbrev pub Disjoint : Chain → Chain → Type 0
Disjoint xs ys = (a : Ptr) → on_chain a xs ≡ true → on_chain a ys ≡ false

pub Joined-append :
    (h : Heap) (b s : Ptr) (xs ys : Chain)
    → Joined h b (front_or ys s) xs
    → Joined h (back_or xs b) s ys
    → Disjoint xs ys
    → Joined h b s (xs ++ ys)
Joined-append h b s [] ys l r apart = r
Joined-append h b s ((p, v) ∷ xs) ys l r apart = (
  rw (front_or-append xs ys s) l.0,
  l.1,
  rw (on_chain-append p xs ys) (ground (arith, apart p)),
  Joined-append h p s xs ys l.3 r (λ a i. ground (arith, apart a)),
)

pub Joined-split :
    (h : Heap) (b s : Ptr) (xs ys : Chain)
    → Joined h b s (xs ++ ys)
    → Joined h b (front_or ys s) xs × Joined h (back_or xs b) s ys
Joined-split h b s [] ys l = (tt, l)
Joined-split h b s ((p, v) ∷ xs) ys l =
    let (left, right) = Joined-split h p s xs ys l.3 in
    let e = l.2 in
    (
      (rw (front_or-append xs ys s) at l.0, l.1, ground (arith, on_chain-append p xs ys), left),
      right,
    )

pub Disjoint-split :
    (h : Heap) (b s : Ptr) (xs ys : Chain) → Joined h b s (xs ++ ys) → Disjoint xs ys
Disjoint-split h b s [] ys l a i = ground arith
Disjoint-split h b s ((p, v) ∷ xs) ys l a i =
    ground (arith, l.2, on_chain-append p xs ys, Disjoint-split h p s xs ys l.3 a)

pub on_chain-back_or : (p : Ptr) (v : ℕ) (xs : Chain) → on_chain (back_or xs p) ((p, v) ∷ xs) ≡ true
on_chain-back_or p v [] = ground arith
on_chain-back_or p v ((q, w) ∷ xs) = ground (arith, on_chain-back_or q w xs)

pub write_other : (h : Heap) (a p : Ptr) (c : Option Element) → p == a ≡ false → write h a c p ≡ h p
unfolding write
write_other h a p c ne = rw ne

pub write_self : (h : Heap) (a : Ptr) (c : Option Element) → write h a c a ≡ c
unfolding write
write_self h a c = rw (==_refl a)

pub ne_of_has :
    (a p : Ptr) (xs : Chain) → on_chain a xs ≡ true → on_chain p xs ≡ false → p == a ≡ false
ne_of_has a p [] i o = cc
ne_of_has a p ((q, v) ∷ xs) i o = ground (arith, ne_of_has a p xs)

-- Redirecting the last `next` of a chain lets it go on to another place.
pub Joined-set_last :
    (h : Heap) (b s s' : Ptr) (p : Ptr) (v : ℕ) (xs : Chain) (e : Element)
    → Joined h b s ((p, v) ∷ xs)
    → h (back_or xs p) ≡ some e
    → Joined (write h (back_or xs p) (some (record e { next = s' }))) b s' ((p, v) ∷ xs)
unfolding write
Joined-set_last h b s s' p v [] e l found = (ground arith, l.1, l.2, tt)
Joined-set_last h b s s' p v ((q, w) ∷ xs) e l found = (
  write_other h _ p _ (ne_of_has _ p ((q, w) ∷ xs) (on_chain-back_or q w xs) l.2) ∙ l.0,
  l.1,
  l.2,
  Joined-set_last h p s s' q w xs e l.3 found,
)

-- Redirecting the first `prev` of a chain lets it stand behind another place.
pub Joined-set_first :
    (h : Heap) (b b' s : Ptr) (p : Ptr) (v : ℕ) (xs : Chain)
    → Joined h b s ((p, v) ∷ xs)
    → Joined (write h p (some (element (front_or xs s) b' v))) b' s ((p, v) ∷ xs)
unfolding write
Joined-set_first h b b' s p v xs l = (ground arith, l.1, l.2, frame-write h p _ p s xs l.3 l.2)

-- the last element of a chain
pub last_lem :
    (h : Heap) (b s : Ptr) (p : Ptr) (v : ℕ) (xs : Chain)
    → Joined h b s ((p, v) ∷ xs)
    → (e : Element) × (h (back_or xs p) ≡ some e) × (e.next ≡ s) × (back_or xs p ≢ null)
last_lem h b s p v [] l = (element s b v, l.0, refl, l.1)
last_lem h b s p v ((q, w) ∷ xs) l = last_lem h p s q w xs l.3
