-- ===== src/Text/CopyLoop.antt =====
-- The loop of `stpcpy_sp`: what it writes where the text fits, and where it does not.
use freebsd_pkg_plugins.Base.{
  ℕ, suc, ◌+◌, ◌-◌, ◌<◌, ◌≤◌, ◌≡◌, refl, sym, ◌∙◌, Bool-cases, true, false, List, [], ◌∷◌, ◌++◌,
  ◌==◌, ==→eq, ltb, arith, length, subst, inl, inr, ◌⊎◌, subst,
}
use freebsd_pkg_plugins.Text.{Memory, write, copy_loop}

-- the memory holds these bytes from this address on
abbrev pub Holds : Memory → ℕ → List ℕ → Type 0
Holds m a [] = Unit
Holds m a (c ∷ s) = (m a ≡ c) × Holds m (a + 1) s

-- the memory is the same below the first address and from the second on
abbrev pub SameOutside : ℕ → ℕ → Memory → Memory → Type 0
SameOutside low high m m' = (a : ℕ) → (a < low) ⊎ (high ≤ a) → m' a ≡ m a

-- a text of C: no byte is NUL
abbrev pub IsText : List ℕ → Type 0
IsText [] = Unit
IsText (c ∷ s) = (0 < c) × IsText s

write-same : (a v : ℕ) (m : Memory) → write a v m a ≡ v
write-same a v m = ground arith

pub write-other : (a v : ℕ) (m : Memory) (b : ℕ) → (a == b ≡ false) → write a v m b ≡ m b
write-other a v m b h = rw h refl

outside : (a to : ℕ) → (a < to) ⊎ (to + 0 + 1 ≤ a) → to == a ≡ false
outside a to (inl h) = ground arith
outside a to (inr h) = ground arith

wider : (a to n : ℕ) → (a < to) ⊎ (to + suc n + 1 ≤ a) → (a < to + 1) ⊎ (to + 1 + n + 1 ≤ a)
wider a to n (inl h) = inl (omega arith)
wider a to n (inr h) = inr (omega arith)

beside : (a to n : ℕ) → (a < to) ⊎ (to + suc n + 1 ≤ a) → to == a ≡ false
beside a to n (inl h) = ground arith
beside a to n (inr h) = ground arith

wide : (a to limit : ℕ) → (a < to) ⊎ (limit ≤ a) → (a < to + 1) ⊎ (limit ≤ a)
wide a to limit (inl h) = inl (omega arith)
wide a to limit (inr h) = inr h

aside : (a to limit : ℕ) → to < limit → (a < to) ⊎ (limit ≤ a) → to == a ≡ false
aside a to limit room (inl h) = ground arith
aside a to limit room (inr h) = ground arith

last_byte : (to limit c : ℕ) (m : Memory) → to + 1 ≡ limit → 0 < c → 0 < write to c m (limit - 1)
last_byte to limit c m full text = ground arith

pub closer :
    (a to limit n : ℕ) → to + n < limit → (a < to) ⊎ (limit ≤ a) → (a < to) ⊎ (to + n + 1 ≤ a)
closer a to limit n fits (inl h) = inl h
closer a to limit n fits (inr h) = inr (omega arith)

pub past :
    (a to limit w : ℕ)
    → to + 1 < limit + 1
    → w ≡ limit
    → (a < to) ⊎ (limit ≤ a)
    → w - 1 == a ≡ false
past a to limit w room full (inl h) = ground arith
past a to limit w room full (inr h) = ground arith

copy_loop-full :
    (to limit : ℕ) (s : List ℕ) (m : Memory)
    → ltb to limit ≡ false
    → copy_loop to s limit m ≡ (to, m)
unfolding copy_loop
copy_loop-full to limit [] m stop = rw stop refl
copy_loop-full to limit (c ∷ s) m stop = rw stop refl

-- what the loop leaves where the text fits
abbrev pub Copied : ℕ → List ℕ → Memory → ℕ × Memory → Type 0
Copied to s m r =
    (r.0 ≡ to + length s + 1)
    × Holds r.1 to (s ++ 0 ∷ [])
    × SameOutside to (to + length s + 1) m r.1

copy_loop-step :
    (to limit c : ℕ) (s : List ℕ) (m : Memory)
    → ltb to limit ≡ true
    → copy_loop to (c ∷ s) limit m ≡ copy_loop (to + 1) s limit (write to c m)
unfolding copy_loop
copy_loop-step to limit c s m go = rw (copy_loop, go) refl

pub copy_loop-fits :
    (to limit : ℕ) (s : List ℕ) (m : Memory)
    → to + length s < limit
    → Copied to s m (copy_loop to s limit m)
unfolding copy_loop
copy_loop-fits to limit [] m fits =
    let go : ltb to limit ≡ true = ground arith in
    rw go (omega arith, (write-same to 0 m, tt), λ a h. write-other to 0 m a (outside a to h))
copy_loop-fits to limit (c ∷ s) m fits =
    let go : ltb to limit ≡ true = ground arith in
    let (w, held, same) = copy_loop-fits (to + 1) limit s (write to c m) (omega arith) in
    subst (Copied to (c ∷ s) m) (sym (copy_loop-step to limit c s m go)) (
      w ∙ omega arith,
      (same to (inl (omega arith)) ∙ write-same to c m, held),
      λ a h. same a (wider a to (length s) h) ∙ write-other to c m a (beside a to (length s) h),
    )

pub copy_loop-overflows :
    (to limit : ℕ) (s : List ℕ) (m : Memory)
    → to < limit
    → limit ≤ to + length s
    → IsText s
    → ((copy_loop to s limit m).0 ≡ limit)
      × (0 < (copy_loop to s limit m).1 (limit - 1))
      × SameOutside to limit m (copy_loop to s limit m).1
unfolding copy_loop
copy_loop-overflows to limit [] m room over text = absurd (omega arith)
copy_loop-overflows to limit (c ∷ s) m room over text =
    let go : ltb to limit ≡ true = ground arith in
    elim (Bool-cases (to + 1 == limit)) [
      | inl e ↦
          let full = ==→eq (to + 1) limit e in
          let stop : ltb (to + 1) limit ≡ false = ground arith in
          rw (go, copy_loop-full (to + 1) limit s (write to c m) stop)
            (
              full,
              last_byte to limit c m full text.0,
              λ a h. write-other to c m a (aside a to limit room h),
            )
      | inr e ↦
          let (w, last, same) =
            copy_loop-overflows (to + 1) limit s (write to c m) (ground arith) (omega arith)
              text.1 in
          rw go (
            w,
            last,
            λ a h. same a (wide a to limit h) ∙ write-other to c m a (aside a to limit room h),
          )
    ]
