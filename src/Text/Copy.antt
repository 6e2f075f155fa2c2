-- ===== src/Text/Copy.antt =====
-- What `stpcpy_sp` writes, and when it refuses.
use freebsd_pkg_plugins.Base.{
  ℕ, ◌+◌, ◌-◌, ◌<◌, ◌≤◌, ◌≡◌, refl, sym, ap, ◌∙◌, Bool, Bool-cases, true, false, not, ◌&&◌, Option,
  none, some, List, [], ◌∷◌, ◌++◌, ◌==◌, ==→eq, ltb, leb, if◌then◌else◌, arith, length, subst, inl,
  inr, subst,
}
use freebsd_pkg_plugins.Text.{Memory, write, copy_loop, copied, stpcpy_sp}
use freebsd_pkg_plugins.Text.CopyLoop.{
  Holds, SameOutside, IsText, write-other, closer, past, copy_loop-fits, copy_loop-overflows,
}

Holds-last : (m : Memory) (a : ℕ) (s : List ℕ) → Holds m a (s ++ 0 ∷ []) → m (a + length s) ≡ 0
Holds-last m a [] held = ap m (omega arith) ∙ held.0
Holds-last m a (c ∷ s) held = ap m (omega arith) ∙ Holds-last m (a + 1) s held.1

-- the text stands in the buffer, if there is an answer
abbrev pub Written : ℕ → List ℕ → Memory → Option ℕ → Memory → Type 0
Written to s m none m' = Unit
Written to s m (some w) m' = Holds m' to (s ++ 0 ∷ []) × SameOutside to (to + length s + 1) m m'

-- the last test of `stpcpy_sp`
abbrev overflowed : ℕ → ℕ × Memory → Bool
overflowed limit r = r.0 == limit && not (r.1 (limit - 1) == 0)

not_cut :
    (to limit n : ℕ) (r : ℕ × Memory)
    → r.0 ≡ to + n + 1
    → r.1 (to + n) ≡ 0
    → overflowed limit r ≡ false
not_cut to limit n r w last = elim (Bool-cases (r.0 == limit)) [
  | inr e ↦ rw e refl
  | inl e ↦
      let full = ==→eq r.0 limit e in
      let zero_there : r.1 (limit - 1) ≡ 0 = ap r.1 (omega (arith, w, full)) ∙ last in ground arith
]

module _ (to limit : ℕ) (s : List ℕ) (m : Memory) where
  abbrev run : Option ℕ × Memory
  run = stpcpy_sp (some to) (some s) limit m

  abbrev loop : ℕ × Memory
  loop = copy_loop to s limit m

  stpcpy_sp-refused : leb (limit - 1) to ≡ true → run ≡ (none, m)
  unfolding stpcpy_sp copied
  stpcpy_sp-refused e = rw (stpcpy_sp, e) refl

  stpcpy_sp-done :
      leb (limit - 1) to ≡ false → overflowed limit loop ≡ false → run ≡ (some (loop.0 - 1), loop.1)
  unfolding stpcpy_sp copied
  stpcpy_sp-done e o = rw (stpcpy_sp, e, o) refl

  stpcpy_sp-cut :
      leb (limit - 1) to ≡ false
      → overflowed limit loop ≡ true
      → run ≡ (none, write (loop.0 - 1) 0 loop.1)
  unfolding stpcpy_sp copied
  stpcpy_sp-cut e o = rw (stpcpy_sp, e, o) refl

  -- what a call leaves
  abbrev pub IsBoundedCopy : Option ℕ × Memory → Type 0
  IsBoundedCopy r =
      (r.0
        ≡ (if ltb (to + 1) limit && ltb (to + length s) limit then some (to + length s) else none))
      × Written to s m r.0 r.1
      × SameOutside to limit m r.1

  case_refused : leb (limit - 1) to ≡ true → IsBoundedCopy run
  case_refused e =
      let off : ltb (to + 1) limit ≡ false = ground arith in
      subst IsBoundedCopy (sym (stpcpy_sp-refused e)) (rw off refl, tt, λ a h. refl)

  case_fits : leb (limit - 1) to ≡ false → to + length s < limit → IsBoundedCopy run
  case_fits e fits =
      let (w, held, same) = copy_loop-fits to limit s m fits in
      let last = Holds-last loop.1 to s held in
      let fine : overflowed limit loop ≡ false = not_cut to limit (length s) loop w last in
      let on : ltb (to + 1) limit ≡ true = ground arith in
      let short : ltb (to + length s) limit ≡ true = ground arith in
      subst IsBoundedCopy (sym (stpcpy_sp-done e fine)) (
        rw (on, short) (ap some (omega (arith, w))),
        (held, same),
        λ a h. same a (closer a to limit (length s) fits h),
      )

  case_overflows : leb (limit - 1) to ≡ false → limit ≤ to + length s → IsText s → IsBoundedCopy run
  case_overflows e over text =
      let (w, last, same) = copy_loop-overflows to limit s m (ground arith) over text in
      let cut : overflowed limit loop ≡ true = ground arith in
      let long : ltb (to + length s) limit ≡ false = ground arith in
      let on : ltb (to + 1) limit ≡ true = ground arith in
      subst IsBoundedCopy (sym (stpcpy_sp-cut e cut)) (
        rw (on, long) refl,
        tt,
        λ a h.
            write-other (loop.0 - 1) 0 loop.1 a (past a to limit loop.0 (ground arith) w h)
            ∙ same a h,
      )

-- For a text that is not NULL, `stpcpy_sp` answers the address of the NUL exactly where the buffer has
-- two bytes at least and space for the text with its NUL, and NULL else: one byte is refused even for
-- the empty text, which it would hold. With an answer it has written the text and its NUL and nothing
-- else; without one nothing before the buffer or from its limit on.
pub stpcpy_sp-IsBoundedCopy :
    (to limit : ℕ) (s : List ℕ) (m : Memory)
    → IsText s
    → IsBoundedCopy to limit s m (stpcpy_sp (some to) (some s) limit m)
stpcpy_sp-IsBoundedCopy to limit s m text = elim (Bool-cases (leb (limit - 1) to)) [
  | inl e ↦ case_refused to limit s m e
  | inr e ↦ elim (Bool-cases (ltb (to + length s) limit)) [
    | inl fits ↦ case_fits to limit s m e (ground arith)
    | inr over ↦ case_overflows to limit s m e (ground arith) text
  ]
]
