-- ===== src/Text.antt =====
-- Bounded copies: kissc/stpcpy_sp.c, shared/path_join.c and shared/argv.c.
--
-- Memory is a function from addresses to bytes, and a pointer an address; NULL is no address. The
-- texts that are copied do not overlap the buffer: they are lists of bytes without their NUL.
pub mod CopyLoop
pub mod Case
pub mod Caseless
pub mod Copy
mod Examples
use freebsd_pkg_plugins.Base.{
  ℕ, zero, suc, ◌+◌, ◌-◌, Bool, true, false, not, ◌&&◌, ◌||◌, Option, none, some, List, [], ◌∷◌,
  ◌++◌, ◌==◌, ltb, leb, if◌then◌else◌, is_some,
}

abbrev pub Memory : Type 0
Memory = ℕ → ℕ

abbrev pub write : ℕ → ℕ → Memory → Memory
write a v m = λ b. if a == b then v else m b

-- The loop: the address after the last byte written, and the memory.
unfoldable pub copy_loop : (to : ℕ) → List ℕ → (to_limit : ℕ) → Memory → ℕ × Memory
copy_loop to [] to_limit m = if ltb to to_limit then (to + 1, write to 0 m) else (to, m)
copy_loop to (c ∷ from) to_limit m =
    let rest = copy_loop (to + 1) from to_limit (write to c m) in
    if ltb to to_limit then rest else (to, m)

-- the loop where `from` is not NULL
unfoldable pub copied : ℕ → Option (List ℕ) → ℕ → Memory → ℕ × Memory
unfolding copy_loop
copied to none to_limit m = (to, m)
copied to (some text) to_limit m = copy_loop to text to_limit m

-- The result and the memory; `from` is none for NULL. The addresses are those of one buffer, so that
-- `to_limit` is not 0.
unfoldable pub stpcpy_sp :
    (to : Option ℕ) (from : Option (List ℕ)) (to_limit : ℕ) → Memory → Option ℕ × Memory
unfolding copied
stpcpy_sp none from to_limit m = (none, m)
stpcpy_sp (some to) from to_limit m =
    let at_zero = to_limit - 1 in
    if leb at_zero to
    then (none, m)
    else let (w, m₁) = copied to from to_limit m in
      if w == to_limit && not (m₁ at_zero == 0)
      then (none, write (w - 1) 0 m₁)
      else (some (w - 1), m₁)

-- `path_join` puts "/" and `argv_join` a space between the parts: the loop, with that text. The
-- answer is `w` at the end, and the memory.
unfoldable pub join_loop :
    (separator : List ℕ) (buffer buffer_end : ℕ)
    → Option ℕ
    → List (List ℕ)
    → Memory
    → Option ℕ × Memory
unfolding stpcpy_sp
join_loop separator buffer buffer_end w [] m = (w, m)
join_loop separator buffer buffer_end none (arg ∷ args) m = (none, m)
join_loop separator buffer buffer_end (some w) (arg ∷ args) m =
    let (w₁, m₁) =
      if w == buffer then (some w, m) else stpcpy_sp (some w) (some separator) buffer_end m in
    elim w₁ [
      | none ↦ (none, m₁)
      | some v ↦
          let (w₂, m₂) = stpcpy_sp (some v) (some arg) buffer_end m₁ in
          join_loop separator buffer buffer_end w₂ args m₂
    ]

unfoldable pub path_join : (buffer buffer_end : ℕ) → List (List ℕ) → Memory → Bool × Memory
unfolding join_loop
path_join buffer buffer_end args m =
    let (w, m') = join_loop (47 ∷ []) buffer buffer_end (some buffer) args m in (is_some w, m')

unfoldable pub argv_join : List (List ℕ) → (buffer buffer_end : ℕ) → Memory → Bool × Memory
unfolding join_loop
argv_join args buffer buffer_end m =
    let (w, m') = join_loop (32 ∷ []) buffer buffer_end (some buffer) args m in (is_some w, m')
