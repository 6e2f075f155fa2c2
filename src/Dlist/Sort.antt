-- ===== src/Dlist/Sort.antt =====
-- dlist_sort of kissc/dlist.c: passes that exchange the data of neighbours, each up to where the
-- one before ended. `gt` tells whether `cmp` is positive.
use freebsd_pkg_plugins.Base.{ℕ, zero, suc, Bool, true, false, ◌==◌, if◌then◌else◌}
use freebsd_pkg_plugins.Dlist.Memory.{
  Ptr, null, Cmd, out_of_fuel, pure, ◌>>=◌, ◌>>◌, load, set_content,
}
use freebsd_pkg_plugins.Dlist.{DList}

module _ (gt : ℕ → ℕ → Bool) where
  -- one pass: the flag `swapped`, and where `cur` stands in the end
  unfoldable pub sort_pass : (fuel : ℕ) → Ptr → Ptr → Bool → Cmd (Bool × Ptr)
  sort_pass zero tmp cur swapped = λ _. out_of_fuel
  sort_pass (suc k) tmp cur swapped = do
    e ← load cur
    if e.next == tmp then pure (swapped, cur) else (do
      e' ← load e.next
      if gt e.content e'.content
          then (do
            set_content cur e'.content
            set_content e.next e.content
            sort_pass k tmp e.next true)
          else sort_pass k tmp e.next swapped)

  unfoldable pub sort_rounds : (fuel rounds : ℕ) → Ptr → Ptr → Cmd (Unit {0})
  unfolding sort_pass
  sort_rounds fuel zero head tmp = λ _. out_of_fuel
  sort_rounds fuel (suc k) head tmp = do
    (swapped, cur) ← sort_pass fuel tmp head false
    if swapped then sort_rounds fuel k head cur else pure tt

  unfoldable pub dlist_sort : (fuel : ℕ) → DList → Cmd (Unit {0})
  unfolding sort_rounds
  dlist_sort fuel l = if l.head == null then pure tt else sort_rounds fuel fuel l.head null
