-- ===== src/Text/Examples.antt =====
-- `stpcpy_sp` at a buffer of four bytes.
use freebsd_pkg_plugins.Base.{some, [], ◌∷◌, arith}
use freebsd_pkg_plugins.Text.{Memory, stpcpy_sp}
use freebsd_pkg_plugins.Text.Copy.{IsBoundedCopy, stpcpy_sp-IsBoundedCopy}

abbrev blank : Memory
blank a = 1

stpcpy_sp_example :
    IsBoundedCopy 100 104
      (65 ∷ 66 ∷ 67 ∷ [])
      blank
      (stpcpy_sp (some 100) (some (65 ∷ 66 ∷ 67 ∷ [])) 104 blank)
stpcpy_sp_example =
    stpcpy_sp-IsBoundedCopy 100 104 (65 ∷ 66 ∷ 67 ∷ []) blank
      (omega arith, (omega arith, (omega arith, tt)))
