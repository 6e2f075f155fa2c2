-- ===== src/Zint/Purge.antt =====
-- The purge of plugins/zfs_integration/plugin_zfs_integration.c, the choice of a backup method, and the
-- names of the hooks.
--
-- A list's data is the address of a snapshot, which `snap` reads. The backup method is a parameter:
-- what `list` leaves (its answer and the lists, one for each file system), and what `destroy` answers.
use freebsd_pkg_plugins.Base.{
  same_text, ℕ, zero, suc, ◌+◌, Bool, true, false, not, ◌&&◌, Option, none, some, List, [], ◌∷◌,
  if◌then◌else◌, ◌++◌, get_elem?,
}
use freebsd_pkg_plugins.Dlist.{DList, dlist_clear}
use freebsd_pkg_plugins.Dlist.Memory.{Ptr, Cmd, out_of_fuel, pure, ◌>>=◌, ◌>>◌}
use freebsd_pkg_plugins.Dlist.Sort.{dlist_sort}
use freebsd_pkg_plugins.Dlist.Iterator.{
  iterator_reject, dlist_iterator_last, dlist_iterator_is_valid, dlist_iterator_current,
  dlist_iterator_previous,
}
use freebsd_pkg_plugins.Zint.Retention.{
  Snapshot, RetentionType, FilterCallbackData, is_positive, retention_filter_callback,
  retention_filter_callback_data_create, retention_filter_callback_data_reset,
  snapshot_compare_by_creation_date_desc, ℤ, pos, negsuc,
}

-- `snapshot_compare_by_creation_date_desc` is positive
unfoldable pub newer : (snap : ℕ → Snapshot) → ℕ → ℕ → Bool
newer snap a b = is_positive (snapshot_compare_by_creation_date_desc (snap a) (snap b))

module _ (snap : ℕ → Snapshot) (destroy : ℕ → Bool) where
  -- the loop over what is left, from the last: the answer, and the snapshots destroyed in order
  unfoldable pub destroy_loop : (fuel : ℕ) → Bool → Ptr → Cmd (Bool × List ℕ)
  destroy_loop zero ok state = λ _. out_of_fuel
  destroy_loop (suc k) ok state =
      if ok && dlist_iterator_is_valid state
      then (do
        v ← dlist_iterator_current state
        state' ← dlist_iterator_previous state
        (ok', vs) ← destroy_loop k (ok && destroy v) state'
        pure (ok', v ∷ vs))
      else pure (ok, [])

  -- one round of `purge_snapshots`, on the snapshots of a file system
  unfoldable pub purge_list :
      (fuel : ℕ) → FilterCallbackData → DList → Cmd (Bool × List ℕ × DList × FilterCallbackData)
  unfolding newer destroy_loop
  purge_list fuel fcd l2 = do
    dlist_sort (newer snap) fuel l2
    (l2', fcd') ←
        iterator_reject (λ s v. retention_filter_callback (snap v) s) fuel l2
          (retention_filter_callback_data_reset fcd)
    (ok, vs) ← destroy_loop fuel true (dlist_iterator_last l2')
    pure (ok, vs, l2', fcd')

  -- The loop over the lists; `ok` is what the last round leaves.
  unfoldable pub purge_lists :
      (fuel : ℕ) → FilterCallbackData → Bool → List DList → Cmd (Bool × List ℕ × List DList)
  unfolding purge_list
  purge_lists fuel fcd ok [] = pure (ok, [], [])
  purge_lists fuel fcd ok (l2 ∷ ls) = do
    (ok', vs, l2', fcd') ← purge_list fuel fcd l2
    (ok'', ws, ls') ← purge_lists fuel fcd' ok' ls
    pure (ok'', vs ++ ws, l2' ∷ ls')

  -- `dlist_clear(&l)`, whose destructor clears each list
  unfoldable pub clear_lists : (fuel : ℕ) → List DList → Cmd (Unit {0})
  clear_lists fuel [] = pure tt
  clear_lists fuel (l2 ∷ ls) = do _ ← dlist_clear fuel l2; clear_lists fuel ls

  -- `created` tells whether the data of the callback could be allocated.
  unfoldable pub purge_snapshots :
      (fuel : ℕ) (created : Bool) (listed : Bool × List DList)
      → RetentionType
      → ℕ
      → Cmd (Bool × List ℕ)
  unfolding purge_lists clear_lists
  purge_snapshots fuel created listed retention limit =
      if not created then pure (false, []) else (do
        (ok, vs, ls) ←
            if listed.0
            then purge_lists fuel (retention_filter_callback_data_create retention limit) false
                listed.1
            else pure (false, [], listed.1)
        clear_lists fuel ls
        pure (ok, vs))

-- `bm_code_t`
pub data BmCode : Type 0 where
  bm_ok : BmCode
  bm_skip : BmCode
  bm_error : BmCode

-- The methods by what their `suitable` answers, `none` where it is NULL. The answer is whether the
-- status is EPKG_OK, with the index of the method, `none` where `method` stays as it was.
unfoldable pub find_backup_method : ℕ → List (Option BmCode) → Bool × Option ℕ
find_backup_method i [] = (true, none)
find_backup_method i (none ∷ ms) = find_backup_method (i + 1) ms
find_backup_method i (some bm_ok ∷ ms) = (true, some i)
find_backup_method i (some bm_skip ∷ ms) = find_backup_method (i + 1) ms
find_backup_method i (some bm_error ∷ ms) = (false, none)

-- The table `hooks` is an argument: its indices are numbers of pkg. `none` is NULL.
unfoldable pub name_loop : ℕ → List (Option (List ℕ)) → List ℕ → ℤ
name_loop i [] name = negsuc 0
name_loop i (none ∷ hooks) name = name_loop (i + 1) hooks name
name_loop i (some h ∷ hooks) name =
    let rest = name_loop (i + 1) hooks name in if same_text h name then pos i else rest

unfoldable pub name_to_hook : List (Option (List ℕ)) → Option (List ℕ) → ℤ
unfolding name_loop
name_to_hook hooks none = negsuc 0
name_to_hook hooks (some name) = name_loop 0 hooks name

-- The inner option is NULL; the outer one is none where the table is read out of its bounds.
unfoldable pub hook_to_name : List (Option (List ℕ)) → ℤ → Option (Option (List ℕ))
hook_to_name hooks (pos i) = get_elem? hooks i
hook_to_name hooks (negsuc i) = none
