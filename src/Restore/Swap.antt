-- ===== src/Restore/Swap.antt =====
-- `swapIntoPlace` and `swapByRenamePair` of cmd/borgmatic-manager/restore_swap.go. `temp` is
-- the name that `os.MkdirTemp` comes to. On a file system without extended attributes the calls that
-- set a mark fail; they can also fail one by one.
pub mod Slots
pub mod States
pub mod Calls
pub mod Marks
pub mod Safe
use borgmatic_manager.Prelude.{
  String, Bool, true, false, Option, none, some, List, if◌then◌else◌, ◌≡◌, ◌⊎◌, inl, inr,
}
use borgmatic_manager.Restore.Disk.{
  Disk, Errno, enosys, einval, eopnotsupp, enotsup, M, pure, ◌>>=◌, perform, set_mark, exchange,
  rename_at, rename, mkdir_temp, remove_dir,
}

-- How a swap ends: the name where the displaced data is, a failure with the volume as it was, or a
-- volume without its directory, whose data and restored copy both keep their names.
pub data Swapped : Type 0 where
  displaced_to : String → Swapped
  untouched stranded : Swapped

abbrev pub is_unsupported : Errno → Bool
is_unsupported enosys = true
is_unsupported einval = true
is_unsupported eopnotsupp = true
is_unsupported enotsup = true
is_unsupported _ = false

abbrev pub was_set : Option Errno → Bool
was_set none = true
was_set (some e) = false

module _ (staging target temp : String) where
  -- `markAsOurs`, and what it returns.
  unfoldable pub mark_as_ours : String → M Bool
  mark_as_ours name = do e ← perform (set_mark name true); pure (was_set e)

  unfoldable pub remove_mark : String → M (Option Errno)
  remove_mark name = perform (set_mark name false)

  abbrev pub after_back : Option Errno → M Swapped
  after_back (some e) = pure stranded
  after_back none = do _ ← remove_mark target; pure untouched

  abbrev pub after_placing : Option Errno → M Swapped
  after_placing none = pure (displaced_to temp)
  after_placing (some e) = do back ← perform (rename temp target); after_back back

  abbrev pub after_moving : Option Errno → M Swapped
  after_moving none = do placed ← perform (rename staging target); after_placing placed
  after_moving (some e) = do _ ← remove_mark target; _ ← perform (remove_dir temp); pure untouched

  abbrev pub after_reserving : Option Errno → M Swapped
  after_reserving (some e) = pure untouched
  after_reserving none = do
    _ ← mark_as_ours temp
    _ ← mark_as_ours target
    moved ← perform (rename_at target temp)
    after_moving moved

  unfoldable pub swap_by_rename_pair : M Swapped
  swap_by_rename_pair = do made ← perform (mkdir_temp temp); after_reserving made

  abbrev pub unmark_if : Bool → M (Option Errno)
  unmark_if true = remove_mark target
  unmark_if false = pure none

  abbrev pub after_exchange : Bool → Option Errno → M Swapped
  after_exchange claimed none = pure (displaced_to staging)
  after_exchange claimed (some e) = do
    _ ← unmark_if claimed
    if is_unsupported e then swap_by_rename_pair else pure untouched

  unfoldable pub swap_into_place : M Swapped
  swap_into_place = do
    claimed ← mark_as_ours target
    exchanged ← perform (exchange staging target)
    after_exchange claimed exchanged
