-- ===== src/Tests/Swaps.antt =====
-- A swap of a volume's data that is killed between its two renames, and the recovery after it
-- (cmd/borgmatic-manager/restore_swap.go).
use borgmatic_manager.Prelude.{
  arith, eq_iff, String, ◌≡◌, refl, Bool, true, false, none, some, List, [], ◌∷◌, ◌==◌,
}
use borgmatic_manager.GoMap.{get, put, remove}
use borgmatic_manager.GoStrings.{plus}
use borgmatic_manager.Restore.Disk.{
  Dir, Disk, Fate, made, killed, fails, einval, enotsup, eio, returned, crashed, perform, set_mark,
  exchange, rename_at, rename, mkdir_temp,
}
use borgmatic_manager.Restore.Disk.Triples.{Holds}
use borgmatic_manager.Restore.Swap.{swap_into_place, swap_by_rename_pair, mark_as_ours, remove_mark}
use borgmatic_manager.Restore.Swap.Slots.{is_ours, content}
use borgmatic_manager.Restore.Swap.States.{Setup, Before, Gap, Safe, Outcome}
use borgmatic_manager.Restore.Swap.Safe.{swap_keeps_both}
use borgmatic_manager.Restore.Recovery.{
  old_prefix, made_by_mkdir_temp, all_digits, cut_prefix, fine, recover_interrupted_swap,
}
use borgmatic_manager.Restore.Recovery.Kept.{IsKept}
use borgmatic_manager.Restore.Recovery.Kept.Whole.{recovery_keeps_data}
use borgmatic_manager.Restore.Recovery.Repairs.{killed_swap_repaired}

abbrev dir : List String → Bool → Dir
dir entries ours = record { entries = entries; ours = ours }

abbrev at_start : Disk
at_start = ("_data", dir ("old" ∷ []) false) ∷ ("_data.r1", dir ("new" ∷ []) true) ∷ []

abbrev reserved : String
reserved = "_data.borgmatic-manager-replaced-7"

abbrev swap : Setup
swap = record {
  staging = "_data.r1";
  target = "_data";
  temp = reserved;
  start = at_start;
  old = "old" ∷ [];
  new = "new" ∷ [];
  n = record { ts = refl; st = refl; td = refl; dt = refl; sd = refl; ds = refl };
}

-- The kernel has no exchange, and the process is killed after the first rename.
abbrev no_exchange : List Fate
no_exchange = made ∷ fails einval ∷ made ∷ made ∷ made ∷ made ∷ made ∷ killed ∷ []

abbrev in_gap : Disk
in_gap = ("_data.r1", dir ("new" ∷ []) true) ∷ (reserved, dir ("old" ∷ []) true) ∷ []

killed_in_gap : swap_into_place "_data.r1" "_data" reserved no_exchange at_start ≡ crashed in_gap
unfolding swap_into_place swap_by_rename_pair mark_as_ours remove_mark perform set_mark exchange
    rename_at rename mkdir_temp get put remove
killed_in_gap = refl

at_start-Before : Before swap at_start
unfolding get
at_start-Before = (
  none,
  record {
    at_target = refl;
    at_staging = refl;
    at_temp = refl;
    framed = record { others = λ k a b c. refl; is_map = (refl, (refl, tt)) };
  },
)

-- The same, and the mark on the volume cannot be set.
abbrev no_mark : List Fate
no_mark = made ∷ fails einval ∷ made ∷ made ∷ made ∷ fails enotsup ∷ made ∷ killed ∷ []

swap_keeps_both_example :
    Holds (Outcome swap) (Safe swap) (swap_into_place "_data.r1" "_data" reserved no_mark at_start)
swap_keeps_both_example = swap_keeps_both swap no_mark at_start at_start-Before

in_gap-Gap : Gap swap in_gap
unfolding get
in_gap-Gap = record {
  at_target = refl;
  at_staging = refl;
  at_temp = refl;
  framed = record { others = λ k a b c. rw (a, b, c) refl; is_map = (refl, (refl, tt)) };
}

in_gap-marked : is_ours (get in_gap reserved) ≡ true
unfolding get
in_gap-marked = refl

recovery_keeps_data_example :
    Holds
      (λ r. IsKept in_gap "_data")
      (IsKept in_gap "_data")
      (recover_interrupted_swap "_data" (made ∷ made ∷ fails eio ∷ []) in_gap)
recovery_keeps_data_example = recovery_keeps_data "_data" (made ∷ made ∷ fails eio ∷ []) in_gap

reserved_made : made_by_mkdir_temp reserved (plus "_data" old_prefix) ≡ true
unfolding made_by_mkdir_temp cut_prefix all_digits
reserved_made = refl

staging_unmade : made_by_mkdir_temp "_data.r1" (plus "_data" old_prefix) ≡ false
unfolding made_by_mkdir_temp cut_prefix all_digits
staging_unmade = refl

target_unmade : made_by_mkdir_temp "_data" (plus "_data" old_prefix) ≡ false
unfolding made_by_mkdir_temp cut_prefix
target_unmade = refl

none_beside :
    (k : String)
    → made_by_mkdir_temp k (plus "_data" old_prefix) ≡ true
    → (reserved == k) ≡ false
    → get at_start k ≡ none
unfolding get
none_beside k q other =
    ground (arith, eq_iff "_data" k, eq_iff "_data.r1" k, staging_unmade, target_unmade)

killed_swap_repaired_example :
    (next : Disk) × (recover_interrupted_swap "_data" [] in_gap ≡ returned fine [] next)
    × (content (get next "_data") ≡ some ("old" ∷ []))
killed_swap_repaired_example =
    killed_swap_repaired swap in_gap in_gap-Gap in_gap-marked reserved_made staging_unmade
      none_beside
