-- ===== src/Restore/Swap/Safe.antt =====
-- A swap never loses a copy of the volume's data, whatever fails and whenever it is killed.
use borgmatic_manager.Prelude.{Bool, true, false, Option, none, some, List, [], if◌then◌else◌, inr}
use borgmatic_manager.Restore.Disk.{
  eio, Disk, Errno, pure, ◌>>=◌, perform, exchange, rename_at, rename, mkdir_temp, remove_dir, Fate,
}
use borgmatic_manager.Restore.Disk.Triples.{
  Holds, Triple, Triple-bind, Triple-perform, Triple-pure, Triple-weaken,
}
use borgmatic_manager.Restore.Swap.{
  displaced_to, untouched, stranded, is_unsupported, mark_as_ours, remove_mark, after_back,
  after_placing, after_moving, after_reserving, swap_by_rename_pair, unmark_if, after_exchange,
  swap_into_place,
}
use borgmatic_manager.Restore.Swap.States.{
  Setup, Before, Traded, Paired, Gap, Safe, Outcome, Reserved,
}
use borgmatic_manager.Restore.Swap.Calls.{
  Before-Safe, Reserved-Safe, unmark_target, exchange-Settles, move_aside-Settles, place-Settles,
  back-Settles, reserve-Settles, unreserve-Settles,
}
use borgmatic_manager.Restore.Swap.Marks.{Claimed, claim_target, mark_temp, mark_target}

module _ (u : Setup) where
  open u use {staging, target, temp, start, old, new, n}

  back_triple :
      Triple
        (Gap u)
        (do back ← perform (rename temp target); after_back staging target temp back)
        (Outcome u)
        (Safe u)
  back_triple =
      Triple-bind back_at (perform (rename temp target)) (after_back staging target temp)
        (Triple-perform back_at (rename temp target) Gap-Safe (back-Settles u) (λ e disk v. v))
        ended
    where
      back_at : Option Errno → Disk → Type 0
      back_at none = (Before u)
      back_at (some e) = (Gap u)

      Gap-Safe : (disk : Disk) → (Gap u) disk → (Safe u) disk
      Gap-Safe disk v = inr (inr (inr v))

      ended :
          (e : Option Errno)
          → Triple (back_at e) (after_back staging target temp e) (Outcome u) (Safe u)
      ended (some e) = Triple-pure stranded (λ disk v. v)
      ended none =
          Triple-bind (λ e. (Before u)) (remove_mark staging target temp target) _ (unmark_target u)
            (λ e. Triple-pure untouched (λ disk v. v))

  Gap-Safe : (disk : Disk) → (Gap u) disk → (Safe u) disk
  Gap-Safe disk v = inr (inr (inr v))

  placing_triple :
      Triple
        (Gap u)
        (do placed ← perform (rename staging target); after_placing staging target temp placed)
        (Outcome u)
        (Safe u)
  placing_triple =
      Triple-bind placed_at (perform (rename staging target)) (after_placing staging target temp)
        (Triple-perform placed_at (rename staging target) Gap-Safe (place-Settles u)
          (λ e disk v. v))
        ended
    where
      placed_at : Option Errno → Disk → Type 0
      placed_at none = (Paired u)
      placed_at (some e) = (Gap u)

      ended :
          (e : Option Errno)
          → Triple (placed_at e) (after_placing staging target temp e) (Outcome u) (Safe u)
      ended none = Triple-pure (displaced_to temp) (λ disk v. (v.at_target, v.at_temp, v.framed))
      ended (some e) = back_triple

  undo_triple :
      Triple (Reserved u) (after_moving staging target temp (some eio)) (Outcome u) (Safe u)
  undo_triple =
      Triple-bind (λ e. (Before u)) (remove_mark staging target temp target) _
        (Triple-weaken (λ disk v. (some [], v)) (unmark_target u))
        (λ e.
          Triple-bind (λ f. (Before u)) (perform (remove_dir temp)) _
            (Triple-perform (λ f. (Before u)) (remove_dir temp) (Before-Safe u)
              (unreserve-Settles u) (λ f disk v. v))
            (λ f. Triple-pure untouched (λ disk v. v)))

  moving_triple :
      Triple
        (Reserved u)
        (do moved ← perform (rename_at target temp); after_moving staging target temp moved)
        (Outcome u)
        (Safe u)
  moving_triple =
      Triple-bind moved_at (perform (rename_at target temp)) (after_moving staging target temp)
        (Triple-perform moved_at (rename_at target temp) (Reserved-Safe u) (move_aside-Settles u)
          (λ e disk v. v))
        ended
    where
      moved_at : Option Errno → Disk → Type 0
      moved_at none = (Gap u)
      moved_at (some e) = (Reserved u)

      ended :
          (e : Option Errno)
          → Triple (moved_at e) (after_moving staging target temp e) (Outcome u) (Safe u)
      ended none = placing_triple
      ended (some e) = undo_triple

  pair_triple : Triple (Before u) (swap_by_rename_pair staging target temp) (Outcome u) (Safe u)
  unfolding swap_by_rename_pair
  pair_triple =
      Triple-bind reserved_at (perform (mkdir_temp temp)) (after_reserving staging target temp)
        (Triple-perform reserved_at (mkdir_temp temp) (Before-Safe u) (reserve-Settles u)
          (λ e disk v. v))
        ended
    where
      reserved_at : Option Errno → Disk → Type 0
      reserved_at none = (Reserved u)
      reserved_at (some e) = (Before u)

      ended :
          (e : Option Errno)
          → Triple (reserved_at e) (after_reserving staging target temp e) (Outcome u) (Safe u)
      ended (some e) = Triple-pure untouched (λ disk v. v)
      ended none =
          Triple-bind (λ b. (Reserved u)) (mark_as_ours staging target temp temp) _ (mark_temp u)
            (λ b.
              Triple-bind (Claimed u) (mark_as_ours staging target temp target) _ (mark_target u)
                (λ c. Triple-weaken (λ disk v. v.0) moving_triple))

  exchange_triple :
      (claimed : Bool)
      → Triple
          (Before u)
          (do e ← perform (exchange staging target); after_exchange staging target temp claimed e)
          (Outcome u)
          (Safe u)
  exchange_triple claimed =
      Triple-bind traded_at (perform (exchange staging target))
        (after_exchange staging target temp claimed)
        (Triple-perform traded_at (exchange staging target) (Before-Safe u) (exchange-Settles u)
          (λ e disk v. v))
        ended
    where
      traded_at : Option Errno → Disk → Type 0
      traded_at none = (Traded u)
      traded_at (some e) = (Before u)

      unmarked :
          (b : Bool)
          → Triple (Before u) (unmark_if staging target temp b) (λ e. (Before u)) (Safe u)
      unmarked true = (unmark_target u)
      unmarked false = Triple-pure none (λ disk v. v)

      next :
          (b : Bool)
          → Triple
              (Before u)
              (if b then swap_by_rename_pair staging target temp else pure untouched)
              (Outcome u)
              (Safe u)
      next true = pair_triple
      next false = Triple-pure untouched (λ disk v. v)

      ended :
          (e : Option Errno)
          → Triple (traded_at e) (after_exchange staging target temp claimed e) (Outcome u) (Safe u)
      ended none =
          Triple-pure (displaced_to staging) (λ disk v. (v.1.at_target, v.1.at_staging, v.1.framed))
      ended (some e) =
          Triple-bind (λ f. (Before u)) (unmark_if staging target temp claimed) _ (unmarked claimed)
            (λ f. next (is_unsupported e))

  swap_triple : Triple (Before u) (swap_into_place staging target temp) (Outcome u) (Safe u)
  unfolding swap_into_place
  swap_triple =
      Triple-bind (λ b. (Before u)) (mark_as_ours staging target temp target) _ (claim_target u)
        exchange_triple

  -- Whatever calls of a swap fail, those that set or remove a mark included, and wherever the process is killed, both copies of the data are
  -- on the disk, under one of the three names, and no other name changes. When the swap returns,
  -- the volume holds the restored data and the displaced data is where it says, or the volume holds
  -- what it did, or, if it says so, it has no directory and the old data is at the reserved name.
  -- The volume starts with the old data, the staging directory with the restored data.
  pub swap_keeps_both :
      (fates : List Fate) (disk : Disk)
      → (Before u) disk
      → Holds (Outcome u) (Safe u) (swap_into_place staging target temp fates disk)
  swap_keeps_both fates disk v = swap_triple.run fates disk v
