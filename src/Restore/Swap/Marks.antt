-- ===== src/Restore/Swap/Marks.antt =====
-- The marks that a swap sets.
use borgmatic_manager.Prelude.{refl, sym, ap, ◌∙◌, Bool, true, ◌≡◌}
use borgmatic_manager.GoMap.{get, remove}
use borgmatic_manager.Restore.Disk.{Disk, perform, set_mark, rename_at}
use borgmatic_manager.Restore.Disk.Triples.{
  Triple, Triple-bind, Triple-perform, Triple-pure, Settles, change_dir-Settles, move_dir-Settles,
  onto-Settles,
}
use borgmatic_manager.Restore.Swap.{was_set, mark_as_ours}
use borgmatic_manager.Restore.Swap.Slots.{
  get-put_here, is_ours, put_target, put_temp, move_target_to_temp,
}
use borgmatic_manager.Restore.Swap.States.{Setup, Before, Safe, Gap, Reserved}
use borgmatic_manager.Restore.Swap.Calls.{
  Before-Safe, Reserved-Safe, found, as_target, as_temp, mark_target-Settles,
}

module _ (u : Setup) where
  open u use {staging, target, temp, start, old, new, n}

  -- The mark before the exchange, whether it is set or not.
  pub claim_target :
      Triple (Before u) (mark_as_ours staging target temp target) (λ b. (Before u)) (Safe u)
  unfolding mark_as_ours
  claim_target =
      Triple-bind (λ e. (Before u)) (perform (set_mark target true)) _
        (Triple-perform (λ e. (Before u)) (set_mark target true) (Before-Safe u)
          (mark_target-Settles u true) (λ e disk v. v))
        (λ e. Triple-pure (was_set e) (λ disk v. v))

  mark_temp-Settles :
      (disk : Disk) → (Reserved u) disk → Settles (Reserved u) (set_mark temp true disk)
  unfolding set_mark
  mark_temp-Settles disk v = change_dir-Settles (Reserved u) (get disk temp) _ λ d e.
      (as_temp u) ((found u) _ d e v.at_temp)
        (put_temp start staging target temp n (record d { ours = true }) disk v)

  pub mark_temp :
      Triple (Reserved u) (mark_as_ours staging target temp temp) (λ b. (Reserved u)) (Safe u)
  unfolding mark_as_ours
  mark_temp =
      Triple-bind (λ e. (Reserved u)) (perform (set_mark temp true)) _
        (Triple-perform (λ e. (Reserved u)) (set_mark temp true) (Reserved-Safe u) mark_temp-Settles
          (λ e disk v. v))
        (λ e. Triple-pure (was_set e) (λ disk v. v))

  -- The volume is marked if the call said so.
  abbrev pub Claimed : Bool → Disk → Type 0
  Claimed b disk = (Reserved u) disk × (b ≡ true → is_ours (get disk target) ≡ true)

  set_mark-Settles :
      (disk : Disk) → (Reserved u) disk → Settles (Claimed true) (set_mark target true disk)
  unfolding set_mark
  set_mark-Settles disk v = change_dir-Settles (Claimed true) (get disk target) _ λ d e. (
    (as_target u) ((found u) _ d e v.at_target)
        (put_target start staging target temp n (record d { ours = true }) disk v),
    λ on. rw (get-put_here disk target (record d { ours = true })) refl,
  )

  pub mark_target : Triple (Reserved u) (mark_as_ours staging target temp target) Claimed (Safe u)
  unfolding mark_as_ours
  mark_target =
      Triple-bind (λ e. Claimed (was_set e)) (perform (set_mark target true)) _
        (Triple-perform (λ e. Claimed (was_set e)) (set_mark target true) (Reserved-Safe u)
          set_mark-Settles (λ e disk v. (v, λ on. cc)))
        (λ e. Triple-pure (was_set e) (λ disk v. v))

  -- The mark goes with the directory when it is moved aside.
  pub moved_with_mark :
      (b : Bool) (disk : Disk)
      → Claimed b disk
      → Settles
          (λ next. (Gap u) next × (b ≡ true → is_ours (get next temp) ≡ true))
          (rename_at target temp disk)
  unfolding rename_at
  moved_with_mark b disk (v, marked) =
      let Marked : Disk → Type 0 =
        λ next. (Gap u) next × (b ≡ true → is_ours (get next temp) ≡ true) in
      move_dir-Settles Marked (get disk target) _ λ d e. onto-Settles Marked (get disk temp) _ (
        (as_temp u) ((found u) _ d e v.at_target)
            (move_target_to_temp start staging target temp n d disk v),
        λ on. rw (get-put_here (remove disk target) temp d) (sym (ap is_ours e) ∙ marked on),
      )
