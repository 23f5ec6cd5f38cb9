-- ===== src/Restore/Swap/Calls.antt =====
-- The system calls of a swap that rename directories or remove a mark, from state to state.
use borgmatic_manager.Prelude.{
  String, Bool, false, Option, none, some, List, [], ◌≡◌, inl, sym, ap, ◌∙◌, subst,
}
use borgmatic_manager.GoMap.{get}
use borgmatic_manager.Restore.Disk.{
  empty_dir, Dir, Disk, set_mark, exchange, rename_at, rename, mkdir_temp, remove_dir,
}
use borgmatic_manager.Restore.Disk.Triples.{
  Triple, Triple-perform, Settles, change_dir-Settles, move_dir-Settles, swap_dirs-Settles,
  onto-Settles, onto_nothing-Settles,
}
use borgmatic_manager.Restore.Swap.{remove_mark}
use borgmatic_manager.Restore.Swap.Slots.{
  content, IsAt, put_target, put_temp, move_target_to_temp, move_temp_to_target,
  move_staging_to_target, trade, remove_temp,
}
use borgmatic_manager.Restore.Swap.States.{Setup, Before, Traded, Paired, Gap, Safe, Reserved}

module _ (u : Setup) where
  open u use {staging, target, temp, start, old, new, n}

  pub Before-Safe : (disk : Disk) → (Before u) disk → (Safe u) disk
  Before-Safe disk v = inl v

  pub Reserved-Safe : (disk : Disk) → (Reserved u) disk → (Safe u) disk
  Reserved-Safe disk v = inl (some [], v)

  -- A directory that was found holds what the name holds.
  pub found :
      (o : Option Dir) (d : Dir) {es : List String}
      → o ≡ some d
      → content o ≡ some es
      → some d.entries ≡ some es
  found o d e c = sym (ap content e) ∙ c

  pub as_target :
      {a b : List String} {s d : Option (List String)} {disk : Disk}
      → some a ≡ some b
      → IsAt start staging target temp (some a) s d disk
      → IsAt start staging target temp (some b) s d disk
  as_target {s = s} {d = d} {disk = disk} e v =
      subst (λ t. IsAt start staging target temp t s d disk) e v

  pub as_staging :
      {a b : List String} {t d : Option (List String)} {disk : Disk}
      → some a ≡ some b
      → IsAt start staging target temp t (some a) d disk
      → IsAt start staging target temp t (some b) d disk
  as_staging {t = t} {d = d} {disk = disk} e v =
      subst (λ s. IsAt start staging target temp t s d disk) e v

  pub as_temp :
      {a b : List String} {t s : Option (List String)} {disk : Disk}
      → some a ≡ some b
      → IsAt start staging target temp t s (some a) disk
      → IsAt start staging target temp t s (some b) disk
  as_temp {t = t} {s = s} {disk = disk} e v =
      subst (λ d. IsAt start staging target temp t s d disk) e v

  pub mark_target-Settles :
      (b : Bool) (disk : Disk) → (Before u) disk → Settles (Before u) (set_mark target b disk)
  unfolding set_mark
  mark_target-Settles b disk (c, v) = change_dir-Settles (Before u) (get disk target) _ λ d e. (
    c,
    as_target (found _ d e v.at_target)
        (put_target start staging target temp n (record d { ours = b }) disk v),
  )

  pub unmark_target :
      Triple (Before u) (remove_mark staging target temp target) (λ e. (Before u)) (Safe u)
  unfolding remove_mark
  unmark_target =
      Triple-perform (λ e. (Before u)) (set_mark target false) Before-Safe
        (mark_target-Settles false) (λ e disk v. v)

  pub exchange-Settles :
      (disk : Disk) → (Before u) disk → Settles (Traded u) (exchange staging target disk)
  unfolding exchange
  exchange-Settles disk (c, v) =
      swap_dirs-Settles (Traded u) (get disk staging) (get disk target) _ λ a b ea eb. (
        c,
        as_staging (found _ b eb v.at_target)
            (as_target (found _ a ea v.at_staging) (trade start staging target temp n a b disk v)),
      )

  pub move_aside-Settles :
      (disk : Disk) → (Reserved u) disk → Settles (Gap u) (rename_at target temp disk)
  unfolding rename_at
  move_aside-Settles disk v = move_dir-Settles (Gap u) (get disk target) _ λ d e.
      onto-Settles (Gap u) (get disk temp) _ (
        as_temp (found _ d e v.at_target)
          (move_target_to_temp start staging target temp n d disk v))

  pub place-Settles : (disk : Disk) → (Gap u) disk → Settles (Paired u) (rename staging target disk)
  unfolding rename
  place-Settles disk v = move_dir-Settles (Paired u) (get disk staging) _ λ d e.
      onto_nothing-Settles (Paired u) (get disk target) _ λ free.
        as_target (found _ d e v.at_staging)
          (move_staging_to_target start staging target temp n d disk v)

  pub back-Settles : (disk : Disk) → (Gap u) disk → Settles (Before u) (rename temp target disk)
  unfolding rename
  back-Settles disk v = move_dir-Settles (Before u) (get disk temp) _ λ d e.
      onto_nothing-Settles (Before u) (get disk target) _ λ free. (
        none,
        as_target (found _ d e v.at_temp)
            (move_temp_to_target start staging target temp n d disk v),
      )

  pub reserve-Settles :
      (disk : Disk) → (Before u) disk → Settles (Reserved u) (mkdir_temp temp disk)
  unfolding mkdir_temp
  reserve-Settles disk (c, v) =
      onto_nothing-Settles (Reserved u) (get disk temp) _
        λ free. put_temp start staging target temp n empty_dir disk v

  pub unreserve-Settles :
      (disk : Disk) → (Before u) disk → Settles (Before u) (remove_dir temp disk)
  unfolding remove_dir
  unreserve-Settles disk (c, v) = move_dir-Settles (Before u) (get disk temp) _ λ d e.
      onto-Settles (Before u) (some d) _ (none, remove_temp start staging target temp n disk v)
