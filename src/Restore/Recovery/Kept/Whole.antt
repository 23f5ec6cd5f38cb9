-- ===== src/Restore/Recovery/Kept/Whole.antt =====
-- `recoverInterruptedSwap` as a whole: whatever fails and whenever it is killed.
use borgmatic_manager.Prelude.{
  String, Bool, true, false, Option, none, some, List, [], ◌∷◌, ◌==◌, ◌≡◌, arith, ◌⊎◌, inl, inr,
  is_some, Option-cases, All, if_both,
}
use borgmatic_manager.GoMap.{get}
use borgmatic_manager.Restore.Disk.{Disk, Errno, enoent, perform, ask, set_mark, rename, Fate}
use borgmatic_manager.Restore.Disk.Triples.{
  Holds, Triple, Triple-bind, Triple-perform, Triple-pure, Triple-ask, Triple-assume, Settles,
  change_dir-Settles, move_dir-Settles, onto_nothing-Settles,
}
use borgmatic_manager.Restore.Recovery.{
  old_prefix, is_permission, siblings_with_prefix, fine, broken, after_sync, after_return, put_back,
  choose_full, choose, by_presence, with_matches, recover_interrupted_swap,
}
use borgmatic_manager.Restore.Recovery.Names.{siblings_differ}
use borgmatic_manager.Restore.Recovery.Kept.{IsKept, IsKept-start, rename-IsKept, unmark-IsKept}
use borgmatic_manager.Restore.Recovery.Kept.Calls.{
  Kept, Returned, Own, KeptBy, pure_kept, reap_kept, AllOwn, collect_ours_kept, collect_full_kept,
  sweep_kept,
}

module _ (start : Disk) (target : String) where
  rename-Settles :
      (m : String)
      → (Own start target) m
      → (disk : Disk) → (Kept start target) disk
      → Settles (Returned start target) (rename m target disk)
  unfolding rename
  rename-Settles m (n, ours) disk v = move_dir-Settles (Returned start target) (get disk m) _ λ d e.
      onto_nothing-Settles (Returned start target) (get disk target) _
        λ free. (rename-IsKept start target disk m d n ours e free v, absent free)
    where
      absent : get disk target ≡ none → get start target ≡ none
      absent free = elim (Option-cases (get start target)) [
        | inl gone ↦ gone
        | inr (d, there) ↦ absurd (ground (arith, v.stays d there))
      ]

  unmark-Settles :
      (disk : Disk)
      → (Returned start target) disk
      → Settles (Kept start target) (set_mark target false disk)
  unfolding set_mark
  unmark-Settles disk (v, absent) =
      change_dir-Settles (Kept start target) (get disk target) _
        λ d e. unmark-IsKept start target disk d false absent e v

  put_back_kept :
      (m : String) (ours : List String)
      → (Own start target) m
      → (AllOwn start target) ours
      → (KeptBy start target) (put_back target m ours)
  unfolding put_back
  put_back_kept m ours own os =
      Triple-bind renamed_at (perform (rename m target)) (after_return target m ours)
        (Triple-perform renamed_at (rename m target) (λ disk v. v) (rename-Settles m own)
          (λ e disk v. v))
        renamed
    where
      renamed_at : Option Errno → Disk → Type 0
      renamed_at none = (Returned start target)
      renamed_at (some e) = (Kept start target)

      synced :
          (e : Option Errno)
          → Triple
              (Returned start target)
              (after_sync target m ours e)
              (λ r. (Kept start target))
              (Kept start target)
      synced (some e) = Triple-pure broken (λ disk v. v.0)
      synced none =
          Triple-bind (λ e. (Kept start target)) (perform (set_mark target false)) _
            (Triple-perform (λ e. (Kept start target)) (set_mark target false) (λ disk v. v.0)
              unmark-Settles (λ e disk v. v.0))
            (λ e. (sweep_kept start target) m ours os)

      renamed :
          (e : Option Errno)
          → Triple
              (renamed_at e)
              (after_return target m ours e)
              (λ r. (Kept start target))
              (Kept start target)
      renamed (some e) = (pure_kept start target) broken
      renamed none =
          Triple-bind (λ e. (Returned start target)) (perform inl) _
            (Triple-perform (λ e. (Returned start target)) inl (λ disk v. v.0) (λ disk v. v)
              (λ e disk v. v))
            synced

  choose_full_kept :
      (first : String) (ours full : List String)
      → (Own start target) first
      → (AllOwn start target) ours
      → (AllOwn start target) full
      → (KeptBy start target) (choose_full target first ours full)
  choose_full_kept first ours [] own os fs = put_back_kept first ours own os
  choose_full_kept first ours (m ∷ []) own os fs = put_back_kept m ours fs.0 os
  choose_full_kept first ours (m ∷ k ∷ full) own os fs = (pure_kept start target) broken

  choose_kept :
      (ours : List String) → (AllOwn start target) ours → (KeptBy start target) (choose target ours)
  choose_kept [] os = (pure_kept start target) fine
  choose_kept (m ∷ []) os = put_back_kept m (m ∷ []) os.0 os
  choose_kept (m ∷ k ∷ ours) os =
      (collect_full_kept start target) (choose_full target m (m ∷ k ∷ ours)) [] (m ∷ k ∷ ours) tt os
        (λ full fs. choose_full_kept m (m ∷ k ∷ ours) full os.0 os fs)

  by_presence_kept :
      (ms : List String)
      → All (λ m. (m == target) ≡ false) ms
      → (o : Bool ⊎ Errno) → (KeptBy start target) (by_presence target ms o)
  by_presence_kept ms ns (inl true) = (reap_kept start target) ms ns
  by_presence_kept ms ns (inl false) =
      (collect_ours_kept start target) (choose target) [] ms tt ns choose_kept
  by_presence_kept ms ns (inr enoent) =
      (collect_ours_kept start target) (choose target) [] ms tt ns choose_kept
  by_presence_kept ms ns (inr e) = (reap_kept start target) ms ns

  with_matches_kept :
      (ms : List String)
      → All (λ m. (m == target) ≡ false) ms
      → (KeptBy start target) (with_matches target (inl ms))
  with_matches_kept [] ns = (pure_kept start target) fine
  with_matches_kept (m ∷ ms) ns =
      Triple-bind (λ o. (Kept start target)) (ask (λ disk. is_some (get disk target))) _
        (Triple-ask (λ o. (Kept start target)) _ (λ disk v. v) (λ disk v. v) (λ e disk v. v))
        (by_presence_kept (m ∷ ms) ns)

  -- The names beside the volume are not its own.
  abbrev Listed : List String ⊎ Errno → Disk → Type 0
  Listed (inl ms) disk = (Kept start target) disk × All (λ m. (m == target) ≡ false) ms
  Listed (inr e) disk = (Kept start target) disk

  pub recovery_kept : (KeptBy start target) (recover_interrupted_swap target)
  unfolding recover_interrupted_swap siblings_with_prefix
  recovery_kept =
      Triple-bind Listed (siblings_with_prefix target old_prefix) _
        (Triple-ask Listed _ (λ disk v. v) (λ disk v. (v, siblings_differ target disk))
          (λ e disk v. v))
        matched
    where
      matched :
          (o : List String ⊎ Errno)
          → Triple (Listed o) (with_matches target o) (λ r. (Kept start target)) (Kept start target)
      matched (inl ms) = Triple-assume (with_matches_kept ms)
      matched (inr e) =
          if_both (KeptBy start target) (is_permission e) _ _ ((pure_kept start target) fine)
            ((pure_kept start target) broken)

-- Whatever calls fail and wherever the process is killed, the recovery of a volume leaves a volume
-- that is there as it is; it changes no directory beside it that does not carry this program's mark;
-- and each directory with data keeps its name, or its data are the volume's.
pub recovery_keeps_data :
    (target : String) (fates : List Fate) (disk : Disk)
    → Holds
        (λ r. IsKept disk target)
        (IsKept disk target)
        (recover_interrupted_swap target fates disk)
recovery_keeps_data target fates disk =
    (recovery_kept disk target).run fates disk (IsKept-start disk target)
