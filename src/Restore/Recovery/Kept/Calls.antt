-- ===== src/Restore/Recovery/Kept/Calls.antt =====
-- The loops of `recoverInterruptedSwap`, and what they keep.
use borgmatic_manager.Prelude.{
  String, Bool, true, false, Option, none, some, List, [], ◌∷◌, ◌++◌, ◌==◌, ◌≡◌, ◌⊎◌, inl, inr,
  is_empty, Bool-cases, All, All-append, if_both,
}
use borgmatic_manager.GoMap.{get, remove}
use borgmatic_manager.Restore.Disk.{Dir, Disk, Errno, M, pure, perform, onto, remove_dir}
use borgmatic_manager.Restore.Disk.Triples.{
  Triple, Triple-bind, Triple-perform, Triple-pure, Triple-ask, Triple-assume, Settles,
  move_dir-Settles,
}
use borgmatic_manager.Restore.Recovery.{
  is_permission, marked, provably_ours, is_empty_dir, Recovered, fine, broken, reap_removed,
  reap_empty, reap_owned, reap, claim_owned, collect_ours, claim_full, collect_full, sweep,
}
use borgmatic_manager.Restore.Recovery.Kept.{IsKept, marked_from_start, remove-IsKept}

onto-some-Settles :
    (Q : Disk → Type 0) (d : Dir) (disk : Disk)
    → (is_empty d.entries ≡ true → Q disk)
    → Settles Q (onto (some d) disk)
onto-some-Settles Q d disk q = elim (Bool-cases (is_empty d.entries)) [
  | inl empty ↦ rw empty (q empty)
  | inr full ↦ rw full tt
]

module _ (start : Disk) (target : String) where
  abbrev pub Kept : Disk → Type 0
  Kept = IsKept start target

  -- The same, and the volume was missing.
  abbrev pub Returned : Disk → Type 0
  Returned disk = Kept disk × (get start target ≡ none)

  -- A name that this program reserved.
  abbrev pub Own : String → Type 0
  Own m = ((m == target) ≡ false) × (marked (get start m) ≡ true)

  abbrev pub KeptBy : M Recovered → Type 0
  KeptBy m = Triple Kept m (λ r. Kept) Kept

  pub pure_kept : (r : Recovered) → KeptBy (pure r)
  pure_kept r = Triple-pure r (λ disk v. v)

  pub remove-Settles :
      (m : String) → Own m → (disk : Disk) → Kept disk → Settles Kept (remove_dir m disk)
  unfolding remove_dir
  remove-Settles m (n, ours) disk v = move_dir-Settles Kept (get disk m) _ λ d e.
      onto-some-Settles Kept d (remove disk m)
        λ empty. remove-IsKept start target disk m d n ours e empty v

  pub remove_dir-Kept : (m : String) → Own m → Triple Kept (perform (remove_dir m)) (λ e. Kept) Kept
  remove_dir-Kept m own =
      Triple-perform (λ e. Kept) (remove_dir m) (λ disk v. v) (remove-Settles m own) (λ e disk v. v)

  -- What the answer of `provablyOurs` tells.
  abbrev pub Owned : String → Bool ⊎ Errno → Disk → Type 0
  Owned m (inl true) disk = Kept disk × (marked (get start m) ≡ true)
  Owned m (inl false) disk = Kept disk
  Owned m (inr e) disk = Kept disk

  pub owned : (m : String) → (m == target) ≡ false → Triple Kept (provably_ours m) (Owned m) Kept
  unfolding provably_ours
  owned m n = Triple-ask (Owned m) (λ disk. marked (get disk m)) (λ disk v. v) reads (λ e disk v. v)
    where
      reads : (disk : Disk) → Kept disk → Owned m (inl (marked (get disk m))) disk
      reads disk v = elim (Bool-cases (marked (get disk m))) [
        | inl yes' ↦ rw yes' (v, marked_from_start start target disk m v n yes')
        | inr no' ↦ rw no' v
      ]

  pub empty_asked : (m : String) → Triple Kept (is_empty_dir m) (λ e. Kept) Kept
  unfolding is_empty_dir
  empty_asked m = Triple-ask (λ e. Kept) _ (λ disk v. v) (λ disk v. v) (λ e disk v. v)

  pub reap_owned-Kept :
      (m : String) (next : M Recovered)
      → (m == target) ≡ false
      → KeptBy next
      → (o : Bool ⊎ Errno) → Triple (Owned m o) (reap_owned m next o) (λ r. Kept) Kept
  reap_owned-Kept m next n k (inl true) =
      Triple-assume
        λ ours. Triple-bind (λ e. Kept) (is_empty_dir m) _ (empty_asked m) (emptied ours)
    where
      removed : (r : Option Errno) → KeptBy (reap_removed next r)
      removed none = k
      removed (some e) = pure_kept broken

      emptied : marked (get start m) ≡ true → (e : Bool ⊎ Errno) → KeptBy (reap_empty m next e)
      emptied ours (inl true) =
          Triple-bind (λ r. Kept) (perform (remove_dir m)) _ (remove_dir-Kept m (n, ours)) removed
      emptied ours (inl false) = k
      emptied ours (inr e) = pure_kept broken
  reap_owned-Kept m next n k (inl false) = k
  reap_owned-Kept m next n k (inr e) = if_both KeptBy (is_permission e) _ _ k (pure_kept broken)

  pub reap_kept : (ms : List String) → All (λ m. (m == target) ≡ false) ms → KeptBy (reap ms)
  unfolding reap
  reap_kept [] ns = pure_kept fine
  reap_kept (m ∷ ms) ns =
      Triple-bind (Owned m) (provably_ours m) _ (owned m ns.0)
        (reap_owned-Kept m (reap ms) ns.0 (reap_kept ms ns.1))

  -- A list of names that this program reserved.
  abbrev pub AllOwn : List String → Type 0
  AllOwn ms = All Own ms

  pub claim_owned-Kept :
      (m : String) (next : List String → M Recovered) (ours : List String)
      → (m == target) ≡ false
      → AllOwn ours
      → ((more : List String) → AllOwn more → KeptBy (next more))
      → (o : Bool ⊎ Errno) → Triple (Owned m o) (claim_owned m next ours o) (λ r. Kept) Kept
  claim_owned-Kept m next ours n own k (inl true) =
      Triple-assume λ mine. k (ours ++ m ∷ []) (All-append Own ours (m ∷ []) own ((n, mine), tt))
  claim_owned-Kept m next ours n own k (inl false) = k ours own
  claim_owned-Kept m next ours n own k (inr e) =
      if_both KeptBy (is_permission e) _ _ (k ours own) (pure_kept broken)

  pub collect_ours_kept :
      (next : List String → M Recovered) (ours ms : List String)
      → AllOwn ours
      → All (λ m. (m == target) ≡ false) ms
      → ((more : List String) → AllOwn more → KeptBy (next more))
      → KeptBy (collect_ours next ours ms)
  unfolding collect_ours
  collect_ours_kept next ours [] own ns k = k ours own
  collect_ours_kept next ours (m ∷ ms) own ns k =
      Triple-bind (Owned m) (provably_ours m) _ (owned m ns.0) (
        claim_owned-Kept m (λ more. collect_ours next more ms) ours ns.0 own
          (λ more own'. collect_ours_kept next more ms own' ns.1 k))

  pub collect_full_kept :
      (next : List String → M Recovered) (full ms : List String)
      → AllOwn full
      → AllOwn ms
      → ((more : List String) → AllOwn more → KeptBy (next more))
      → KeptBy (collect_full next full ms)
  unfolding collect_full
  collect_full_kept next full [] own os k = k full own
  collect_full_kept next full (m ∷ ms) own os k =
      Triple-bind (λ e. Kept) (is_empty_dir m) _ (empty_asked m)
        (claimed (λ more own'. collect_full_kept next more ms own' os.1 k))
    where
      claimed :
          ((more : List String) → AllOwn more → KeptBy (collect_full next more ms))
          → (e : Bool ⊎ Errno) → KeptBy (claim_full m (λ more. collect_full next more ms) full e)
      claimed rest (inl true) = rest full own
      claimed rest (inl false) = rest (full ++ m ∷ []) (All-append Own full (m ∷ []) own (os.0, tt))
      claimed rest (inr e) = pure_kept broken

  pub sweep_kept : (displaced : String) (ms : List String) → AllOwn ms → KeptBy (sweep displaced ms)
  unfolding sweep
  sweep_kept displaced [] os = pure_kept fine
  sweep_kept displaced (m ∷ ms) os =
      if_both KeptBy (m == displaced) _ _ (sweep_kept displaced ms os.1) (
        Triple-bind (λ e. Kept) (perform (remove_dir m)) _ (remove_dir-Kept m os.0)
          (λ e. sweep_kept displaced ms os.1))
