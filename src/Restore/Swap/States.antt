-- ===== src/Restore/Swap/States.antt =====
-- The states of the disk during a swap.
use borgmatic_manager.Prelude.{String, Option, none, some, List, [], ◌≡◌, refl, ◌⊎◌, ap, get_or}
use borgmatic_manager.GoMap.{get}
use borgmatic_manager.Restore.Disk.{Dir, Disk}
use borgmatic_manager.Restore.Swap.{Swapped, displaced_to, untouched, stranded}
use borgmatic_manager.Restore.Swap.Slots.{content, IsFramed, IsAt, AllDistinct}

pub content-some :
    (o : Option Dir) {es : List String}
    → content o ≡ some es
    → (d : Dir) × (o ≡ some d) × (d.entries ≡ es)
content-some none e = cc
content-some (some d) {es} e = (d, refl, ap (get_or d.entries) e)

-- A swap: the three names, the disk that it starts from, and the
-- old and the restored data.
pub record Setup : Type 0 where
  pub staging : String
  pub target : String
  pub temp : String
  pub start : Disk
  pub old : List String
  pub new : List String
  pub n : AllDistinct staging target temp

module _ (u : Setup) where
  open u use {staging, target, temp, start, old, new, n}

  -- The volume holds the old data and the staging directory the restored data.
  abbrev pub Before : Disk → Type 0
  Before disk =
      (d : Option (List String)) × IsAt start staging target temp (some old) (some new) d disk

  -- They have traded places.
  abbrev pub Traded : Disk → Type 0
  Traded disk =
      (d : Option (List String)) × IsAt start staging target temp (some new) (some old) d disk

  -- The volume holds the restored data, and the old data has been moved aside.
  abbrev pub Paired : Disk → Type 0
  Paired disk = IsAt start staging target temp (some new) none (some old) disk

  -- The volume has no directory; the old data and the restored data are beside it.
  abbrev pub Gap : Disk → Type 0
  Gap disk = IsAt start staging target temp none (some new) (some old) disk

  abbrev pub Safe : Disk → Type 0
  Safe disk = Before disk ⊎ (Traded disk ⊎ (Paired disk ⊎ Gap disk))

  -- What each result of a swap promises.
  abbrev pub Outcome : Swapped → Disk → Type 0
  Outcome (displaced_to k) disk =
      (content (get disk target) ≡ some new)
      × (content (get disk k) ≡ some old)
      × IsFramed start staging target temp disk
  Outcome untouched disk = Before disk
  Outcome stranded disk = Gap disk

  abbrev pub Reserved : Disk → Type 0
  Reserved disk = IsAt start staging target temp (some old) (some new) (some []) disk
