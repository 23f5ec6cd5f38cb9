-- ===== src/Restore/Recovery.antt =====
-- `recoverInterruptedSwap` of cmd/borgmatic-manager/restore_swap.go, and the functions that find and
-- judge the directories beside a volume. A test for an empty directory is one call here.
pub mod Kept
pub mod Names
pub mod Repairs
use Prim.Native.Char.{code}
use borgmatic_manager.Prelude.{
  nat_eq, ℕ, String, Bool, true, false, not, ◌&&◌, ◌||◌, Option, none, some, List, [], ◌∷◌, ◌++◌,
  keep, is_empty, leb, ◌==◌, if◌then◌else◌, is_some, ◌≡◌, refl, ◌⊎◌, inl, inr,
}
use borgmatic_manager.GoMap.{get, keys}
use borgmatic_manager.GoStrings.{plus}
use borgmatic_manager.Scheduler.Fingerprint.{sort_strings}
use borgmatic_manager.Restore.Disk.{
  Dir, Disk, Errno, eperm, eacces, enoent, M, pure, ◌>>=◌, perform, ask, set_mark, rename,
  remove_dir,
}

abbrev pub old_prefix : String
old_prefix = ".borgmatic-manager-replaced-"

abbrev pub staging_prefix : String
staging_prefix = ".borgmatic-manager-restoring-"

unfoldable pub all_digits : String → Bool
all_digits String.[] = true
all_digits (String.◌∷◌ c s) = leb b'0' (code c) && leb (code c) b'9' && all_digits s

-- `strings.CutPrefix(s, p)`.
unfoldable pub cut_prefix : String → String → Option String
cut_prefix s String.[] = some s
cut_prefix String.[] (String.◌∷◌ c p) = none
cut_prefix (String.◌∷◌ d s) (String.◌∷◌ c p) =
    if nat_eq (code d) (code c) then cut_prefix s p else none

abbrev pub is_suffix : Option String → Bool
is_suffix none = false
is_suffix (some suffix) = not (suffix == "") && all_digits suffix

unfoldable pub made_by_mkdir_temp : String → String → Bool
made_by_mkdir_temp name prefix = is_suffix (cut_prefix name prefix)

abbrev pub is_permission : Errno → Bool
is_permission eperm = true
is_permission eacces = true
is_permission _ = false

-- The directories with a name of this program beside the volume, in the order of `os.ReadDir`; the
-- error of the listing otherwise.
unfoldable pub siblings_with_prefix : String → String → M (List String ⊎ Errno)
siblings_with_prefix target prefix =
    ask (λ disk. sort_strings (keep (λ k. made_by_mkdir_temp k (plus target prefix)) (keys disk)))

abbrev pub entries_empty : Option Dir → Bool
entries_empty none = false
entries_empty (some d) = is_empty d.entries

abbrev pub marked : Option Dir → Bool
marked none = false
marked (some d) = d.ours

-- `provablyOurs`: an error of another kind than a missing permission is passed on.
unfoldable pub provably_ours : String → M (Bool ⊎ Errno)
provably_ours name = ask (λ disk. marked (get disk name))

unfoldable pub is_empty_dir : String → M (Bool ⊎ Errno)
is_empty_dir name = ask (λ disk. entries_empty (get disk name))

-- No error, or an error.
pub data Recovered : Type 0 where
  fine broken : Recovered

-- One reservation beside a volume that is there: `next` goes on with the others.
abbrev pub reap_removed : M Recovered → Option Errno → M Recovered
reap_removed next none = next
reap_removed next (some e) = pure broken

abbrev pub reap_empty : String → M Recovered → Bool ⊎ Errno → M Recovered
reap_empty m next (inl true) = do r ← perform (remove_dir m); reap_removed next r
reap_empty m next (inl false) = next
reap_empty m next (inr e) = pure broken

abbrev pub reap_owned : String → M Recovered → Bool ⊎ Errno → M Recovered
reap_owned m next (inl true) = do e ← is_empty_dir m; reap_empty m next e
reap_owned m next (inl false) = next
reap_owned m next (inr e) = if is_permission e then next else pure broken

-- The volume is there: only reservations without data are removed.
unfoldable pub reap : List String → M Recovered
reap [] = pure fine
reap (m ∷ ms) = do o ← provably_ours m; reap_owned m (reap ms) o

abbrev pub claim_owned :
    String → (List String → M Recovered) → List String → Bool ⊎ Errno → M Recovered
claim_owned m next ours (inl true) = next (ours ++ m ∷ [])
claim_owned m next ours (inl false) = next ours
claim_owned m next ours (inr e) = if is_permission e then next ours else pure broken

-- The directories of this program among the names, which `next` is called with.
unfoldable pub collect_ours : (List String → M Recovered) → List String → List String → M Recovered
collect_ours next ours [] = next ours
collect_ours next ours (m ∷ ms) = do
  o ← provably_ours m
  claim_owned m (λ more. collect_ours next more ms) ours o

abbrev pub claim_full :
    String → (List String → M Recovered) → List String → Bool ⊎ Errno → M Recovered
claim_full m next full (inl true) = next full
claim_full m next full (inl false) = next (full ++ m ∷ [])
claim_full m next full (inr e) = pure broken

-- Those that hold data.
unfoldable pub collect_full : (List String → M Recovered) → List String → List String → M Recovered
collect_full next full [] = next full
collect_full next full (m ∷ ms) = do
  e ← is_empty_dir m
  claim_full m (λ more. collect_full next more ms) full e

-- The other reservations, whose removal may fail.
unfoldable pub sweep : String → List String → M Recovered
sweep displaced [] = pure fine
sweep displaced (m ∷ ms) =
    if m == displaced
    then sweep displaced ms
    else (do _ ← perform (remove_dir m); sweep displaced ms)

module _ (target : String) where
  abbrev pub after_sync : String → List String → Option Errno → M Recovered
  after_sync displaced ours (some e) = pure broken
  after_sync displaced ours none = do _ ← perform (set_mark target false); sweep displaced ours

  abbrev pub after_return : String → List String → Option Errno → M Recovered
  after_return displaced ours (some e) = pure broken
  after_return displaced ours none = do s ← perform inl; after_sync displaced ours s

  -- The displaced directory becomes the volume again.
  unfoldable pub put_back : String → List String → M Recovered
  put_back displaced ours = do r ← perform (rename displaced target); after_return displaced ours r

  abbrev pub choose_full : String → List String → List String → M Recovered
  choose_full first ours [] = put_back first ours
  choose_full first ours (m ∷ []) = put_back m ours
  choose_full first ours (m ∷ k ∷ full) = pure broken

  -- One candidate is taken as it is; of several, the one that holds data.
  abbrev pub choose : List String → M Recovered
  choose [] = pure fine
  choose (m ∷ []) = put_back m (m ∷ [])
  choose (m ∷ k ∷ ours) = collect_full (choose_full m (m ∷ k ∷ ours)) [] (m ∷ k ∷ ours)

  abbrev pub by_presence : List String → Bool ⊎ Errno → M Recovered
  by_presence matches (inl true) = reap matches
  by_presence matches (inl false) = collect_ours choose [] matches
  by_presence matches (inr enoent) = collect_ours choose [] matches
  by_presence matches (inr e) = reap matches

  abbrev pub with_matches : List String ⊎ Errno → M Recovered
  with_matches (inr e) = if is_permission e then pure fine else pure broken
  with_matches (inl []) = pure fine
  with_matches (inl (m ∷ ms)) = do
    present ← ask (λ disk. is_some (get disk target))
    by_presence (m ∷ ms) present

  unfoldable pub recover_interrupted_swap : M Recovered
  recover_interrupted_swap = do
    matches ← siblings_with_prefix target old_prefix
    with_matches matches
