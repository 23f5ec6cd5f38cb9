-- ===== src/Restore/Recovery/Names.antt =====
-- The names that the recovery considers.
use text.Mathlib.TextLemmas.{cons-append, nil-append}
use borgmatic_manager.Prelude.{
  String, Bool, true, false, none, List, [], ◌∷◌, keep, ◌==◌, ◌≡◌, refl, arith, All, All-impl,
  Bool-cases, inl, inr, eq_iff,
}
use borgmatic_manager.GoMap.{keys}
use borgmatic_manager.GoStrings.{plus}
use borgmatic_manager.Scheduler.Fingerprint.{sort_strings}
use borgmatic_manager.Scheduler.Fingerprint.Sorted.{All-sort}
use borgmatic_manager.Restore.Disk.{Disk}
use borgmatic_manager.Restore.Recovery.{cut_prefix, made_by_mkdir_temp, old_prefix}

-- A name is not its own prefix and more.
cut_prefix-longer : (s p : String) → cut_prefix "" p ≡ none → cut_prefix s (plus s p) ≡ none
unfolding cut_prefix
cut_prefix-longer String.[] p e = rw (nil-append p) e
cut_prefix-longer (String.◌∷◌ c s) p e =
    rw (cons-append c s p) (ground (arith, cut_prefix-longer s p e))

no_prefix_left : cut_prefix "" old_prefix ≡ none
unfolding cut_prefix
no_prefix_left = refl

pub own_name_unmade : (target : String) → made_by_mkdir_temp target (plus target old_prefix) ≡ false
unfolding made_by_mkdir_temp
own_name_unmade target = rw (cut_prefix-longer target old_prefix no_prefix_left) refl

All-keep : (p : String → Bool) (ks : List String) → All (λ k. p k ≡ true) (keep p ks)
All-keep p [] = tt
All-keep p (k ∷ ks) = elim (Bool-cases (p k)) [
  | inl kept ↦ rw kept (kept, All-keep p ks)
  | inr dropped ↦ rw dropped (All-keep p ks)
]

-- The volume itself is not among the names.
pub siblings_differ :
    (target : String) (disk : Disk)
    → All
        (λ m. (m == target) ≡ false)
        (sort_strings (keep (λ k. made_by_mkdir_temp k (plus target old_prefix)) (keys disk)))
siblings_differ target disk =
    All-sort (λ m. (m == target) ≡ false) (keep made (keys disk))
      (All-impl (keep made (keys disk)) differs (All-keep made (keys disk)))
  where
    made : String → Bool
    made k = made_by_mkdir_temp k (plus target old_prefix)

    differs : (m : String) → made m ≡ true → (m == target) ≡ false
    differs m e = elim (Bool-cases (m == target)) [
      | inl same ↦ absurd (ground (arith, eq_iff m target, own_name_unmade target))
      | inr other ↦ other
    ]
