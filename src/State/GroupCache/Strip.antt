-- ===== src/State/GroupCache/Strip.antt =====
-- `StripUndumpableDatabases` of internal/state/groupcache.go. The callback only logs.
use mathlib.Core.List.{append-nil}
use mathlib.Core.Path.{ap₂}
use borgmatic_manager.Prelude.{
  String, ◌≡◌, refl, sym, ap, ◌∙◌, Bool, true, false, not, ◌&&◌, ◌||◌, Option, some, List, [], ◌∷◌,
  ◌++◌, map, arith, eq_iff, eq_refl, if◌then◌else◌, get_or, is_some, is_empty, keep, contains,
  Bool-cases, inl, inr,
}
use borgmatic_manager.GoTime.{Time}
use borgmatic_manager.GoMap.{GoMap, IsMap, get, update_each, get-update_each}
use borgmatic_manager.Models.{DatabaseConfig, VolumeGroup, BackupState}
use borgmatic_manager.State.GroupCache.{
  CachedGroup, zero_cached_group, db_key, Offline, Merged, merge_databases, merge_group,
  live_databases,
}
use borgmatic_manager.State.GroupCache.Merge.{some_or_nil}
use borgmatic_manager.State.GroupCache.Reconcile.{view_of, reconcile_all}
use borgmatic_manager.State.GroupCache.Reconcile.Groups.{
  Slot, slot, no_slot, placed, merged_at, slot-reconcile_all, reconcile_all_groups-IsMap,
}

unfoldable pub strip_group : List String → VolumeGroup → VolumeGroup
strip_group offset g =
    if is_empty offset
    then g
    else record g { databases = keep (λ db. not (contains offset (db_key db))) g.databases }

unfoldable pub strip_undumpable : Offline → GoMap VolumeGroup → GoMap VolumeGroup
strip_undumpable o = update_each (λ name g. some (strip_group (get_or [] (get o.databases name)) g))

module _ (taken : List String) where
  abbrev free : DatabaseConfig → Bool
  free db = not (contains taken (db_key db))

  -- The databases whose keys are free have no taken key.
  keys-free :
      (dbs : List DatabaseConfig) (k : String)
      → contains taken k ≡ true
      → contains (map db_key (keep free dbs)) k ≡ false
  keys-free [] k h = refl
  keys-free (db ∷ dbs) k h = ground (arith, eq_iff (db_key db) k, keys-free dbs k h)

keep-append {ℓ} :
    {A : Type ℓ} (p : A → Bool) (xs ys : List A) → keep p (xs ++ ys) ≡ keep p xs ++ keep p ys
keep-append p [] ys = refl
keep-append p (x ∷ xs) ys = ground (arith, keep-append p xs ys)

module _ (offset : List String) where
  keep_all :
      (dbs : List DatabaseConfig)
      → ((k : String) → contains (map db_key dbs) k ≡ true → contains offset k ≡ false)
      → keep (free offset) dbs ≡ dbs
  keep_all [] h = refl
  keep_all (db ∷ dbs) h =
      ground (arith, eq_refl (db_key db), h (db_key db), keep_all dbs (λ k e. h k (ground arith)))

  keep_none :
      (dbs : List DatabaseConfig)
      → ((k : String) → contains (map db_key dbs) k ≡ true → contains offset k ≡ true)
      → keep (free offset) dbs ≡ []
  keep_none [] h = refl
  keep_none (db ∷ dbs) h =
      ground (arith, eq_refl (db_key db), h (db_key db), keep_none dbs (λ k e. h k (ground arith)))

module _ (live cached : List DatabaseConfig) where
  abbrev standing : List DatabaseConfig
  standing = keep (free (map db_key live)) cached

  stripped_merge :
      keep (free (merge_databases live cached).1) (merge_databases live cached).0 ≡ live
  unfolding merge_databases
  stripped_merge =
      keep-append (free (map db_key standing)) live standing
      ∙ ap₂ ◌++◌
          (keep_all (map db_key standing) live (λ k e. keys-free (map db_key live) cached k e))
          (keep_none (map db_key standing) standing (λ k e. e))
      ∙ append-nil live

strip_group-keep :
    (offset : List String) (g : VolumeGroup)
    → strip_group offset g ≡ record g { databases = keep (free offset) g.databases }
unfolding strip_group
strip_group-keep [] g =
    ap (λ (dbs : List DatabaseConfig). record g { databases = dbs })
      (sym (keep_all [] g.databases (λ k e. refl)))
strip_group-keep (x ∷ offset) g = refl

placed_parts :
    (m : Merged) (known : Bool) (s : Slot) (g : VolumeGroup)
    → s ≡ (if known then placed m else no_slot)
    → s.merged ≡ some g
    → (g.databases ≡ m.entry.databases) × (get_or [] s.off_databases ≡ m.offline_databases)
placed_parts m false s g e has = absurd (ground arith)
placed_parts m true s g e has =
    elim (Bool-cases (is_empty m.entry.volumes && is_empty m.entry.databases)) [
      | inl nothing ↦ absurd (ground arith)
      | inr something ↦ (ground arith, ground (arith, some_or_nil m.offline_databases))
    ]

stripped_group :
    (path_exists : String → Bool) (now : Time) (live : BackupState) (name : String)
    (cached : Option CachedGroup)
    → keep
        (free (merged_at path_exists now live name cached).offline_databases)
        (merged_at path_exists now live name cached).entry.databases
      ≡ live_databases (get live.groups name)
unfolding merge_group view_of
stripped_group path_exists now live name cached =
    stripped_merge (live_databases (get live.groups name))
      (get_or zero_cached_group cached).databases

-- After the cached members are merged in, and the databases without a container are stripped again,
-- a group that is left in the merged state has exactly the databases that discovery found: no dump
-- is attempted in a namespace that is gone, and no dump that can be taken is lost. Its volumes stay
-- merged.
pub dumped_databases_live :
    (path_exists : String → Bool) (now : Time) (live : BackupState) (cache : GoMap CachedGroup)
    (name : String) (g : VolumeGroup)
    → IsMap cache
    → IsMap live.groups
    → get (reconcile_all path_exists now live cache).groups name ≡ some g
    → get
        (strip_undumpable
          (reconcile_all path_exists now live cache).off
          (reconcile_all path_exists now live cache).groups)
        name
      ≡ some (record g { databases = live_databases (get live.groups name) })
unfolding strip_undumpable
dumped_databases_live path_exists now live cache name g mc ml has =
    let c = reconcile_all path_exists now live cache in
    get-update_each (λ j h. some (strip_group (get_or [] (get c.off.databases j)) h)) c.groups name
      (reconcile_all_groups-IsMap path_exists now live cache)
    ∙ rw has (
        ap some (
          strip_group-keep (get_or [] (get c.off.databases name)) g
          ∙ ap (λ (dbs : List DatabaseConfig). record g { databases = dbs })
              (rw (parts.0, parts.1) (stripped_group path_exists now live name (get cache name)))))
  where
    parts :
        (g.databases ≡ (merged_at path_exists now live name (get cache name)).entry.databases)
        × (get_or [] (get (reconcile_all path_exists now live cache).off.databases name)
            ≡ (merged_at path_exists now live name (get cache name)).offline_databases)
    parts =
        placed_parts (merged_at path_exists now live name (get cache name))
          (is_some (get cache name) || is_some (get live.groups name))
          (slot (reconcile_all path_exists now live cache) name) g
          (slot-reconcile_all path_exists now live cache name mc ml) has
