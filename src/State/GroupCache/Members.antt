-- ===== src/State/GroupCache/Members.antt =====
-- What a cycle keeps, and what it drops, of a group's volumes.
pub mod Survival
use borgmatic_manager.Prelude.{
  String, ◌≡◌, refl, sym, ap, ◌∙◌, Bool, true, false, not, ◌&&◌, ◌||◌, Option, none, some, List, [],
  ◌∷◌, ◌++◌, map, foldl, arith, ◌==◌, eq_iff, eq_refl, if◌then◌else◌, get_or, is_some, is_empty,
  keep, all, any, contains, Bool-cases, Option-cases, inl, inr,
}
use borgmatic_manager.GoTime.{Time}
use borgmatic_manager.GoMap.{GoMap, IsMap, get}
use borgmatic_manager.Config.Value.{Fields}
use borgmatic_manager.Models.{VolumeInfo, DatabaseConfig, VolumeGroup, BackupState}
use borgmatic_manager.State.GroupCache.{
  CachedGroup, zero_cached_group, db_key, volume_names, merge_volumes, merge_databases,
  claimers_all_present, deselected_in, GroupView, merge_group, live_volumes,
}
use borgmatic_manager.State.GroupCache.Merge.{claimers, holds, stands, merge_volumes_members}
use borgmatic_manager.State.GroupCache.Reconcile.{view_of, reconcile_all}
use borgmatic_manager.State.GroupCache.Reconcile.Groups.{
  Slot, slot, placed, merged_at, slot-reconcile_all,
}

is_empty-append {ℓ} :
    {A : Type ℓ} (xs ys : List A) → is_empty (xs ++ ys) ≡ (is_empty xs && is_empty ys)
is_empty-append [] ys = refl
is_empty-append (x ∷ xs) ys = refl

not-holds :
    (p : VolumeInfo → Bool) (vols : List VolumeInfo) (name : String)
    → ((v : VolumeInfo) → v.name ≡ name → p v ≡ false)
    → holds p vols name ≡ false
not-holds p [] name h = refl
not-holds p (v ∷ vols) name h = ground (arith, eq_iff v.name name, h v, not-holds p vols name h)

module _ (path_exists : String → Bool) (now : Time) (live : BackupState) (cache : GoMap CachedGroup)
    (mc : IsMap cache) (ml : IsMap live.groups) (name : String) where
  -- A group that discovery found, with at least one member, keeps all of its live volumes and
  -- databases in the merged state, first and in order, with the configuration and the period of the
  -- live containers; the cache can only add members.
  pub live_members_kept :
      (g : VolumeGroup)
      → get live.groups name ≡ some g
      → (is_empty g.volumes && is_empty g.databases) ≡ false
      → (vs : List VolumeInfo) × (ds : List DatabaseConfig) × (get
            (reconcile_all path_exists now live cache).groups
            name
          ≡ some (record g { volumes = g.volumes ++ vs; databases = g.databases ++ ds }))
  unfolding merge_group merge_volumes merge_databases view_of
  live_members_kept g found some_member =
      let cached = get_or zero_cached_group (get cache name) in
      let off =
        deselected_in (get_or [] (get live.claims name)) cached.volume_claims live.containers in
      let vs = keep (stands g.volumes cached.volumes path_exists off name) cached.volumes in
      let ds =
        keep (λ (db : DatabaseConfig). not (contains (map db_key g.databases) (db_key db)))
          cached.databases in
      let known : (is_some (get cache name) || is_some (get live.groups name)) ≡ true =
        ground arith in
      let some_left : (is_empty (g.volumes ++ vs) && is_empty (g.databases ++ ds)) ≡ false =
        ground (arith, is_empty-append g.volumes vs, is_empty-append g.databases ds) in
      (
        vs,
        ds,
        ap (λ (s : Slot). s.merged) (slot-reconcile_all path_exists now live cache name mc ml)
            ∙ rw known (rw found (rw some_left refl)),
      )

  -- A volume that no live container claims in the group, and whose claimers of the last cycle were
  -- there and are all still there, has been deselected: it is in the merged group only if a live
  -- member has it, even if its path still exists.
  pub deselected_dropped :
      (volume : String)
      → is_empty (get_or [] (get (get_or [] (get live.claims name)) volume)) ≡ true
      → claimers_all_present
          (claimers (get_or zero_cached_group (get cache name)).volume_claims volume)
          live.containers
        ≡ true
      → contains
          (volume_names (merged_at path_exists now live name (get cache name)).entry.volumes)
          volume
        ≡ contains (volume_names (live_volumes (get live.groups name))) volume
  unfolding merge_group view_of
  deselected_dropped volume unclaimed all_here =
      let cached = get_or zero_cached_group (get cache name) in
      let off =
        deselected_in (get_or [] (get live.claims name)) cached.volume_claims live.containers in
      let gone : off volume ≡ true = unfold deselected_in in ground arith in
      let vols = live_volumes (get live.groups name) in
      let none_stands : holds (stands vols cached.volumes path_exists off volume) cached.volumes
            volume
          ≡ false =
        not-holds _ cached.volumes volume (λ v e. rw e (rw gone (ground arith))) in
      (merge_volumes_members vols cached.volumes path_exists off volume).0
      ∙ rw none_stands (ground arith)
