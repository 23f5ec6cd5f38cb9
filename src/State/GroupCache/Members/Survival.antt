-- ===== src/State/GroupCache/Members/Survival.antt =====
-- Volumes of containers that are stopped or removed, over any number of cycles.
use borgmatic_manager.Prelude.{
  String, ◌≡◌, refl, ap, ◌∙◌, Bool, true, false, ◌&&◌, Option, none, some, List, [], ◌∷◌, ◌++◌,
  foldl, arith, eq_iff, get_or, is_empty, all, contains, Bool-cases, inl, inr, if_both, All,
}
use borgmatic_manager.GoTime.{Time}
use borgmatic_manager.GoMap.{
  GoMap, IsMap, get, put, remove, get-remove, put-IsMap, remove-IsMap, update_each-IsMap,
}
use borgmatic_manager.Models.{VolumeInfo, BackupState}
use borgmatic_manager.State.GroupCache.{
  CachedGroup, zero_cached_group, volume_names, merge_volumes, claimers_all_present, deselected_in,
  GroupView, Merged, merge_group, live_volumes, is_absent, add_claimer, add_claimers,
  standing_claims, merge_claims, drop_claims,
}
use borgmatic_manager.State.GroupCache.Merge.{
  claimers, holds, merge_volumes_members, merge_claims_members,
}
use borgmatic_manager.State.GroupCache.Reconcile.{
  Cycle, view_of, place, reconcile_group, reconcile_all, all_names,
}
use borgmatic_manager.State.GroupCache.Reconcile.Groups.{Slot, slot-reconcile_all}

claimers-drop_claims :
    (vols cached : List VolumeInfo) (claims : GoMap (List String)) (volume : String)
    → contains (volume_names vols) volume ≡ true
    → claimers (drop_claims vols cached claims) volume ≡ claimers claims volume
unfolding drop_claims
claimers-drop_claims vols [] claims volume h = refl
claimers-drop_claims vols (v ∷ cached) claims volume h =
    elim (Bool-cases (contains (volume_names vols) v.name)) [
      | inl stays ↦ rw stays (claimers-drop_claims vols cached claims volume h)
      | inr goes ↦
          let same : get (remove claims v.name) volume ≡ get claims volume =
            ground (arith, eq_iff v.name volume, get-remove claims v.name volume) in
          rw goes
            (claimers-drop_claims vols cached (remove claims v.name) volume h ∙ ap (get_or []) same)
    ]

drop_claims-IsMap :
    (vols cached : List VolumeInfo) (claims : GoMap (List String))
    → IsMap claims
    → IsMap (drop_claims vols cached claims)
unfolding drop_claims
drop_claims-IsMap vols [] claims m = m
drop_claims-IsMap vols (v ∷ cached) claims m = drop_claims-IsMap vols cached _ (
    if_both IsMap (contains (volume_names vols) v.name) claims (remove claims v.name) m
      (remove-IsMap claims v.name m))

add_claimers-IsMap :
    (out : GoMap (List String)) (vol : String) (cs : List String)
    → IsMap out
    → IsMap (foldl (add_claimer vol) out cs)
unfolding add_claimer
add_claimers-IsMap out vol [] m = m
add_claimers-IsMap out vol (c ∷ cs) m = add_claimers-IsMap (add_claimer vol out c) vol cs (
    if_both IsMap (contains (claimers out vol) c) out (put out vol (claimers out vol ++ c ∷ [])) m
      (put-IsMap out vol (claimers out vol ++ c ∷ []) m))

merge_claims-IsMap :
    (live cached : GoMap (List String)) (present : Option (List String))
    → IsMap cached
    → IsMap (merge_claims live cached present)
unfolding merge_claims standing_claims add_claimers
merge_claims-IsMap live cached present m = loop _ live (update_each-IsMap _ cached m)
  where
    loop : (out live : GoMap (List String)) → IsMap out → IsMap (foldl add_claimers out live)
    loop out [] m = m
    loop out ((vol, cs) ∷ rest) m =
        loop (foldl (add_claimer vol) out cs) rest (add_claimers-IsMap out vol cs m)

holds_of :
    (p : VolumeInfo → Bool) (vols : List VolumeInfo) (name : String)
    → ((v : VolumeInfo) → v.name ≡ name → p v ≡ true)
    → contains (volume_names vols) name ≡ true
    → holds p vols name ≡ true
holds_of p [] name h c = cc
holds_of p (v ∷ vols) name h c = ground (arith, eq_iff v.name name, h v, holds_of p vols name h)

all-false :
    (p : String → Bool) (xs : List String) (c : String)
    → contains xs c ≡ true
    → p c ≡ false
    → all p xs ≡ false
all-false p [] c h e = cc
all-false p (x ∷ xs) c h e = ground (arith, eq_iff x c, all-false p xs c)

-- A claimer that is gone keeps its volumes from being deselected.
not-deselected :
    (live cached : GoMap (List String)) (present : Option (List String)) (volume c : String)
    → contains (claimers cached volume) c ≡ true
    → is_absent present c ≡ true
    → deselected_in live cached present volume ≡ false
unfolding deselected_in claimers_all_present is_absent
not-deselected live cached none volume c h gone = ground arith
not-deselected live cached (some names) volume c h gone =
    ground (arith, all-false (contains names) (claimers cached volume) c)

-- The group has the volume, and the container is among its claimers.
pub record Claimed (container volume : String) (g : CachedGroup) : Type 0 where
  pub distinct : IsMap g.volume_claims
  pub kept : contains (volume_names g.volumes) volume ≡ true
  pub claimed : contains (claimers g.volume_claims volume) container ≡ true

-- Discovery lists the containers without this one, or cannot list them.
pub record Without (container name : String) (live : BackupState) : Type 0 where
  pub gone : is_absent live.containers container ≡ true
  pub claims_distinct : IsMap (get_or [] (get live.claims name))
  pub groups_distinct : IsMap live.groups

-- The cache after a sequence of cycles, each with its time and what discovery found.
unfoldable pub run_cycles :
    (String → Bool) → GoMap CachedGroup → List (Time × BackupState) → GoMap CachedGroup
run_cycles path_exists cache [] = cache
run_cycles path_exists cache ((now, live) ∷ rest) =
    run_cycles path_exists (reconcile_all path_exists now live cache).cache rest

abbrev AllWithout : String → String → List (Time × BackupState) → Type 0
AllWithout container name = All (λ e. Without container name e.1)

place-IsMap :
    (name : String) (m : Merged) (c : Cycle) → IsMap c.cache → IsMap (place name m c).cache
unfolding place
place-IsMap name m c d =
    elim (Bool-cases (is_empty m.entry.volumes && is_empty m.entry.databases)) [
      | inl nothing ↦ rw nothing (remove-IsMap c.cache name d)
      | inr something ↦ rw something (put-IsMap c.cache name m.entry d)
    ]

reconcile_all-IsMap :
    (path_exists : String → Bool) (now : Time) (live : BackupState) (cache : GoMap CachedGroup)
    → IsMap cache
    → IsMap (reconcile_all path_exists now live cache).cache
unfolding reconcile_all reconcile_group
reconcile_all-IsMap path_exists now live cache d = loop (all_names cache live.groups) _ d
  where
    loop :
        (names : List String) (c : Cycle)
        → IsMap c.cache
        → IsMap (foldl (reconcile_group path_exists now live) c names).cache
    loop [] c d = d
    loop (name ∷ names) c d =
        loop names (reconcile_group path_exists now live c name) (place-IsMap name _ c d)

module _ (path_exists : String → Bool) (on_disk : (p : String) → path_exists p ≡ true)
    (container volume : String) where
  still_here :
      (now : Time) (view : GroupView) (g : CachedGroup)
      → is_absent view.containers container ≡ true
      → IsMap view.claims
      → Claimed container volume g
      → Claimed container volume (merge_group path_exists now view g).entry
  unfolding merge_group
  still_here now view g gone m k =
      let vols = live_volumes view.live in
      let off = deselected_in view.claims g.volume_claims view.containers in
      let wanted : off volume ≡ false =
        not-deselected view.claims g.volume_claims view.containers volume container k.claimed
          gone in
      let merged = (merge_volumes vols g.volumes path_exists off).0 in
      let held : contains (volume_names merged) volume ≡ true =
        (merge_volumes_members vols g.volumes path_exists off volume).0
        ∙ elim (Bool-cases (contains (volume_names vols) volume)) [
          | inl live ↦ rw live refl
          | inr cached ↦ rw cached (
              holds_of _ g.volumes volume
                (λ v e. rw e (rw (cached, wanted) (rw (on_disk v.host_path) refl))) k.kept)
        ] in
      record {
        distinct =
            drop_claims-IsMap merged g.volumes _
              (merge_claims-IsMap view.claims g.volume_claims view.containers k.distinct);
        kept = held;
        claimed =
            rw
              (claimers-drop_claims merged g.volumes
                (merge_claims view.claims g.volume_claims view.containers) volume held)
              (merge_claims_members view.claims g.volume_claims view.containers volume container m
                  k.distinct
                ∙ rw (k.claimed, gone) (ground arith));
      }

  Cached : String → GoMap CachedGroup → Type 0
  Cached name cache = (g : CachedGroup) × (get cache name ≡ some g) × Claimed container volume g

  one_cycle :
      (now : Time) (live : BackupState) (name : String) (cache : GoMap CachedGroup)
      → IsMap cache
      → Without container name live
      → Cached name cache
      → Cached name (reconcile_all path_exists now live cache).cache
  unfolding Cached view_of
  one_cycle now live name cache d w (g, had, k) =
      let m = merge_group path_exists now (view_of live name) g in
      let next : Claimed container volume m.entry =
        still_here now (view_of live name) g w.gone w.claims_distinct k in
      let filled : (is_empty m.entry.volumes && is_empty m.entry.databases) ≡ false =
        ground (arith, next.kept) in
      (
        m.entry,
        ap (λ (s : Slot). s.cached)
              (slot-reconcile_all path_exists now live cache name d w.groups_distinct)
            ∙ rw had (rw filled refl),
        next,
      )

  all_cycles :
      (name : String) (cache : GoMap CachedGroup) (lives : List (Time × BackupState))
      → IsMap cache
      → AllWithout container name lives
      → Cached name cache
      → Cached name (run_cycles path_exists cache lives)
  unfolding run_cycles
  all_cycles name cache [] d w k = k
  all_cycles name cache ((now, live) ∷ rest) d w k =
      all_cycles name (reconcile_all path_exists now live cache).cache rest
        (reconcile_all-IsMap path_exists now live cache d) w.1
        (one_cycle now live name cache d w.0 k)

  -- If no path ever disappears, a volume that a container claimed stays in the cached group however
  -- many cycles go by in which that container is gone, whatever else discovery finds in them: the
  -- backup set does not shrink because a container was stopped or removed.
  pub volume_outlives_container :
      (name : String) (cache : GoMap CachedGroup) (g : CachedGroup)
      (lives : List (Time × BackupState))
      → IsMap cache
      → get cache name ≡ some g
      → Claimed container volume g
      → All (λ e. Without container name e.1) lives
      → contains
          (volume_names
            (get_or zero_cached_group (get (run_cycles path_exists cache lives) name)).volumes)
          volume
        ≡ true
  unfolding Cached
  volume_outlives_container name cache g lives d had k w =
      let (g', has, k') = all_cycles name cache lives d w (g, had, k) in rw has k'.kept
