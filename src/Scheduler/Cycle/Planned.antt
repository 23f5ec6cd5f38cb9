-- ===== src/Scheduler/Cycle/Planned.antt =====
-- What a cycle plans to back up.
use borgmatic_manager.Prelude.{
  String, ◌≡◌, refl, sym, ap, ◌∙◌, subst, Bool, true, false, Option, none, some, List, [], get_or,
  bind, Bool-cases, Option-cases, inl, inr,
}
use borgmatic_manager.GoMap.{GoMap, IsMap, get, get-update_each, get-update_each_missing}
use borgmatic_manager.Models.{VolumeGroup, BackupState}
use borgmatic_manager.State.GroupCache.{CachedGroup, live_databases, Offline, new_offline}
use borgmatic_manager.State.GroupCache.Reconcile.{
  CacheDisk, reconcile, read_cache, live_only, merged_outcome, reconcile_all,
}
use borgmatic_manager.State.GroupCache.Strip.{strip_group, strip_undumpable, dumped_databases_live}
use borgmatic_manager.Scheduler.Round.{Plan}
use borgmatic_manager.Scheduler.Cycle.{
  Daemon, World, CycleEnd, runs, reloaded, with_cache, plan_for, generated_plan, gate,
  after_discovery, begin_cycle,
}

-- The cache file, if it is there, has no group twice.
abbrev pub IsCacheMap : CacheDisk → Type 0
IsCacheMap (CacheDisk.saved groups) = IsMap (get_or [] groups)
IsCacheMap _ = Unit

strip_missing :
    (o : Offline) (groups : GoMap VolumeGroup) (name : String)
    → get groups name ≡ none
    → get (strip_undumpable o groups) name ≡ none
unfolding strip_undumpable
strip_missing o groups name h = get-update_each_missing _ groups name h

-- Each group has the databases that the live state has for it.
abbrev HasLiveDatabases : BackupState → BackupState → Type 0
HasLiveDatabases live state =
    (name : String) (g : VolumeGroup)
    → get state.groups name ≡ some g
    → g.databases ≡ live_databases (get live.groups name)

live-HasLiveDatabases : (live : BackupState) → HasLiveDatabases live live
live-HasLiveDatabases live name g has = rw has refl

read_cache-IsMap :
    (fails : Bool) (d : CacheDisk) (cache : GoMap CachedGroup)
    → IsCacheMap d
    → read_cache fails d ≡ some cache
    → IsMap cache
unfolding read_cache
read_cache-IsMap true d cache m h = cc
read_cache-IsMap false CacheDisk.missing cache m h = subst IsMap (ap (get_or []) h) tt
read_cache-IsMap false CacheDisk.corrupt cache m h = subst IsMap (ap (get_or []) h) tt
read_cache-IsMap false (CacheDisk.saved groups) cache m h = subst IsMap (ap (get_or []) h) m

no_value : {A P : Type 0} {o : Option A} {a : A} → o ≡ none → o ≡ some a → P
no_value h k = cc

same_value : {A : Type 0} {o : Option A} {a b : A} → o ≡ some a → o ≡ some b → a ≡ b
same_value {a} h k = ap (get_or a) (sym h ∙ k)

module _ (w : World) (live : BackupState) (ml : IsMap live.groups) where
  unstripped :
      HasLiveDatabases live (record live { groups = strip_undumpable new_offline live.groups })
  unfolding strip_undumpable strip_group get
  unstripped name g has =
      let law = get-update_each (λ j h. some (strip_group [] h)) live.groups name ml in
      elim (Option-cases (get live.groups name)) [
        | inl unknown ↦ no_value (law ∙ rw unknown refl) has
        | inr (g', had) ↦
            let kept : get (strip_undumpable new_offline live.groups) name ≡ some g' =
              law ∙ ap (λ o. bind o (λ h. some (strip_group [] h))) had in
            rw had (ap (λ (x : VolumeGroup). x.databases) (same_value has kept))
      ]

  merged-HasLiveDatabases :
      (cache : GoMap CachedGroup)
      → IsMap cache
      → HasLiveDatabases live (record live {
        groups =
            strip_undumpable
              (reconcile_all w.path_exists w.now live cache).off
              (reconcile_all w.path_exists w.now live cache).groups;
      })
  merged-HasLiveDatabases cache mc name g has =
      let groups = (reconcile_all w.path_exists w.now live cache).groups in
      elim (Option-cases (get groups name)) [
        | inl unknown ↦ no_value (strip_missing _ groups name unknown) has
        | inr (g', had) ↦
            ap (λ (x : VolumeGroup). x.databases)
              (same_value has
                (dumped_databases_live w.path_exists w.now live cache name g' mc ml had))
      ]

  cached-HasLiveDatabases :
      (view : GoMap CachedGroup) (d : CacheDisk)
      → IsCacheMap d
      → HasLiveDatabases live
          (record (reconcile w.cache_faults w.path_exists w.now live view d).merged {
            groups =
                strip_undumpable
                  (reconcile w.cache_faults w.path_exists w.now live view d).off
                  (reconcile w.cache_faults w.path_exists w.now live view d).merged.groups;
          })
  unfolding reconcile live_only merged_outcome
  cached-HasLiveDatabases view d m = elim (Bool-cases w.cache_faults.lock_fails) [
    | inl busy ↦ rw busy unstripped
    | inr free ↦ rw free (elim (Option-cases (read_cache w.cache_faults.read_fails d)) [
      | inl unread ↦ rw unread unstripped
      | inr (cache, had) ↦
          rw had (
            merged-HasLiveDatabases cache
              (read_cache-IsMap w.cache_faults.read_fails d cache m had))
    ])
  ]

  with_cache-HasLiveDatabases :
      (d : Daemon) → IsCacheMap d.cache_disk → HasLiveDatabases live (with_cache w live d).1
  unfolding with_cache
  with_cache-HasLiveDatabases d m = elim (Option-cases d.cache) [
    | inl uncached ↦ rw uncached (live-HasLiveDatabases live)
    | inr (view, had) ↦ rw had (cached-HasLiveDatabases view d.cache_disk m)
  ]

-- The state that the plan of a cycle takes its groups from.
abbrev PlanOf : BackupState → CycleEnd → Type 0
PlanOf state (runs p) = p.groups ≡ state.groups
PlanOf state _ = Unit

plan_for-PlanOf :
    (w : World) (state : BackupState) (o : Option (List String)) → PlanOf state (plan_for w state o)
unfolding plan_for
plan_for-PlanOf w state none = tt
plan_for-PlanOf w state (some names) = refl

gate-PlanOf :
    (w : World) (state : BackupState) (d : Daemon) (check : Option (BackupState → Bool))
    → PlanOf state (gate w state d check).1
unfolding gate generated_plan
gate-PlanOf w state d none = plan_for-PlanOf w state (w.generate state)
gate-PlanOf w state d (some passes) = elim (Bool-cases (passes state)) [
  | inl good ↦ rw good (plan_for-PlanOf w state (w.generate state))
  | inr bad ↦ rw bad tt
]

reloaded-cache : (w : World) (d : Daemon) → (reloaded w d).cache_disk ≡ d.cache_disk
unfolding reloaded
reloaded-cache w d = elim (Option-cases d.scheduler.store) [
  | inl unset ↦ rw unset refl
  | inr (store, set) ↦ rw set refl
]

-- Whatever a cycle meets, with a cache or without and if the cache cannot be locked or read, each
-- group that it plans to run has exactly the databases that discovery found for it, if discovery and
-- the cache file have no group twice.
pub planned_databases_live :
    (w : World) (d : Daemon) (live : BackupState) (p : Plan) (name : String) (g : VolumeGroup)
    → w.discovered ≡ some live
    → IsMap live.groups
    → IsCacheMap d.cache_disk
    → (begin_cycle w d).1 ≡ runs p
    → get p.groups name ≡ some g
    → g.databases ≡ live_databases (get live.groups name)
unfolding begin_cycle after_discovery
planned_databases_live w d live p name g found ml mc planned has =
    let (d', state) = with_cache w live (reloaded w d) in
    let gated : (gate w state d' w.pre_run_check).1 ≡ runs p =
      ap (λ o. (after_discovery w (reloaded w d) o).1) (sym found) ∙ planned in
    let same : p.groups ≡ state.groups =
      subst (PlanOf state) gated (gate-PlanOf w state d' w.pre_run_check) in
    with_cache-HasLiveDatabases w live ml (reloaded w d) (rw (reloaded-cache w d) mc) name g
      (rw same at has)
