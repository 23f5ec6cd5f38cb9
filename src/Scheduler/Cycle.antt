-- ===== src/Scheduler/Cycle.antt =====
-- `RunCycle` of internal/scheduler/scheduler.go, up to the round of its groups. The discovery, the
-- pre-run check and the generation are inputs; the observers only read. The group cache of the
-- scheduler is its view and its file.
pub mod Planned
pub mod Stopped
use borgmatic_manager.Prelude.{
  String, Bool, true, false, Option, none, some, List, [], if◌then◌else◌,
}
use borgmatic_manager.GoTime.{Time, Duration, zero_time, add}
use borgmatic_manager.GoMap.{GoMap}
use borgmatic_manager.Models.{BackupState}
use borgmatic_manager.State.Store.{Disk, Faults, ScheduleStore, reload}
use borgmatic_manager.State.GroupCache.{CachedGroup, Offline}
use borgmatic_manager.State.GroupCache.Reconcile.{CacheDisk, Outcome, reconcile}
use borgmatic_manager.State.GroupCache.Strip.{strip_undumpable}
use borgmatic_manager.Scheduler.{Scheduler, pre_run_retry_interval}
use borgmatic_manager.Scheduler.Round.{Plan}

pub record Daemon : Type 0 where
  pub scheduler : Scheduler
  pub disk : Disk
  -- `cache`: nil, or what it holds.
  pub cache : Option (GoMap CachedGroup)
  pub cache_disk : CacheDisk

-- What one cycle meets.
pub record World : Type 0 where
  pub now : Time
  pub reload_fails : Bool
  pub discovered : Option BackupState
  pub cache_faults : Faults
  pub path_exists : String → Bool
  -- `preRunCheck`: nil, or whether a state passes.
  pub pre_run_check : Option (BackupState → Bool)
  pub generate : BackupState → Option (List String)
  pub file_periods : GoMap Duration
  pub digest : String → String

pub data CycleEnd : Type 0 where
  discovery_failed check_failed generation_failed : CycleEnd
  runs : Plan → CycleEnd

unfoldable pub reloaded : World → Daemon → Daemon
reloaded w d = elim d.scheduler.store [
  | none ↦ d
  | some store ↦ record d {
    scheduler = record d.scheduler { store = some (reload w.reload_fails d.disk) };
  }
]

-- The state to back up, after the cache has been merged in and stripped again.
unfoldable pub with_cache : World → BackupState → Daemon → Daemon × BackupState
with_cache w live d = elim d.cache [
  | none ↦ (d, live)
  | some view ↦
      let o = reconcile w.cache_faults w.path_exists w.now live view d.cache_disk in
      (
        record d { cache = some o.view; cache_disk = o.disk },
        record o.merged { groups = strip_undumpable o.off o.merged.groups },
      )
]

-- The end of the cycle from what the generation returns.
unfoldable pub plan_for : World → BackupState → Option (List String) → CycleEnd
plan_for w state none = generation_failed
plan_for w state (some names) = runs (record {
  groups = state.groups;
  generated = names;
  file_periods = w.file_periods;
  digest = w.digest;
  now = w.now;
})

unfoldable pub generated_plan : World → BackupState → CycleEnd
generated_plan w state = plan_for w state (w.generate state)

unfoldable pub with_retry : Time → Daemon → Daemon
with_retry t d = record d { scheduler = record d.scheduler { pre_run_retry = t } }

-- The gate before the generation; `none` is no check.
unfoldable pub gate : World → BackupState → Daemon → Option (BackupState → Bool) → Daemon × CycleEnd
gate w state d none = (d, generated_plan w state)
gate w state d (some passes) =
    if passes state
    then (with_retry zero_time d, generated_plan w state)
    else (with_retry (add w.now pre_run_retry_interval) d, check_failed)

unfoldable pub after_discovery : World → Daemon → Option BackupState → Daemon × CycleEnd
after_discovery w d none = (d, discovery_failed)
after_discovery w d (some live) =
    let (d', state) = with_cache w live d in gate w state d' w.pre_run_check

unfoldable pub begin_cycle : World → Daemon → Daemon × CycleEnd
begin_cycle w d = after_discovery w (reloaded w d) w.discovered
