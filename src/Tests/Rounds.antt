-- ===== src/Tests/Rounds.antt =====
-- A round of two groups (internal/scheduler/scheduler.go): one is locked by another process.
use borgmatic_manager.Prelude.{arith, ◌≡◌, ◌<◌, ◌⊎◌, refl, ◌*◌, true, false, none, some, [], ◌∷◌}
use borgmatic_manager.Prelude.Int.{pos, ◌+ℤ◌}
use borgmatic_manager.GoTime.{minute, zero_time, add, sub}
use borgmatic_manager.GoMap.{get, put, remove, update_each}
use borgmatic_manager.State.Schedule.{mark_success, succeeded, retain, retain_changes, aged}
use borgmatic_manager.State.Store.{
  missing, ScheduleStore, update, record_of, proceed, commit, read_file, write_file, encode,
}
use borgmatic_manager.State.Store.Survival.{no_faults}
use borgmatic_manager.Scheduler.{Scheduler, lock_retry_interval, due, effective_period, next_wake}
use borgmatic_manager.Scheduler.Wake.{NoLater}
use borgmatic_manager.Scheduler.Fingerprint.{
  group_fingerprint, fingerprint_lines, database_line, sort_strings, insert_sorted, less, join,
}
use borgmatic_manager.Scheduler.Round.{
  Plan, Launch, Attempt, locked_by_another_process, Round, group_due, launch_if_due, plan_group,
  verdict, restore_attempt, note_success, finish_as, finish_group, only_live, start_round,
  choose_group, retain_groups, prune, store_success, forget_retry, returned, finish_one, Chosen,
}
use borgmatic_manager.Scheduler.Round.Steps.{
  Step, plans, launches, finishes, succeeds, forgets, leaves, retains, prunes, returns, Reached,
  start, step,
}
use borgmatic_manager.Scheduler.Round.Finish.{locked_group_retried}
use borgmatic_manager.Scheduler.Round.Live.{wanted, marks_wanted}
use borgmatic_manager.Scheduler.Round.Ending.{remaining, round_returns}
use borgmatic_manager.State.Store.{reload}
use borgmatic_manager.State.GroupCache.{
  db_key, merge_volumes, merge_databases, is_absent, add_claimer, add_claimers, standing_claims,
  merge_claims, claimers_all_present, deselected_in, drop_claims, merge_group, live_databases,
}
use borgmatic_manager.State.GroupCache.Reconcile.{
  CacheDisk, view_of, note_offline, place, reconcile_group, all_names, reconcile_all, read_cache,
  live_only, merged_outcome, reconcile,
}
use borgmatic_manager.State.GroupCache.Strip.{strip_group, strip_undumpable}
use borgmatic_manager.Scheduler.{pre_run_retry_interval}
use borgmatic_manager.Scheduler.Cycle.{
  Daemon, World, runs, reloaded, with_cache, plan_for, generated_plan, with_retry, gate,
  after_discovery, begin_cycle,
}
use borgmatic_manager.Scheduler.Cycle.Planned.{planned_databases_live}
use borgmatic_manager.Scheduler.Cycle.Stopped.{stopped_cycle_retried}
use borgmatic_manager.Tests.Cycles.{
  live, cache, on_disk, logs_volume, data_volume, live-IsMap, cache-IsMap,
}
use borgmatic_manager.Tests.Cycles.{live_group}

cycle_program : Unit {0}
unfolding get put remove update_each reload read_file reloaded with_cache plan_for generated_plan
    with_retry gate after_discovery begin_cycle db_key merge_volumes merge_databases is_absent
    add_claimer add_claimers standing_claims merge_claims claimers_all_present deselected_in
    drop_claims merge_group view_of note_offline place reconcile_group all_names reconcile_all
    read_cache live_only merged_outcome reconcile strip_group strip_undumpable
cycle_program = tt

program : Unit {0}
unfolding get put remove update_each group_due launch_if_due plan_group verdict restore_attempt
    note_success finish_as finish_group only_live choose_group retain_groups prune store_success
    forget_retry start_round finish_one due effective_period mark_success succeeded retain
    retain_changes aged update record_of proceed commit read_file write_file encode
    group_fingerprint fingerprint_lines database_line sort_strings insert_sorted less join ◌+ℤ◌
program = tt

-- The hash is left out: a text stands for itself.
abbrev plan : Plan
plan = record {
  groups =
      ("shop", live_group)
      ∷ ("empty", record { volumes = []; databases = []; label_configs = []; period = pos 0 })
      ∷ [];
  generated = "shop" ∷ [];
  file_periods = [];
  digest = λ s. s;
  now = pos (100 * minute);
}

abbrev nothing_known : ScheduleStore
nothing_known = record { groups = []; pending = [] }

-- `gone` has marks of an earlier cycle.
abbrev scheduler : Scheduler
scheduler = record {
  store = some nothing_known;
  period = pos (60 * minute);
  last_attempt = ("gone", pos (40 * minute)) ∷ [];
  pre_run_retry = zero_time;
  locked_retry = ("gone", pos (101 * minute)) ∷ [];
  group_periods = [];
}

abbrev refused : Attempt
refused = record { acquired = false; started = zero_time; error = some locked_by_another_process }

abbrev launched : Launch
launched = record { group = "shop"; fingerprint = "volume\0logs"; previous = none }

abbrev choice : Chosen
choice = record { name = "shop"; fingerprint = "volume\0logs"; is_due = true }

abbrev planned : Round
planned = launch_if_due plan choice (
    plan_group plan "shop"
      (record (plan_group plan "empty"
        (record (start_round plan scheduler missing) { todo = "shop" ∷ [] })) { todo = [] }))

-- The goroutine finds the group locked before the clean-up begins, and is gone before its end.
abbrev ended : Round
ended =
    let finished = finish_one plan no_faults refused launched [] planned in
    let left : Round = record (retain_groups no_faults [] finished) { leaving = 0; waiting = 0 } in
    record (prune left) { stage = returned }

after_the_round :
    (ended.scheduler.last_attempt ≡ ("shop", pos (100 * minute)) ∷ [])
    × (ended.scheduler.locked_retry ≡ ("shop", pos (105 * minute)) ∷ [])
unfolding program
after_the_round = (refl, refl)

planned_reached : Reached plan scheduler missing planned
unfolding program
planned_reached =
    step (step (step start (plans "empty" ("shop" ∷ []) refl refl)) (plans "shop" [] refl refl))
      (launches choice refl)

ended_reached : Reached plan scheduler missing ended
unfolding program
ended_reached =
    step
      (step
        (step
          (step (step planned_reached (finishes [] [] launched refl no_faults refused refl))
            (retains refl refl refl no_faults []))
          (leaves 0 refl))
        (prunes refl))
      (returns refl refl)

-- A run that succeeds: the store, the retries and the wait group change one after the other.
abbrev worked : Attempt
worked = record { acquired = true; started = pos (101 * minute); error = none }

abbrev succeeded_round : Round
succeeded_round = forget_retry launched [] (store_success plan no_faults worked launched [] planned)

succeeded_reached : Reached plan scheduler missing succeeded_round
unfolding program
succeeded_reached =
    step (step planned_reached (succeeds [] [] launched refl no_faults worked refl))
      (forgets [] [] launched refl)

marks_wanted_example : wanted plan "shop" ≡ true
unfolding program
marks_wanted_example =
    marks_wanted plan scheduler missing ended "shop" (refl, tt) (refl, tt) ended_reached refl refl
      refl

locked_group_retried_example :
    NoLater
      (next_wake
        (finish_group plan no_faults refused launched scheduler missing).0
        (pos (101 * minute)))
      (sub (add plan.now lock_retry_interval) (pos (101 * minute)))
unfolding verdict
locked_group_retried_example =
    locked_group_retried plan no_faults refused launched scheduler missing (pos (101 * minute))
      nothing_known refl refl refl

round_returns_example :
    ((r' : Round) → Step plan succeeded_round r' → remaining r' < remaining succeeded_round)
    × ((succeeded_round.stage ≡ returned) ⊎ ((r' : Round) × Step plan succeeded_round r'))
    × (succeeded_round.stage ≡ returned
        → (succeeded_round.todo ≡ [])
          × (succeeded_round.chosen ≡ none)
          × (succeeded_round.running ≡ [])
          × (succeeded_round.noted ≡ [])
          × (succeeded_round.leaving ≡ 0))
round_returns_example =
    round_returns plan scheduler missing succeeded_round no_faults refused succeeded_reached

-- A cycle in which the database container of `shop` is gone.
abbrev world : World
world = record {
  now = pos (100 * minute);
  reload_fails = false;
  discovered = some live;
  cache_faults = no_faults;
  path_exists = on_disk;
  pre_run_check = some (λ s. true);
  generate = λ s. some ("shop" ∷ []);
  file_periods = [];
  digest = λ s. s;
}

abbrev daemon : Daemon
daemon = record {
  scheduler = scheduler;
  disk = missing;
  cache = some [];
  cache_disk = CacheDisk.saved (some cache);
}

abbrev cycle_plan : Plan
cycle_plan = record {
  groups = ("shop", record live_group { volumes = logs_volume ∷ data_volume ∷ [] }) ∷ [];
  generated = "shop" ∷ [];
  file_periods = [];
  digest = λ s. s;
  now = pos (100 * minute);
}

cycle_planned : (begin_cycle world daemon).1 ≡ runs cycle_plan
unfolding cycle_program
cycle_planned = refl

planned_databases_live_example :
    (record live_group { volumes = logs_volume ∷ data_volume ∷ [] }).databases
    ≡ live_databases (get live.groups "shop")
unfolding get
planned_databases_live_example =
    planned_databases_live world daemon live cycle_plan "shop"
      (record live_group { volumes = logs_volume ∷ data_volume ∷ [] }) refl live-IsMap cache-IsMap
      cycle_planned refl

abbrev unsafe : World
unsafe = record world { pre_run_check = some (λ s. false) }

stopped_cycle_retried_example :
    NoLater
      (next_wake (begin_cycle unsafe daemon).0.scheduler (pos (101 * minute)))
      (sub (add unsafe.now pre_run_retry_interval) (pos (101 * minute)))
unfolding cycle_program
stopped_cycle_retried_example =
    stopped_cycle_retried unsafe daemon (pos (101 * minute)) nothing_known (omega arith) refl refl
      refl
