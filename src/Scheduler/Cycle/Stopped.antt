-- ===== src/Scheduler/Cycle/Stopped.antt =====
-- A cycle that the pre-run check stops.
use borgmatic_manager.Prelude.{
  String, ◌≡◌, ◌≢◌, refl, ap, ◌∙◌, subst, Bool, false, Option, none, some, List, arith, Bool-cases,
  inl, inr,
}
use borgmatic_manager.Prelude.Int.{pos, ◌≤ℤ◌, ◌+ℤ◌}
use borgmatic_manager.GoTime.{Time, is_zero, add, sub}
use borgmatic_manager.Models.{BackupState}
use borgmatic_manager.State.Store.{ScheduleStore}
use borgmatic_manager.Scheduler.{pre_run_retry_interval, not_positive, next_wake}
use borgmatic_manager.Scheduler.Wake.{NoLater, next_wake_pre_run}
use borgmatic_manager.Scheduler.Cycle.{
  Daemon, World, check_failed, reloaded, with_cache, plan_for, generated_plan, with_retry, gate,
  after_discovery, begin_cycle,
}

later_than_zero : (t : Time) → pos 0 ≤ℤ t → is_zero (add t pre_run_retry_interval) ≡ false
unfolding ◌+ℤ◌
later_than_zero t h = ground arith

plan_for-passed :
    (w : World) (state : BackupState) (o : Option (List String)) → plan_for w state o ≢ check_failed
unfolding plan_for
plan_for-passed w state none = λ e. cc
plan_for-passed w state (some names) = λ e. cc

gate-retry :
    (w : World) (state : BackupState) (d : Daemon) (check : Option (BackupState → Bool))
    → (gate w state d check).1 ≡ check_failed
    → (gate w state d check).0.scheduler.pre_run_retry ≡ add w.now pre_run_retry_interval
unfolding gate with_retry generated_plan
gate-retry w state d none h = absurd (plan_for-passed w state (w.generate state) h)
gate-retry w state d (some passes) h = elim (Bool-cases (passes state)) [
  | inl good ↦ absurd (plan_for-passed w state (w.generate state) (rw good at h))
  | inr bad ↦ rw bad refl
]

after_discovery-retry :
    (w : World) (d : Daemon) (o : Option BackupState)
    → (after_discovery w d o).1 ≡ check_failed
    → (after_discovery w d o).0.scheduler.pre_run_retry ≡ add w.now pre_run_retry_interval
unfolding after_discovery
after_discovery-retry w d none h = cc
after_discovery-retry w d (some live) h =
    let (d', state) = with_cache w live d in gate-retry w state d' w.pre_run_check h

-- After a cycle that the pre-run check stopped, at a time after Go's zero time, a scheduler with a
-- store and a positive period wakes no later than one retry interval after the cycle's time, unless
-- the sleep is the floor.
pub stopped_cycle_retried :
    (w : World) (d : Daemon) (later : Time) (store : ScheduleStore)
    → pos 0 ≤ℤ w.now
    → (begin_cycle w d).1 ≡ check_failed
    → (begin_cycle w d).0.scheduler.store ≡ some store
    → not_positive (begin_cycle w d).0.scheduler.period ≡ false
    → NoLater
        (next_wake (begin_cycle w d).0.scheduler later)
        (sub (add w.now pre_run_retry_interval) later)
unfolding begin_cycle
stopped_cycle_retried w d later store past stopped known timed =
    let s = (begin_cycle w d).0.scheduler in
    let retry : s.pre_run_retry ≡ add w.now pre_run_retry_interval =
      after_discovery-retry w (reloaded w d) w.discovered stopped in
    let set : is_zero (add w.now pre_run_retry_interval) ≡ false = later_than_zero w.now past in
    subst (λ t. NoLater (next_wake s later) (sub t later)) retry
      (next_wake_pre_run s later store known timed (ap is_zero retry ∙ set))
