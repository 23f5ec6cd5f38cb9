-- ===== src/Tests/Wakes.antt =====
-- Dueness and sleep of a scheduler with two groups (internal/scheduler/scheduler.go).
use borgmatic_manager.Prelude.{
  ℕ, ◌≡◌, refl, ◌*◌, not, ◌||◌, none, some, [], ◌∷◌, ◌==◌, arith, get_or,
}
use borgmatic_manager.Prelude.Int.{pos, ltb_ℤ, ◌+ℤ◌, ◌-ℤ◌, ◌≤ℤ◌}
use borgmatic_manager.GoTime.{Time, Duration, second, minute, add, sub}
use borgmatic_manager.GoMap.{get, put}
use borgmatic_manager.State.Outcome.{GroupRecord}
use borgmatic_manager.State.Schedule.{mark_success}
use borgmatic_manager.State.Store.{ScheduleStore, empty_file}
use borgmatic_manager.Scheduler.{
  Scheduler, min_wake, due, sooner, note_attempt, wake_for_group, wake_for_retries, at_least,
  wake_with, next_wake,
}
use borgmatic_manager.Scheduler.Rules.{due_after_success}
use borgmatic_manager.Scheduler.Wake.{NoLater, next_wake_range, next_wake_group}

abbrev hour : Duration
hour = pos (60 * minute)

abbrev at : ℕ → Time
at n = pos (n * minute)

abbrev seen_at : Time → GroupRecord
seen_at t = record {
  last_success = t;
  fingerprint = "f";
  last_run = none;
  history = [];
  repositories = [];
  missing_cycles = pos 0;
}

abbrev store : ScheduleStore
store = record {
  groups = ("web", seen_at (at 1000)) ∷ ("db", seen_at (at 1030)) ∷ [];
  pending = [];
}

-- `db` failed at 1050 and `web` was locked then.
abbrev daemon : Scheduler
daemon = record {
  store = some store;
  period = hour;
  last_attempt = ("db", at 1050) ∷ [];
  pre_run_retry = at 1058;
  locked_retry = ("web", at 1056) ∷ [];
  group_periods = ("db", pos (90 * minute)) ∷ [];
}

-- At 1052 the nearest event is the retry of the locked group.
sleep_until_retry : next_wake daemon (at 1052) ≡ pos (4 * minute)
unfolding next_wake wake_with at_least wake_for_retries wake_for_group note_attempt sooner sub get
    put ◌+ℤ◌ ◌-ℤ◌
sleep_until_retry = refl

due_after_success_example :
    (due
      (get (mark_success "web" "f" (at 1000) empty_file).0.groups "web")
      "f"
      hour
      (at 1059)).is_due
    ≡ (not ("f" == "f") || ltb_ℤ (at 1059) (at 1000) || not (ltb_ℤ (at 1059) (add (at 1000) hour)))
due_after_success_example =
    due_after_success empty_file "web" "f" "f" (at 1000) (at 1059) hour (omega arith)

next_wake_range_example :
    (min_wake ≤ℤ next_wake daemon (at 1052)) × NoLater (next_wake daemon (at 1052)) hour
next_wake_range_example = next_wake_range daemon (at 1052) store refl refl

next_wake_group_example :
    NoLater
      (next_wake daemon (at 1052))
      (sub (add (at 1050) (get_or hour (get daemon.group_periods "db"))) (at 1052))
unfolding get
next_wake_group_example =
    next_wake_group daemon (at 1052) store refl refl "db" (seen_at (at 1050)) (refl, tt) refl refl

abbrev hasty : Scheduler
hasty = record daemon { period = pos second }
