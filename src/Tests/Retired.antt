-- ===== src/Tests/Retired.antt =====
-- Groups that stay away (`Retain` of internal/state/schedule.go).
use borgmatic_manager.Prelude.{◌≡◌, refl, none, [], ◌∷◌}
use borgmatic_manager.Prelude.Int.{pos, ◌+ℤ◌}
use borgmatic_manager.GoMap.{update_each}
use borgmatic_manager.State.Outcome.{GroupRecord, ScheduleFile}
use borgmatic_manager.State.Schedule.{aged, retain}
use borgmatic_manager.State.Schedule.Retention.{cycles}

abbrev recorded : GroupRecord
recorded = record {
  last_success = pos 500;
  fingerprint = "f";
  last_run = none;
  history = [];
  repositories = [];
  missing_cycles = pos 0;
}

abbrev schedule : ScheduleFile
schedule = record { groups = ("web", recorded) ∷ ("db", recorded) ∷ []; pending = [] }

-- `db` is present, `web` is gone and not cached.
three_cycles : (cycles 3 ("db" ∷ []) [] schedule).groups ≡ ("db", recorded) ∷ []
unfolding retain aged update_each ◌+ℤ◌
three_cycles = refl
