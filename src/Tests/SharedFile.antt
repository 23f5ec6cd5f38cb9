-- ===== src/Tests/SharedFile.antt =====
-- Two processes that update one schedule file (`ScheduleStore` of internal/state/schedule.go).
use borgmatic_manager.Prelude.{◌≡◌, refl, true, false, none, some, []}
use borgmatic_manager.Prelude.Int.{pos, ltb_ℤ}
use borgmatic_manager.GoMap.{get, put, update_each}
use borgmatic_manager.State.RecordRun.{record_outcome}
use borgmatic_manager.State.Schedule.{clear_pending, mark_success, record_run, retain, succeeded}
use borgmatic_manager.State.Schedule.Valid.{IsValid, Change, success}
use borgmatic_manager.State.Store.{
  Disk, missing, corrupt, saved, Faults, ScheduleStore, empty_file, read_file, encode, stored,
  write_file, commit, proceed, update, reload, record_of,
}
use borgmatic_manager.State.Store.Reloading.{reload-update}
use borgmatic_manager.State.Store.Updates.{contents, stored_at}
use borgmatic_manager.State.Store.Survival.{
  no_faults, missed, here, next, Anchored, update-IsValid, success_survives,
}
use borgmatic_manager.Tests.Repositories.{plain_host, bad_run}

program : Unit {0}
unfolding get put update proceed commit read_file write_file encode update_each mark_success
    record_run record_outcome succeeded stored
program = tt

abbrev fresh_store : ScheduleStore
fresh_store = record { groups = []; pending = [] }

abbrev no_lock : Faults
no_lock = record no_faults { lock_fails = true }

-- The daemon marks a success; an ad-hoc run with an older view then records a failed run.
abbrev after_success : Disk
after_success = (update no_faults (mark_success "web" "f" (pos 500)) fresh_store missing).1

abbrev after_both : Disk
after_both = (update no_faults (record_run plain_host "web" bad_run) fresh_store after_success).1

empty-IsValid : IsValid empty_file
unfolding get
empty-IsValid = record { groups_distinct = tt; pending_distinct = tt; each = λ name. tt }

-- Then the group is missing in a cycle, for the first time.
abbrev after_absence : Disk
after_absence = (update no_faults (retain [] []) fresh_store after_both).1

first_absence : ltb_ℤ (missed (get (contents after_both).groups "web")) (pos 2) ≡ true
unfolding program
first_absence = refl

success_survives_example : Anchored (pos 500) "f" (get (contents after_absence).groups "web")
success_survives_example =
    success_survives plain_host "web" "f" (pos 500) fresh_store missing after_absence empty-IsValid
      (next
        (next here no_faults (record_run plain_host "web" bad_run) fresh_store
          (Change.run "web" bad_run) tt)
        no_faults (retain [] []) fresh_store (Change.cycle [] []) first_absence)

update-IsValid_example : IsValid (contents after_success)
update-IsValid_example =
    update-IsValid plain_host no_faults (mark_success "web" "f" (pos 500)) fresh_store missing
      (success "web" "f" (pos 500)) empty-IsValid

-- A corrupt file is replaced even if nothing was to be changed.
healed :
    (update no_faults (clear_pending "r") fresh_store corrupt).1
    ≡ saved (record { groups = some []; pending = none })
unfolding update proceed commit read_file write_file encode clear_pending get update_each
healed = refl

-- The daemon's next reload, after it recorded a success, shows that success.
reload-update_example :
    (record_of (reload false after_success) "web"
      ≡ stored_at (
          record_of
            (update no_faults (mark_success "web" "f" (pos 500)) fresh_store missing).0
            "web"))
    × ((reload false after_success).pending
        ≡ (update no_faults (mark_success "web" "f" (pos 500)) fresh_store missing).0.pending)
unfolding mark_success
reload-update_example =
    reload-update plain_host no_faults (mark_success "web" "f" (pos 500)) fresh_store missing "web"
      (success "web" "f" (pos 500)) empty-IsValid refl
