-- ===== src/State/Schedule/Frame.antt =====
-- What a change of the schedule file leaves alone.
use borgmatic_manager.Prelude.{
  String, ◌≡◌, ◌⊎◌, refl, Option, none, some, arith, ◌==◌, eq_iff, eq_refl, get_or, Bool-cases, inl,
  inr,
}
use borgmatic_manager.Prelude.Int.{ℤ, pos}
use borgmatic_manager.GoTime.{Time}
use borgmatic_manager.GoMap.{get, put, get-put, get-remove}
use borgmatic_manager.Config.RepoKey.{Host}
use borgmatic_manager.State.Outcome.{
  RunOutcome, GroupRecord, PendingRun, ScheduleFile, zero_group_record,
}
use borgmatic_manager.State.RecordRun.{record_outcome}
use borgmatic_manager.State.Schedule.{
  record_pending, clear_pending, succeeded, mark_success, record_run,
}

-- What the scheduler decides by.
abbrev pub schedule_of : Option GroupRecord → Time × String × ℤ
schedule_of o =
    let rec = get_or zero_group_record o in (rec.last_success, rec.fingerprint, rec.missing_cycles)

-- Recording a run, good or bad, moves no group's schedule: the last success, the fingerprint and
-- the absence counter of every group are what they were (those of a new record if it had none). No
-- pending run and no other group's record changes.
pub record_run_keeps_schedule :
    (h : Host) (f : ScheduleFile) (name : String) (outcome : RunOutcome) (j : String)
    → (schedule_of (get (record_run h name outcome f).0.groups j) ≡ schedule_of (get f.groups j))
      × ((name ≡ j) ⊎ (get (record_run h name outcome f).0.groups j ≡ get f.groups j))
      × ((record_run h name outcome f).0.pending ≡ f.pending)
unfolding record_run record_outcome
record_run_keeps_schedule h f name outcome j =
    let laws =
      get-put f.groups name j
        (record_outcome h outcome (get_or zero_group_record (get f.groups name))) in
    elim (Bool-cases (name == j)) [
      | inl same ↦
          (rw laws (rw same (rw ((eq_iff name j).0 same) refl)), inl ((eq_iff name j).0 same), refl)
      | inr other ↦ (rw laws (rw other refl), inr (rw laws (rw other refl)), refl)
    ]

-- A success is the schedule's anchor: the group's record has the start and the fingerprint of the
-- run and counts no absence, and its run history and repositories stay.
pub mark_success_anchors :
    (f : ScheduleFile) (name fingerprint : String) (started : Time)
    → get (mark_success name fingerprint started f).0.groups name
      ≡ some (record (get_or zero_group_record (get f.groups name)) {
        last_success = started;
        fingerprint = fingerprint;
        missing_cycles = pos 0;
      })
unfolding mark_success succeeded
mark_success_anchors f name fingerprint started = rw get-put (rw (eq_refl name) refl)

-- A new pending run that is recorded and then cleared leaves no trace in any lookup.
pub pending_cleared :
    (f : ScheduleFile) (run_id group j : String) (started : Time) (pid : ℤ)
    → get f.pending run_id ≡ none
    → get (clear_pending run_id (record_pending run_id group started pid f).0).0.pending j
      ≡ get f.pending j
unfolding record_pending clear_pending
pending_cleared f run_id group j started pid new =
    let added : PendingRun = record { group = group; started = started; pid = pid } in
    ground (
      arith,
      eq_iff run_id j,
      eq_refl run_id,
      get-put f.pending run_id run_id added,
      get-put f.pending run_id j added,
      get-remove (put f.pending run_id added) run_id j,
    )
