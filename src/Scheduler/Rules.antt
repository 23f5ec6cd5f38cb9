-- ===== src/Scheduler/Rules.antt =====
-- When a group is due.
use borgmatic_manager.Prelude.{
  String, ◌≡◌, refl, false, not, ◌||◌, Option, none, some, arith, ◌==◌, eq_iff, eq_refl, get_or,
  Bool-cases, inl, inr,
}
use borgmatic_manager.Prelude.Int.{pos, ◌≤ℤ◌, ◌<ℤ◌, ltb_ℤ, lt_of_ltb_ℤ}
use borgmatic_manager.GoTime.{Time, Duration, add}
use borgmatic_manager.GoMap.{get, get-put}
use borgmatic_manager.State.Outcome.{RunOutcome, GroupRecord, ScheduleFile, zero_group_record}
use borgmatic_manager.Config.RepoKey.{Host}
use borgmatic_manager.State.RecordRun.{record_outcome}
use borgmatic_manager.State.Schedule.{record_run, succeeded, mark_success}
use borgmatic_manager.Scheduler.{due}

-- With a positive period, a recorded success holds a group with the same content set back exactly
-- from the start of that run and for one period: the group is due before it (the clock was set
-- back) and from the end of the period on. With another content set it is due at any time.
pub due_after_success :
    (f : ScheduleFile) (name fingerprint other : String) (started now : Time) (period : Duration)
    → pos 0 <ℤ period
    → (due (get (mark_success name fingerprint started f).0.groups name) other period now).is_due
      ≡ (not (fingerprint == other) || ltb_ℤ now started || not (ltb_ℤ now (add started period)))
unfolding mark_success succeeded due
due_after_success f name fingerprint other started now period p =
    rw get-put (rw (eq_refl name) (ground arith))

-- A group that is held back has a record with the present content set, whose last success lies in
-- the past by less than a period; the reported next time is that success plus the period.
pub held_back_only_if :
    (o : Option GroupRecord) (fingerprint : String) (period : Duration) (now : Time)
    → (due o fingerprint period now).is_due ≡ false
    → (rec : GroupRecord) × (o ≡ some rec)
      × (rec.fingerprint ≡ fingerprint)
      × (rec.last_success ≤ℤ now)
      × (now <ℤ add rec.last_success period)
      × ((due o fingerprint period now).next ≡ add rec.last_success period)
unfolding due
held_back_only_if none fingerprint period now h = cc
held_back_only_if (some rec) fingerprint period now h = (
  rec,
  refl,
  (eq_iff rec.fingerprint fingerprint).0 (ground arith),
  ground arith,
  lt_of_ltb_ℤ now (add rec.last_success period) (ground arith),
  ground arith,
)

due_recorded :
    (h : Host) (o : Option GroupRecord) (fingerprint : String) (outcome : RunOutcome)
    (period : Duration) (now : Time)
    → (fingerprint == "") ≡ false
    → (due
        (some (record_outcome h outcome (get_or zero_group_record o)))
        fingerprint
        period
        now).is_due
      ≡ (due o fingerprint period now).is_due
unfolding record_outcome due
due_recorded h none fingerprint outcome period now some_text =
    let other : ("" == fingerprint) ≡ false =
      ground (arith, eq_iff fingerprint "", eq_iff "" fingerprint) in
    rw other (ground arith)
due_recorded h (some rec) fingerprint outcome period now some_text = refl

-- Recording a run, whatever its result, changes for no group whether it is due under a fingerprint
-- that is not empty: only a success that is marked holds a group back.
pub due_after_run :
    (h : Host) (f : ScheduleFile) (name j fingerprint : String) (outcome : RunOutcome)
    (period : Duration) (now : Time)
    → (fingerprint == "") ≡ false
    → (due (get (record_run h name outcome f).0.groups j) fingerprint period now).is_due
      ≡ (due (get f.groups j) fingerprint period now).is_due
unfolding record_run
due_after_run h f name j fingerprint outcome period now some_text =
    rw get-put (elim (Bool-cases (name == j)) [
      | inl same ↦ rw same (
          rw ((eq_iff name j).0 same)
            (due_recorded h (get f.groups j) fingerprint outcome period now some_text))
      | inr different ↦ rw different refl
    ])
