-- ===== src/Scheduler.antt =====
-- The scheduling rules of internal/scheduler/scheduler.go.
pub mod Rules
pub mod Wake
pub mod Fingerprint
pub mod Round
pub mod Cycle
use borgmatic_manager.Prelude.{
  String, Bool, true, false, not, ◌&&◌, ◌||◌, Option, none, some, List, [], ◌∷◌, foldl, ◌*◌, ◌==◌,
  if◌then◌else◌, get_or,
}
use borgmatic_manager.Prelude.Int.{ℤ, pos, ltb_ℤ}
use borgmatic_manager.GoTime.{
  Time, Duration, zero_time, second, minute, is_zero, after, before, add, sub,
}
use borgmatic_manager.GoMap.{GoMap, get, put}
use borgmatic_manager.Models.{VolumeGroup}
use borgmatic_manager.State.Outcome.{GroupRecord, zero_group_record}
use borgmatic_manager.State.Store.{ScheduleStore}

abbrev pub min_wake : Duration
min_wake = pos (30 * second)

abbrev pub lock_retry_interval : Duration
lock_retry_interval = pos (5 * minute)

abbrev pub pre_run_retry_interval : Duration
pre_run_retry_interval = pos (5 * minute)

pub record Dueness : Type 0 where
  pub is_due : Bool
  pub next : Time
  pub membership_changed : Bool

-- `d <= 0`.
abbrev pub not_positive : Duration → Bool
not_positive d = not (ltb_ℤ (pos 0) d)

-- `Due`, for a record that may be missing.
unfoldable pub due : Option GroupRecord → String → Duration → Time → Dueness
due none fingerprint period now = record { is_due = true; next = now; membership_changed = false }
due (some rec) fingerprint period now =
    let next = add rec.last_success period in
    if not_positive period
    then record { is_due = true; next = now; membership_changed = false }
    else if not (rec.fingerprint == fingerprint)
    then record { is_due = true; next = now; membership_changed = true }
    else if after rec.last_success now
    then record { is_due = true; next = now; membership_changed = false }
    else record { is_due = not (before now next); next = next; membership_changed = false }

-- `EffectivePeriod`: label, then groups/ overlay, then the global period.
unfoldable pub effective_period : Option VolumeGroup → Duration → Duration → Duration
effective_period none file_period global = if ltb_ℤ (pos 0) file_period then file_period else global
effective_period (some group) file_period global =
    if ltb_ℤ (pos 0) group.period
    then group.period
    else if ltb_ℤ (pos 0) file_period
    then file_period
    else global

-- The fields of `Scheduler` that decide when it runs.
pub record Scheduler : Type 0 where
  pub store : Option ScheduleStore
  pub period : Duration
  pub last_attempt : GoMap Time
  pub pre_run_retry : Time
  pub locked_retry : GoMap Time
  pub group_periods : GoMap Duration

-- `if d := t.Sub(now); d < wake { wake = d }`.
unfoldable pub sooner : Time → Duration → Time → Duration
sooner now wake t = if ltb_ℤ (sub t now) wake then sub t now else wake

-- The loop over `lastAttempt`: a newer attempt stands in for the last success.
unfoldable pub note_attempt : GoMap GroupRecord → String × Time → GoMap GroupRecord
note_attempt records (name, attempt) =
    let rec = get_or zero_group_record (get records name) in
    if after attempt rec.last_success
    then put records name (record rec { last_success = attempt })
    else records

-- The loop over the records.
unfoldable pub wake_for_group : Scheduler → Time → Duration → String × GroupRecord → Duration
wake_for_group s now wake (name, rec) =
    let period = get_or s.period (get s.group_periods name) in
    if ltb_ℤ (pos 0) rec.missing_cycles then wake else sooner now wake (add rec.last_success period)

unfoldable pub wake_for_retries : Scheduler → Time → Duration
wake_for_retries s now =
    let locked = foldl (λ wake e. sooner now wake e.1) s.period s.locked_retry in
    if is_zero s.pre_run_retry then locked else sooner now locked s.pre_run_retry

-- `if wake < minWake { wake = minWake }`.
unfoldable pub at_least : Duration → Duration
at_least wake = if ltb_ℤ wake min_wake then min_wake else wake

unfoldable pub wake_with : Scheduler → Time → ScheduleStore → Duration
wake_with s now store = at_least (
    foldl (wake_for_group s now) (wake_for_retries s now)
      (foldl note_attempt store.groups s.last_attempt))

-- `NextWake`.
unfoldable pub next_wake : Scheduler → Time → Duration
next_wake s now = elim s.store [
  | none ↦ s.period
  | some store ↦ if not_positive s.period then s.period else wake_with s now store
]
