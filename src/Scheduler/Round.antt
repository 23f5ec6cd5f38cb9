-- ===== src/Scheduler/Round.antt =====
-- `RunAllGroups` of internal/scheduler/scheduler.go. The loop over the groups, the goroutines of the
-- groups that it launches, and the clean-up after the loop use the scheduler's maps under `s.mu` and
-- the store under its own lock, and the wait group counts the goroutines. One step is one critical
-- section of one of those, or one use of the wait group, and the steps of the goroutines come in any
-- order; `wg.Add` belongs to the step that launches. What `TryRunGroup` returns is an input.
pub mod Steps
pub mod Finish
pub mod Tracked
pub mod Marks
pub mod Live
pub mod Waiting
pub mod Ending
use borgmatic_manager.Prelude.{
  ℕ, zero, suc, ◌-◌, String, ◌≡◌, Bool, true, false, not, ◌&&◌, Option, none, some, List, [], ◌∷◌,
  ◌++◌, if◌then◌else◌, get_or, is_some, is_empty, contains,
}
use borgmatic_manager.Prelude.Int.{pos}
use borgmatic_manager.GoTime.{Time, Duration, is_zero, add}
use borgmatic_manager.GoMap.{GoMap, get, put, remove, keys, update_each}
use borgmatic_manager.Models.{VolumeGroup, empty_group}
use borgmatic_manager.State.Schedule.{mark_success, retain}
use borgmatic_manager.State.Store.{Disk, Faults, ScheduleStore, update, record_of}
use borgmatic_manager.Scheduler.{Scheduler, lock_retry_interval, Dueness, due, effective_period}
use borgmatic_manager.Scheduler.Fingerprint.{group_fingerprint, sort_strings}

-- What a cycle fixes: its groups, those with a generated configuration, the periods of the group
-- files, and its time.
pub record Plan : Type 0 where
  pub groups : GoMap VolumeGroup
  pub generated : List String
  pub file_periods : GoMap Duration
  pub digest : String → String
  pub now : Time

-- The arguments of a goroutine; `previous` is `prevAttempt` and `hadAttempt`.
pub record Launch : Type 0 where
  pub group : String
  pub fingerprint : String
  pub previous : Option Time

pub data RunError : Type 0 where
  locked_by_another_process other_error : RunError

-- What `TryRunGroup` returns.
pub record Attempt : Type 0 where
  pub acquired : Bool
  pub started : Time
  pub error : Option RunError

-- What the loop has read of a group from the store, before it takes `s.mu`.
pub record Chosen : Type 0 where
  pub name : String
  pub fingerprint : String
  pub is_due : Bool

-- How far the function itself is: in its loop, past `Retain`, past the clean-up of the scheduler's
-- maps, or past `wg.Wait`.
pub data RoundStage : Type 0 where
  planning retained pruned returned : RoundStage

pub record Round : Type 0 where
  pub scheduler : Scheduler
  pub disk : Disk
  -- The groups that the loop has not reached, and the one that it is at.
  pub todo : List String
  pub chosen : Option Chosen
  -- The goroutines that have not come to their end, those that have told the store of a success,
  -- and the number of those that have only their deferred `wg.Done` left.
  pub running : List Launch
  pub noted : List Launch
  pub leaving : ℕ
  -- The counter of the wait group.
  pub waiting : ℕ
  pub live : List String
  pub group_periods : GoMap Duration
  pub stage : RoundStage

unfoldable pub group_due : Scheduler → String → String → Duration → Time → Bool
group_due s name fingerprint period now = elim s.store [
  | none ↦ true
  | some store ↦ (due (record_of store name) fingerprint period now).is_due
]

-- A group with a configuration: the store is asked whether it is due.
unfoldable pub choose_group : Plan → String → VolumeGroup → Round → Round
choose_group p name g r =
    let s = r.scheduler in
    let period = effective_period (some g) (get_or (pos 0) (get p.file_periods name)) s.period in
    let fingerprint = group_fingerprint p.digest g in
    record r {
      live = name ∷ r.live;
      group_periods = put r.group_periods name period;
      chosen = some (record {
        name = name;
        fingerprint = fingerprint;
        is_due = group_due s name fingerprint period p.now;
      });
    }

-- The critical section that follows: it waits, or it is marked as attempted and launched.
unfoldable pub launch_if_due : Plan → Chosen → Round → Round
launch_if_due p c r =
    let s = r.scheduler in
    if c.is_due
    then record r {
      chosen = none;
      scheduler = record s { last_attempt = put s.last_attempt c.name p.now };
      waiting = suc r.waiting;
      running =
          record {
            group = c.name;
            fingerprint = c.fingerprint;
            previous = get s.last_attempt c.name;
          }
          ∷ r.running;
    }
    else record r {
      chosen = none;
      scheduler = record s { locked_retry = remove s.locked_retry c.name };
    }

-- The body of the loop over the names.
unfoldable pub plan_group : Plan → String → Round → Round
plan_group p name r =
    let g = get_or empty_group (get p.groups name) in
    if is_empty g.volumes && is_empty g.databases
    then r
    else if not (contains p.generated name)
    then r
    else choose_group p name g r

unfoldable pub restore_attempt : Launch → GoMap Time → GoMap Time
restore_attempt g attempts = elim g.previous [
  | none ↦ remove attempts g.group
  | some t ↦ put attempts g.group t
]

-- The success case: the store is told when the run started.
unfoldable pub note_success :
    Plan → Faults → Launch → Time → Option ScheduleStore → Disk → Option ScheduleStore × Disk
note_success p e g started none d = (none, d)
note_success p e g started (some store) d =
    let at = if is_zero started then p.now else started in
    let (store', d') = update e (mark_success g.group g.fingerprint at) store d in (some store', d')

-- The cases of the goroutine's `switch`.
pub data Verdict : Type 0 where
  locked already_running run_failed run_succeeded : Verdict

unfoldable pub verdict : Attempt → Verdict
verdict a = elim a.error [
  | none ↦ if not a.acquired then already_running else run_succeeded
  | some locked_by_another_process ↦ locked
  | some other_error ↦ run_failed
]

unfoldable pub finish_as :
    Verdict → Plan → Faults → Time → Launch → Scheduler → Disk → Scheduler × Disk
finish_as locked p e started g s d =
    (record s { locked_retry = put s.locked_retry g.group (add p.now lock_retry_interval) }, d)
finish_as already_running p e started g s d = (
  record s {
    last_attempt = restore_attempt g s.last_attempt;
    locked_retry = remove s.locked_retry g.group;
  },
  d,
)
finish_as run_failed p e started g s d =
    (record s { locked_retry = remove s.locked_retry g.group }, d)
finish_as run_succeeded p e started g s d =
    let (store, d') = note_success p e g started s.store d in
    (record s { store = store; locked_retry = remove s.locked_retry g.group }, d')

-- The end of a goroutine, from its `switch` on.
unfoldable pub finish_group : Plan → Faults → Attempt → Launch → Scheduler → Disk → Scheduler × Disk
finish_group p e a g s d = finish_as (verdict a) p e a.started g s d

unfoldable pub only_live : {V : Type 0} → List String → GoMap V → GoMap V
only_live live = update_each (λ name v. if contains live name then some v else none)

-- `Retain` on the store, if there is one; `cached` is what `cacheNames` returns.
unfoldable pub retain_groups : Faults → List String → Round → Round
retain_groups e cached r = elim r.scheduler.store [
  | none ↦ record r { stage = pruned }
  | some store ↦
      let (store', d') = update e (retain r.live cached) store r.disk in
      record r {
        scheduler = record r.scheduler { store = some store' };
        disk = d';
        stage = retained;
      }
]

-- The critical section of the clean-up.
unfoldable pub prune : Round → Round
prune r =
    let s = r.scheduler in
    record r {
      scheduler = record s {
        last_attempt = only_live r.live s.last_attempt;
        locked_retry = only_live r.live s.locked_retry;
        group_periods = r.group_periods;
      };
      stage = pruned;
    }

unfoldable pub start_round : Plan → Scheduler → Disk → Round
start_round p s d = record {
  scheduler = s;
  disk = d;
  todo = sort_strings (keys p.groups);
  chosen = none;
  running = [];
  noted = [];
  leaving = 0;
  waiting = 0;
  live = [];
  group_periods = [];
  stage = planning;
}

abbrev pub is_success : Verdict → Bool
is_success run_succeeded = true
is_success _ = false

-- A goroutine whose run is no success: its one critical section.
unfoldable pub finish_one : Plan → Faults → Attempt → Launch → List Launch → Round → Round
finish_one p e a g others r =
    let (s, d) = finish_group p e a g r.scheduler r.disk in
    record r { scheduler = s; disk = d; running = others; leaving = suc r.leaving }

-- A goroutine whose run is a success tells the store, and then takes `s.mu`.
unfoldable pub store_success : Plan → Faults → Attempt → Launch → List Launch → Round → Round
store_success p e a g others r =
    let (store, d) = note_success p e g a.started r.scheduler.store r.disk in
    record r {
      scheduler = record r.scheduler { store = store };
      disk = d;
      running = others;
      noted = g ∷ r.noted;
    }

unfoldable pub forget_retry : Launch → List Launch → Round → Round
forget_retry g others r =
    let s = r.scheduler in
    record r {
      scheduler = record s { locked_retry = remove s.locked_retry g.group };
      noted = others;
      leaving = suc r.leaving;
    }
