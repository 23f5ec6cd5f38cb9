-- ===== src/State/Schedule.antt =====
-- The changes that the methods of `ScheduleStore` make to the schedule file (the functions passed
-- to `update`). Each returns the new file and whether anything changed.
pub mod Valid
pub mod Frame
pub mod Retention
use borgmatic_manager.Prelude.{
  String, Bool, true, false, not, ◌&&◌, ◌||◌, Option, none, some, List, [], ◌∷◌, ◌++◌,
  if◌then◌else◌, get_or, is_some, contains, any, map,
}
use borgmatic_manager.Prelude.Int.{ℤ, pos, ◌+ℤ◌, ltb_ℤ, eqb_ℤ}
use borgmatic_manager.GoTime.{Time}
use borgmatic_manager.GoMap.{GoMap, get, put, remove, update_each}
use borgmatic_manager.Config.RepoKey.{Host}
use borgmatic_manager.State.Outcome.{
  RunOutcome, GroupRecord, PendingRun, ScheduleFile, zero_group_record,
}
use borgmatic_manager.State.RecordRun.{record_outcome}

abbrev pub Mutation : Type 0
Mutation = ScheduleFile → ScheduleFile × Bool

unfoldable pub record_pending : String → String → Time → ℤ → Mutation
record_pending run_id group started pid f = (
  record f {
    pending = put f.pending run_id (record { group = group; started = started; pid = pid });
  },
  true,
)

unfoldable pub clear_pending : String → Mutation
clear_pending run_id f =
    if is_some (get f.pending run_id)
    then (record f { pending = remove f.pending run_id }, true)
    else (f, false)

unfoldable pub succeeded : String → Time → GroupRecord → GroupRecord
succeeded fingerprint started rec = record rec {
  last_success = started;
  fingerprint = fingerprint;
  missing_cycles = pos 0;
}

unfoldable pub mark_success : String → String → Time → Mutation
mark_success name fingerprint started f =
    let rec = get_or zero_group_record (get f.groups name) in
    (record f { groups = put f.groups name (succeeded fingerprint started rec) }, true)

unfoldable pub record_run : Host → String → RunOutcome → Mutation
record_run h name outcome f =
    let rec = get_or zero_group_record (get f.groups name) in
    (record f { groups = put f.groups name (record_outcome h outcome rec) }, true)

-- One group in `Retain`: what becomes of its record. `none` deletes it.
unfoldable pub aged : Bool → Bool → GroupRecord → Option GroupRecord
aged active protected rec =
    if active
    then some (record rec { missing_cycles = pos 0 })
    else if not protected && not (ltb_ℤ rec.missing_cycles (pos 2))
    then none
    else some (record rec { missing_cycles = rec.missing_cycles +ℤ pos 1 })

-- An active group counts as changed only if its counter was not 0.
unfoldable pub retain_changes : List String → GoMap GroupRecord → Bool
retain_changes active =
    any (λ e. not (contains active e.0) || not (eqb_ℤ e.1.missing_cycles (pos 0)))

unfoldable pub retain : List String → List String → Mutation
retain active protected f = (
  record f {
    groups = update_each (λ name. aged (contains active name) (contains protected name)) f.groups;
  },
  retain_changes active f.groups,
)
