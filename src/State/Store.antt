-- ===== src/State/Store.antt =====
-- `ScheduleStore` of internal/state/schedule.go: the shared schedule file and the views that
-- processes hold of it. The JSON codec is the standard library's; what is modelled of it is which
-- fields it leaves out. A write goes to a temporary file that is renamed over the schedule, so it
-- happens whole or not at all.
pub mod Updates
pub mod Survival
pub mod Reloading
use borgmatic_manager.Prelude.{
  String, Bool, true, false, not, ◌&&◌, Option, none, some, List, [], ◌∷◌, if◌then◌else◌, get_or,
  is_empty,
}
use borgmatic_manager.GoMap.{GoMap, get, update_each}
use borgmatic_manager.State.Outcome.{RunOutcome, GroupRecord, PendingRun, ScheduleFile}
use borgmatic_manager.State.Schedule.{Mutation}

-- A decoded file: a map that the document does not have is nil.
pub record Saved : Type 0 where
  pub groups : Option (GoMap GroupRecord)
  pub pending : Option (GoMap PendingRun)

pub data Disk : Type 0 where
  missing corrupt : Disk
  saved : Saved → Disk

-- What the environment does during one update: a lock, a read or a write may fail.
pub record Faults : Type 0 where
  pub lock_fails : Bool
  pub read_fails : Bool
  pub write_fails : Bool

pub data ReadError : Type 0 where
  corrupt_state transient : ReadError

pub record ScheduleStore : Type 0 where
  pub groups : GoMap GroupRecord
  pub pending : GoMap PendingRun

abbrev pub empty_file : ScheduleFile
empty_file = record { groups = []; pending = [] }

-- `readFile`: with an error the file is the empty one.
unfoldable pub read_file : Bool → Disk → ScheduleFile × Option ReadError
read_file true d = (empty_file, some transient)
read_file false missing = (empty_file, none)
read_file false corrupt = (empty_file, some corrupt_state)
read_file false (saved s) =
    (record { groups = get_or [] s.groups; pending = get_or [] s.pending }, none)

-- The fields marked `json:"-"` are not written.
unfoldable pub stored_outcome : RunOutcome → RunOutcome
stored_outcome o = record o {
  configured_repositories = [];
  configured_repository_paths = [];
  repositories_known = false;
  create_attempted = false;
}

stored_run : Option RunOutcome → Option RunOutcome
stored_run none = none
stored_run (some o) = some (stored_outcome o)

stored_history : List RunOutcome → List RunOutcome
stored_history [] = []
stored_history (o ∷ os) = stored_outcome o ∷ stored_history os

unfoldable pub stored : GroupRecord → GroupRecord
unfolding stored_run stored_history
stored rec = record rec { last_run = stored_run rec.last_run; history = stored_history rec.history }

-- The document that `json.MarshalIndent` writes; an empty `pending_runs` is left out.
unfoldable pub encode : ScheduleFile → Saved
encode f = record {
  groups = some (update_each (λ name rec. some (stored rec)) f.groups);
  pending = if is_empty f.pending then none else some f.pending;
}

unfoldable pub write_file : Bool → ScheduleFile → Disk → Disk
write_file fails f d = if fails then d else saved (encode f)

-- The end of `update`, once the file is read.
unfoldable pub commit :
    Faults → Mutation → Bool → ScheduleFile → ScheduleStore → Disk → ScheduleStore × Disk
commit e mutate healing f s d =
    let (f', changed) = mutate f in
    if not changed && not healing
    then (s, d)
    else (record { groups = f'.groups; pending = f'.pending }, write_file e.write_fails f' d)

-- The `switch` on the error of the read.
unfoldable pub proceed :
    Faults
    → Mutation
    → ScheduleFile × Option ReadError
    → ScheduleStore
    → Disk
    → ScheduleStore × Disk
proceed e mutate (f, none) s d = commit e mutate false f s d
proceed e mutate (f, some corrupt_state) s d = commit e mutate true f s d
proceed e mutate (f, some transient) s d = (s, d)

unfoldable pub update : Faults → Mutation → ScheduleStore → Disk → ScheduleStore × Disk
update e mutate s d =
    if e.lock_fails then (s, d) else proceed e mutate (read_file e.read_fails d) s d

-- A failed read shows no groups, so that every group is due.
unfoldable pub reload : Bool → Disk → ScheduleStore
reload read_fails d =
    let (f, _) = read_file read_fails d in record { groups = f.groups; pending = f.pending }

-- `Record`.
unfoldable pub record_of : ScheduleStore → String → Option GroupRecord
record_of s name = get s.groups name
