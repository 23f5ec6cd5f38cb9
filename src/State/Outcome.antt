-- ===== src/State/Outcome.antt =====
-- The records of internal/state/schedule.go. `duration_seconds` of one repository is a float in
-- the source; the program only compares it with 0, and it is held here in whole nanoseconds.
use borgmatic_manager.Prelude.{String, Bool, true, false, ◌||◌, Option, none, List, []}
use borgmatic_manager.Prelude.Int.{ℤ, pos, ltb_ℤ}
use borgmatic_manager.GoTime.{Time, zero_time}
use borgmatic_manager.GoMap.{GoMap}

-- `Result` of an outcome, with the string constants of the source as constructors.
pub data RunResult : Type 0 where
  ok failed terminated : RunResult

abbrev pub is_ok : RunResult → Bool
is_ok ok = true
is_ok _ = false

pub record RepoOutcome : Type 0 where
  pub id : String
  pub path : String
  pub result : RunResult
  pub files : ℤ
  pub original_bytes : ℤ
  pub compressed_bytes : ℤ
  pub deduplicated_bytes : ℤ
  pub duration_seconds : ℤ
  pub completed_at : Time
  pub measured : Bool

pub record RunOutcome : Type 0 where
  pub finished : Time
  pub result : RunResult
  pub exit_code : ℤ
  pub configured_repositories : List String
  pub configured_repository_paths : GoMap String
  pub repositories_known : Bool
  pub create_attempted : Bool
  pub last_error : String
  pub warnings : ℤ
  pub duration_seconds : ℤ
  pub log_tail : List String
  pub archive : String
  pub files : ℤ
  pub original_bytes : ℤ
  pub compressed_bytes : ℤ
  pub deduplicated_bytes : ℤ
  pub repositories : List RepoOutcome

pub record RepoRecord : Type 0 where
  pub path : String
  pub last_success : Time
  pub last_run : Option RepoOutcome
  pub last_stats : Option RepoOutcome

pub record GroupRecord : Type 0 where
  pub last_success : Time
  pub fingerprint : String
  pub last_run : Option RunOutcome
  pub history : List RunOutcome
  pub repositories : GoMap RepoRecord
  pub missing_cycles : ℤ

pub record PendingRun : Type 0 where
  pub group : String
  pub started : Time
  pub pid : ℤ

pub record ScheduleFile : Type 0 where
  pub groups : GoMap GroupRecord
  pub pending : GoMap PendingRun

-- The zero values that a missing map entry reads as.
abbrev pub zero_repo_record : RepoRecord
zero_repo_record = record {
  path = "";
  last_success = zero_time;
  last_run = none;
  last_stats = none;
}

abbrev pub zero_group_record : GroupRecord
zero_group_record = record {
  last_success = zero_time;
  fingerprint = "";
  last_run = none;
  history = [];
  repositories = [];
  missing_cycles = pos 0;
}

unfoldable pub has_stats : RepoOutcome → Bool
has_stats r =
    ltb_ℤ (pos 0) r.files
    || ltb_ℤ (pos 0) r.original_bytes
    || ltb_ℤ (pos 0) r.compressed_bytes
    || ltb_ℤ (pos 0) r.deduplicated_bytes
    || ltb_ℤ (pos 0) r.duration_seconds

unfoldable pub measured_stats : RepoOutcome → Bool
measured_stats r = r.measured || has_stats r
