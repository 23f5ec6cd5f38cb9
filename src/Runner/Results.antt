-- ===== src/Runner/Results.antt =====
-- What borgmatic reports of a run in internal/runner/runner.go: the results of `create --json`, the
-- archives of `list --json`, and the identity of a repository. The parser of a layout of times in the
-- local zone is a parameter.
pub mod Freshness
pub mod Found
use borgmatic_manager.Prelude.{
  String, Bool, true, false, not, ◌&&◌, Option, none, some, List, [], ◌∷◌, ◌==◌, if◌then◌else◌, ◌≡◌,
  refl,
}
use borgmatic_manager.Prelude.Int.{ℤ}
use borgmatic_manager.GoStrings.{contains_text}
use borgmatic_manager.GoTime.{Time, zero_time, second, after, before, truncate}
use borgmatic_manager.Config.RepoKey.{Host, canonical_repo_key, unknown_repo_key}
use borgmatic_manager.Config.Repositories.{RepoRef}

pub record CreateResult : Type 0 where
  pub archive_name : String
  pub archive_end : String
  pub archive_duration : ℤ
  pub n_files : ℤ
  pub original_size : ℤ
  pub compressed_size : ℤ
  pub deduplicated_size : ℤ
  pub location : String
  pub label : String

-- The layouts that borg writes times in, with and without microseconds.
pub data Layout : Type 0 where
  micros seconds : Layout

abbrev pub Clock : Type 0
Clock = Layout → String → Option Time

abbrev pub or_else : Option (Time × Bool) → Option (Time × Bool) → Option (Time × Bool)
or_else none p = p
or_else (some t) p = some t

abbrev pub stamped : Option Time → Bool → Option (Time × Bool)
stamped none precise = none
stamped (some t) precise = some (t, precise)

-- The first layout that reads the text, and whether it is the precise one.
unfoldable pub read_stamp : Clock → String → Option (Time × Bool)
read_stamp parse ts = or_else (stamped (parse micros ts) true) (stamped (parse seconds ts) false)

abbrev pub time_or_zero : Option (Time × Bool) → Time
time_or_zero none = zero_time
time_or_zero (some (t, precise)) = t

unfoldable pub parse_borg_time : Clock → String → Time
parse_borg_time parse ts = if ts == "" then zero_time else time_or_zero (read_stamp parse ts)

unfoldable pub archive_is_from_this_run : Time → Bool → Time → Bool
archive_is_from_this_run archive precise run_start =
    if precise
    then not (before archive run_start)
    else after (truncate archive second) (truncate run_start second)

-- An archive of `list --json`: its `start` and its `time`.
pub record ListedArchive : Type 0 where
  pub start : String
  pub time : String

abbrev pub later_of : Time → Time → Time
later_of t newest = if after t newest then t else newest

-- One archive: whether one of this run was found, and when the newest of those was written.
abbrev pub judge_archive : Option (Time × Bool) → Time → Bool × Time → Bool × Time
judge_archive none run_start found = found
judge_archive (some (t, precise)) run_start (found, newest) =
    if archive_is_from_this_run t precise run_start
    then (true, later_of t newest)
    else (found, newest)

unfoldable pub scan_archives : Clock → Time → Bool × Time → List ListedArchive → Bool × Time
scan_archives parse run_start found [] = found
scan_archives parse run_start found (a ∷ rest) =
    scan_archives parse run_start
      (judge_archive (read_stamp parse (if a.start == "" then a.time else a.start)) run_start found)
      rest

-- The listing after it is decoded, all repositories in a row; `none` if it cannot be decoded.
unfoldable pub newest_archive_from_this_run :
    Clock → Option (List ListedArchive) → Time → Bool × Time
newest_archive_from_this_run parse none run_start = (false, zero_time)
newest_archive_from_this_run parse (some archives) run_start =
    scan_archives parse run_start (false, zero_time) archives

module _ (h : Host) where
  -- The destination that borg writes to.
  unfoldable pub resolved_repo_path : RepoRef → String
  resolved_repo_path ref =
      let expanded = h.expand_env ref.path in
      if contains_text ref.path "${" && (not (expanded == "") && not (expanded == ref.path))
      then expanded
      else ref.path

  -- The key that the state of a repository is stored under.
  unfoldable pub ref_id : RepoRef → String
  ref_id ref =
      let path = resolved_repo_path ref in
      let key = canonical_repo_key h path in
      if not (ref.label == "")
      then ref.label
      else if not (key == unknown_repo_key)
      then key
      else path

  unfoldable pub repo_identity : String → String
  repo_identity path =
      let key = canonical_repo_key h path in
      let expanded = h.expand_env path in
      if not (key == unknown_repo_key)
      then key
      else if not (expanded == "") && not (expanded == path)
      then canonical_repo_key h expanded
      else unknown_repo_key
