-- ===== src/Runner/Verdict.antt =====
-- `interpretResult` of internal/runner/runner.go: what a run's end is recorded as, and the error that
-- the caller sees.
pub mod Exits
use borgmatic_manager.Prelude.{
  ℕ, ◌+◌, String, Bool, true, false, not, ◌&&◌, ◌||◌, Option, none, some, List, [], ◌∷◌, map, ◌==◌,
  if◌then◌else◌, contains, ◌≡◌, refl,
}
use borgmatic_manager.Prelude.Int.{ℤ, pos, eqb_ℤ}
use borgmatic_manager.GoTime.{Time}
use borgmatic_manager.GoMap.{GoMap, put}
use borgmatic_manager.State.Outcome.{
  RunResult, ok, failed, terminated, is_ok, RepoOutcome, RunOutcome,
}
use borgmatic_manager.Config.RepoKey.{Host}
use borgmatic_manager.Config.Repositories.{RepoRef}
use borgmatic_manager.Runner.Results.{
  CreateResult, Clock, ListedArchive, ref_id, resolved_repo_path,
}
use borgmatic_manager.Runner.Outcomes.{
  Ending, clean, wait_failed, exit_code, signaled, Facts, action_create, per_repo_success,
  measured_outcomes, per_repo_failure,
}

-- 128 and the number of the signal, as a shell reports it.
abbrev pub sigint_exit : ℤ
sigint_exit = pos 130

abbrev pub sigkill_exit : ℤ
sigkill_exit = pos 137

abbrev pub sigterm_exit : ℤ
sigterm_exit = pos 143

-- The error of a run, if any.
pub data Trouble : Type 0 where
  no_trouble timed_out_and_terminated terminated_by_signal was_killed borgmatic_failed : Trouble
  waiting_failed : Trouble

-- The case of the `switch` that an exit code falls in.
unfoldable pub judge_exit : ℤ → Bool → RunResult × Trouble
judge_exit code timed_out =
    if eqb_ℤ code (pos 0)
    then (ok, no_trouble)
    else if timed_out && (eqb_ℤ code sigterm_exit || eqb_ℤ code sigkill_exit)
    then (terminated, timed_out_and_terminated)
    else if eqb_ℤ code sigint_exit || eqb_ℤ code sigterm_exit
    then (terminated, terminated_by_signal)
    else if eqb_ℤ code sigkill_exit
    then (failed, was_killed)
    else (failed, borgmatic_failed)

-- The exit code, with a death by a signal as a shell reports it.
unfoldable pub code_of : Ending → Option ℤ
code_of clean = some (pos 0)
code_of (exit_code n) = some n
code_of (signaled s) = some (pos (128 + s))
code_of wait_failed = none

-- One run: its runner's actions, the group's repositories and whether they are known in full, its
-- times, and what bounds it.
pub record Finished : Type 0 where
  pub actions : List String
  pub configured : List RepoRef
  pub repositories_known : Bool
  pub started : Time
  pub now : Time
  pub seconds : ℤ
  pub timed_out : Bool
  pub context_done : Bool

-- The representative of the group's data set, the first result.
abbrev pub with_first : RunOutcome → List CreateResult → RunOutcome
with_first o [] = o
with_first o (rep ∷ rest) = record o {
  archive = rep.archive_name;
  files = rep.n_files;
  original_bytes = rep.original_size;
  compressed_bytes = rep.compressed_size;
  deduplicated_bytes = rep.deduplicated_size;
}

module _ (h : Host) (parse : Clock) (probe : String → Option (Option (List ListedArchive))) where
  unfoldable pub configured_paths : GoMap String → List RepoRef → GoMap String
  configured_paths paths [] = paths
  configured_paths paths (ref ∷ rest) =
      let next =
        if ref.path == "" then paths else put paths (ref_id h ref) (resolved_repo_path h ref) in
      configured_paths next rest

  unfoldable pub outcome_of : Finished → Facts → ℤ → RunResult → List RepoOutcome → RunOutcome
  outcome_of run facts code result repos =
      with_first
        (record {
          finished = run.now;
          result = result;
          exit_code = code;
          configured_repositories = map (ref_id h) run.configured;
          configured_repository_paths = configured_paths [] run.configured;
          repositories_known = run.repositories_known;
          create_attempted = contains run.actions action_create;
          last_error = if is_ok result then "" else facts.first_error;
          warnings = facts.warnings;
          duration_seconds = run.seconds;
          log_tail = facts.log_tail;
          archive = facts.archive;
          files = pos 0;
          original_bytes = pos 0;
          compressed_bytes = pos 0;
          deduplicated_bytes = pos 0;
          repositories = repos;
        })
        facts.results

  -- The outcomes of the repositories, by the result of the run.
  unfoldable pub repo_outcomes : Finished → Facts → RunResult → List RepoOutcome
  repo_outcomes run facts ok = per_repo_success h parse run.actions run.configured facts.results
  repo_outcomes run facts terminated = measured_outcomes h parse run.configured facts.results
  repo_outcomes run facts failed =
      per_repo_failure h parse probe run.context_done run.started run.configured facts.results
        facts.error_messages

  abbrev pub record_verdict : Finished → Facts → Option ℤ → Option RunOutcome × Trouble
  record_verdict run facts none = (none, waiting_failed)
  record_verdict run facts (some code) =
      let (result, trouble) = judge_exit code run.timed_out in
      (some (outcome_of run facts code result (repo_outcomes run facts result)), trouble)

  -- What is handed to the recorder, if anything, and the error.
  unfoldable pub interpret_result : Finished → Facts → Ending → Option RunOutcome × Trouble
  interpret_result run facts ending = record_verdict run facts (code_of ending)
