-- ===== src/Runner/Outcomes.antt =====
-- What a run of borgmatic is recorded as: `interpretResult` of internal/runner/runner.go and the
-- functions that judge each repository. The listing of a repository's archives, which runs another
-- process, is a parameter.
pub mod Evidence
pub mod Backed
pub mod Complete
use borgmatic_manager.Prelude.{
  nth, ℕ, suc, ◌+◌, String, Bool, true, false, not, ◌&&◌, ◌||◌, Option, none, some, List, [], ◌∷◌,
  map, ◌==◌, nat_eq, if◌then◌else◌, bind, contains, is_some, is_empty, ◌≡◌, refl,
}
use borgmatic_manager.Prelude.Int.{ℤ, pos, eqb_ℤ}
use borgmatic_manager.GoTime.{Time, zero_time}
use borgmatic_manager.GoMap.{GoMap, put}
use borgmatic_manager.State.Outcome.{
  RunResult, ok, failed, terminated, is_ok, RepoOutcome, RunOutcome,
}
use borgmatic_manager.Config.RepoKey.{Host}
use borgmatic_manager.Config.Repositories.{RepoRef}
use borgmatic_manager.Runner.Results.{
  CreateResult, Clock, ListedArchive, parse_borg_time, newest_archive_from_this_run, ref_id,
  resolved_repo_path,
}
use borgmatic_manager.Runner.Matching.{Pairing, match_results}
use borgmatic_manager.Runner.Mentions.{Bytes, bytes, implicated_repos}

-- How a run ended: what `Wait` returned.
pub data Ending : Type 0 where
  clean wait_failed : Ending
  exit_code : ℤ → Ending
  signaled : ℕ → Ending

-- The run's facts as its output streams left them, and the group that it was for.
pub record Facts : Type 0 where
  pub warnings : ℤ
  pub archive : String
  pub first_error : String
  pub error_messages : List String
  pub log_tail : List String
  pub results : List CreateResult

abbrev pub action_create : String
action_create = "create"

module _ (h : Host) (parse : Clock) where
  -- An outcome before anything is known but its result.
  abbrev pub blank : RepoRef → RunResult → RepoOutcome
  blank ref result = record {
    id = ref_id h ref;
    path = resolved_repo_path h ref;
    result = result;
    files = pos 0;
    original_bytes = pos 0;
    compressed_bytes = pos 0;
    deduplicated_bytes = pos 0;
    duration_seconds = pos 0;
    completed_at = zero_time;
    measured = false;
  }

  unfoldable pub apply_stats : RepoOutcome → CreateResult → RepoOutcome
  apply_stats ro res = record ro {
    measured = true;
    completed_at = parse_borg_time parse res.archive_end;
    files = res.n_files;
    original_bytes = res.original_size;
    compressed_bytes = res.compressed_size;
    deduplicated_bytes = res.deduplicated_size;
    duration_seconds = res.archive_duration;
  }

  -- `matched[i]`.
  unfoldable pub result_of : List RepoRef → List CreateResult → ℕ → Option CreateResult
  result_of configured results i = bind ((match_results h configured results).out i) (nth results)

  abbrev pub with_stats : RepoOutcome → Option CreateResult → RepoOutcome
  with_stats ro none = ro
  with_stats ro (some res) = apply_stats ro res

  unfoldable pub successes : (ℕ → Option CreateResult) → ℕ → List RepoRef → List RepoOutcome
  successes matched i [] = []
  successes matched i (ref ∷ rest) =
      with_stats (blank ref ok) (matched i) ∷ successes matched (suc i) rest

  unfoldable pub per_repo_success :
      List String → List RepoRef → List CreateResult → List RepoOutcome
  per_repo_success actions configured results =
      if contains actions action_create
      then successes (result_of configured results) 0 configured
      else []

  abbrev pub cons_measured : RepoRef → Option CreateResult → List RepoOutcome → List RepoOutcome
  cons_measured ref none rest = rest
  cons_measured ref (some res) rest = apply_stats (blank ref ok) res ∷ rest

  unfoldable pub measured_only : (ℕ → Option CreateResult) → ℕ → List RepoRef → List RepoOutcome
  measured_only matched i [] = []
  measured_only matched i (ref ∷ rest) =
      cons_measured ref (matched i) (measured_only matched (suc i) rest)

  unfoldable pub measured_outcomes : List RepoRef → List CreateResult → List RepoOutcome
  measured_outcomes configured results = measured_only (result_of configured results) 0 configured

  -- What a listing of archives says of the run; the first `none` is a failure to list, the second an
  -- output that cannot be decoded.
  abbrev pub read_listing : Option (Option (List ListedArchive)) → Time → Bool × Time
  read_listing none run_start = (false, zero_time)
  read_listing (some listing) run_start = newest_archive_from_this_run parse listing run_start

  -- `confirmRepoSucceeded`, where `probe` lists the archives of a repository.
  unfoldable pub confirm_repo_succeeded :
      Bool → (String → Option (Option (List ListedArchive))) → String → Time → Bool × Time
  confirm_repo_succeeded context_done probe path run_start =
      if path == "" || context_done then (false, zero_time) else read_listing (probe path) run_start

  -- The evidence on one repository, the strongest first, and the outcome that it leads to.
  unfoldable pub verdict_on :
      RepoRef → Option CreateResult → Bool → Bool × Time → Option RepoOutcome
  verdict_on ref (some res) implicated confirmed = some (apply_stats (blank ref ok) res)
  verdict_on ref none implicated (confirmed, written) =
      if implicated
      then some (blank ref failed)
      else if confirmed
      then some (record (blank ref ok) { completed_at = written })
      else none

  abbrev pub cons_judged : Option RepoOutcome → List RepoOutcome → List RepoOutcome
  cons_judged none rest = rest
  cons_judged (some ro) rest = ro ∷ rest

  module _ (probe : String → Option (Option (List ListedArchive))) (context_done : Bool)
      (run_start : Time) where
    -- A repository without a path is not probed.
    unfoldable pub probed : RepoRef → Bool × Time
    probed ref =
        if ref.path == ""
        then (false, zero_time)
        else confirm_repo_succeeded context_done probe (resolved_repo_path h ref) run_start

    unfoldable pub judge_from :
        (ℕ → Option CreateResult) → (ℕ → Bool) → ℕ → List RepoRef → List RepoOutcome
    judge_from matched implicated i [] = []
    judge_from matched implicated i (ref ∷ rest) =
        cons_judged (verdict_on ref (matched i) (implicated i) (probed ref))
          (judge_from matched implicated (suc i) rest)

    unfoldable pub per_repo_failure :
        List RepoRef → List CreateResult → List String → List RepoOutcome
    per_repo_failure configured results errors =
        judge_from (result_of configured results) (implicated_repos h configured (map bytes errors))
          0 configured
