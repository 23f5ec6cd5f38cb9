-- ===== src/Tests/Repositories.antt =====
-- Runs of a group with two repositories (`RecordRun` of internal/state/schedule.go).
use borgmatic_manager.Prelude.{
  ◌≡◌, refl, true, none, some, List, [], ◌∷◌, is_some, contains, if◌then◌else◌, get_or, String,
}
use borgmatic_manager.Prelude.Int.{pos}
use borgmatic_manager.GoTime.{is_zero}
use borgmatic_manager.GoMap.{IsMap, get, put, update_each}
use borgmatic_manager.Config.RepoKey.{Host, canonical_repo_key}
use borgmatic_manager.State.Outcome.{
  RepoOutcome, RunOutcome, RepoRecord, GroupRecord, RunResult, ok, failed, zero_repo_record,
  measured_stats, has_stats,
}
use borgmatic_manager.State.RecordRun.{
  slim, push_history, same_destination, moved, adopted, archived_at, advance, record_repository,
  reconciled, materialize, drop_removed, reconcile_inventory, record_outcome,
}
use borgmatic_manager.State.RecordRun.Freshness.{
  inventory_exact, success_recorded, failure_keeps_freshness,
}

program : Unit {0}
unfolding has_stats measured_stats slim push_history canonical_repo_key same_destination moved
    adopted archived_at advance record_repository reconciled materialize drop_removed
    reconcile_inventory record_outcome get put update_each
program = tt

abbrev pub plain_host : Host
plain_host = record { expand_env = λ p. p; eval_symlinks = λ p. none }

abbrev pub judged : String → String → RunResult → RepoOutcome
judged id path result = record {
  id = id;
  path = path;
  result = result;
  files = pos 10;
  original_bytes = pos 4096;
  compressed_bytes = pos 2048;
  deduplicated_bytes = pos 1024;
  duration_seconds = pos 3;
  completed_at = pos 950;
  measured = true;
}

abbrev pub run_of : List RepoOutcome → RunOutcome
run_of repos = record {
  finished = pos 1000;
  result = failed;
  exit_code = pos 1;
  configured_repositories = "a" ∷ "b" ∷ "c" ∷ [];
  configured_repository_paths = ("a", "/srv/a") ∷ ("b", "/srv/b") ∷ ("c", "/srv/c") ∷ [];
  repositories_known = true;
  create_attempted = true;
  last_error = "";
  warnings = pos 0;
  duration_seconds = pos 50;
  log_tail = "last line" ∷ [];
  archive = "";
  files = pos 0;
  original_bytes = pos 0;
  compressed_bytes = pos 0;
  deduplicated_bytes = pos 0;
  repositories = repos;
}

abbrev known_at : String → RepoRecord
known_at path = record {
  path = path;
  last_success = pos 500;
  last_run = none;
  last_stats = some (judged "a" path ok);
}

-- `a` is recorded, `b` has moved, `c` is new, and `old` is no longer configured.
abbrev before : GroupRecord
before = record {
  last_success = pos 500;
  fingerprint = "f";
  last_run = none;
  history = [];
  repositories =
      ("a", known_at "/srv/a") ∷ ("b", known_at "/mnt/b") ∷ ("old", known_at "/srv/old") ∷ [];
  missing_cycles = pos 0;
}

abbrev pub bad_run : RunOutcome
bad_run = run_of (judged "a" "/srv/a" failed ∷ judged "b" "/srv/b" failed ∷ [])

abbrev good_run : RunOutcome
good_run = run_of (judged "a" "/srv/a" ok ∷ [])

after_bad_run :
    (record_outcome plain_host bad_run before).repositories
    ≡ ("a", record (known_at "/srv/a") { last_run = some (judged "a" "/srv/a" failed) })
      ∷ (
        "b",
        record zero_repo_record { path = "/srv/b"; last_run = some (judged "b" "/srv/b" failed) },
      )
      ∷ ("c", record zero_repo_record { path = "/srv/c" })
      ∷ []
unfolding program
after_bad_run = refl

before-IsMap : IsMap before.repositories
unfolding get
before-IsMap = (refl, (refl, (refl, tt)))

inventory_exact_example :
    is_some (get (record_outcome plain_host bad_run before).repositories "old")
    ≡ contains ("a" ∷ "b" ∷ "c" ∷ []) "old"
inventory_exact_example = inventory_exact plain_host bad_run before "old" before-IsMap refl

success_recorded_example :
    (rr : RepoRecord) × (get (record_outcome plain_host good_run before).repositories "a" ≡ some rr)
    × (rr.last_success ≡ (
        if is_zero (judged "a" "/srv/a" ok).completed_at
        then pos 1000
        else (judged "a" "/srv/a" ok).completed_at))
    × (rr.last_run ≡ some (judged "a" "/srv/a" ok))
    × (rr.last_stats ≡ (
        if measured_stats (judged "a" "/srv/a" ok)
        then some (judged "a" "/srv/a" ok)
        else (adopted plain_host
            (get_or zero_repo_record (get before.repositories "a"))
            "/srv/a").last_stats))
unfolding get
success_recorded_example =
    success_recorded plain_host good_run before "a" before-IsMap refl (judged "a" "/srv/a" ok) refl
      refl refl

failure_keeps_freshness_example :
    (rr : RepoRecord) × (get (record_outcome plain_host bad_run before).repositories "a" ≡ some rr)
    × (rr.last_success ≡ pos 500)
    × (rr.last_stats ≡ some (judged "a" "/srv/a" ok))
    × (rr.last_run ≡ some (judged "a" "/srv/a" failed))
unfolding program
failure_keeps_freshness_example =
    failure_keeps_freshness plain_host bad_run before "a" before-IsMap refl
      (judged "a" "/srv/a" failed) refl refl (known_at "/srv/a") refl refl refl

-- A run that judges only `b`: `a` keeps its history.
abbrev other_run : RunOutcome
other_run = run_of (judged "b" "/srv/b" ok ∷ [])
