-- ===== src/Tests/Judged.antt =====
-- A run over two repositories, of which one fails (internal/runner/runner.go).
use borgmatic_manager.Prelude.{
  not, is_empty, ℕ, zero, suc, String, ◌≡◌, refl, true, false, Option, none, some, List, [], ◌∷◌,
  All, nth, ap, sym, subst, get_or, if◌then◌else◌, ◌==◌, ◌*◌, ◌+◌,
}
use borgmatic_manager.Prelude.Int.{pos, ◌≤ℤ◌}
use borgmatic_manager.GoTime.{second, truncate}
use borgmatic_manager.State.Outcome.{failed, is_ok, RunOutcome}
use borgmatic_manager.Config.Repositories.{RepoRef}
use borgmatic_manager.Runner.Results.{
  repo_identity, micros, seconds, Clock, ListedArchive, CreateResult, newest_archive_from_this_run,
  scan_archives, read_stamp, archive_is_from_this_run,
}
use borgmatic_manager.Runner.Results.Freshness.{found_archive_fresh}
use borgmatic_manager.Runner.Matching.{exact, match_results}
use borgmatic_manager.Runner.Matching.Exact.{OnlyAt, named_result_credited}
use borgmatic_manager.Runner.Mentions.{
  begins_with, insert_longest, repo_spellings, overlaps_claimed, occurrences_from, implicated_repos,
  mentioned_in_errors, token_occurrences, token_here, longest_first, candidates_from,
  contains_path_token, utf8, token_from, before_ok, after_ok, read_candidate, read_message,
  add_spelling, read_occurrence, is_name_byte, bytes,
}
use borgmatic_manager.Config.RepoKey.{canonical_repo_key, located_key, is_remote, clean}
use borgmatic_manager.GoStrings.{trim_right, contains_text, has_prefix}
use borgmatic_manager.Runner.Outcomes.{Facts, exit_code, result_of, per_repo_failure}
use borgmatic_manager.Runner.Outcomes.Complete.{Judged, failure_outcomes_exact}
use borgmatic_manager.Runner.Outcomes.Backed.{IsBacked}
use borgmatic_manager.Runner.Verdict.{
  Finished, interpret_result, judge_exit, code_of, outcome_of, repo_outcomes, Trouble,
  borgmatic_failed,
}
use borgmatic_manager.Runner.Verdict.Exits.{success_needs_evidence}
use borgmatic_manager.Runner.Mentions.Named.{IsMentioned, implicated_repos-IsMentioned}
use borgmatic_manager.Runner.Mentions.Found.{mentioned_repos_implicate}
use borgmatic_manager.Runner.Mentions.Tokens.{contains_path_token-token_occurrences}
use borgmatic_manager.Tests.Repositories.{plain_host}

abbrev old_repo : RepoRef
old_repo = record { path = "/mnt/repo old"; label = "" }

abbrev repo : RepoRef
repo = record { path = "/mnt/repo"; label = "" }

abbrev error : String
error = "Repository /mnt/repo old: locked"

-- The longer path owns the text, so the shorter one is not implicated.
longest_wins :
    (implicated_repos plain_host (repo ∷ old_repo ∷ []) (bytes error ∷ []) 0 ≡ false)
    × (implicated_repos plain_host (repo ∷ old_repo ∷ []) (bytes error ∷ []) 1 ≡ true)
unfolding implicated_repos read_message longest_first insert_longest candidates_from read_candidate
    read_occurrence overlaps_claimed repo_spellings add_spelling bytes utf8 token_occurrences
    occurrences_from token_here begins_with is_name_byte canonical_repo_key located_key is_remote
    clean repo_identity trim_right contains_text has_prefix
longest_wins = (refl, refl)

shorter_mentioned : mentioned_in_errors plain_host "/mnt/repo" (bytes error ∷ []) ≡ true
unfolding mentioned_in_errors contains_path_token token_from before_ok after_ok repo_spellings
    add_spelling bytes utf8 token_occurrences occurrences_from token_here begins_with is_name_byte
    canonical_repo_key located_key is_remote clean repo_identity trim_right contains_text has_prefix
shorter_mentioned = refl

implicated_repos-IsMentioned_example :
    IsMentioned plain_host (repo ∷ old_repo ∷ []) (bytes error ∷ []) 1
implicated_repos-IsMentioned_example =
    implicated_repos-IsMentioned plain_host (repo ∷ old_repo ∷ []) (bytes error ∷ []) 1
      longest_wins.1

mentioned_repos_implicate_example :
    (k : ℕ) × (implicated_repos plain_host (repo ∷ old_repo ∷ []) (bytes error ∷ []) k ≡ true)
unfolding nth
mentioned_repos_implicate_example =
    mentioned_repos_implicate plain_host (repo ∷ old_repo ∷ []) (bytes error ∷ []) 0 repo refl
      shorter_mentioned

abbrev result_at : String → String → CreateResult
result_at location label = record {
  archive_name = "web-1";
  archive_end = "t";
  archive_duration = pos 2;
  n_files = pos 3;
  original_size = pos 4;
  compressed_size = pos 5;
  deduplicated_size = pos 6;
  location = location;
  label = label;
}

only_ref : OnlyAt (λ r. exact r (result_at "/mnt/repo" "")) (repo ∷ old_repo ∷ []) 0
unfolding nth exact
only_ref zero r e q = refl
only_ref (suc zero) r e q =
    let same : old_repo ≡ r = ap (get_or old_repo) e in
    let named : exact old_repo (result_at "/mnt/repo" "") ≡ true =
      subst (λ r'. exact r' (result_at "/mnt/repo" "") ≡ true) (sym same) q in
    cc
only_ref (suc (suc d)) r e q = cc

only_res : OnlyAt (exact repo) (result_at "/mnt/repo" "" ∷ []) 0
unfolding nth
only_res zero r e q = refl
only_res (suc d) r e q = cc

named_result_credited_example :
    (match_results plain_host (repo ∷ old_repo ∷ []) (result_at "/mnt/repo" "" ∷ [])).out 0 ≡ some 0
unfolding nth exact
named_result_credited_example =
    named_result_credited plain_host (repo ∷ old_repo ∷ []) (result_at "/mnt/repo" "" ∷ []) 0 0 repo
      (result_at "/mnt/repo" "") refl refl refl only_ref only_res

-- Times of whole seconds only.
abbrev whole_seconds : Clock
whole_seconds micros s = none
whole_seconds seconds s = if s == "t" then some (pos (7 * second)) else none

abbrev listing : Option (List ListedArchive)
listing = some (record { start = ""; time = "t" } ∷ record { start = "x"; time = "t" } ∷ [])

archive_found : (newest_archive_from_this_run whole_seconds listing (pos (6 * second + 5))).0 ≡ true
unfolding newest_archive_from_this_run scan_archives read_stamp archive_is_from_this_run truncate
archive_found = refl

found_archive_fresh_example :
    pos (6 * second + 5)
    ≤ℤ (newest_archive_from_this_run whole_seconds listing (pos (6 * second + 5))).1
found_archive_fresh_example =
    found_archive_fresh whole_seconds listing (pos (6 * second + 5)) archive_found

abbrev facts : Facts
facts = record {
  warnings = pos 0;
  archive = "";
  first_error = error;
  error_messages = error ∷ [];
  log_tail = [];
  results = [];
}

abbrev finished : List String → Finished
finished actions = record {
  actions = actions;
  configured = repo ∷ old_repo ∷ [];
  repositories_known = true;
  started = pos (6 * second + 5);
  now = pos (9 * second);
  seconds = pos 3;
  timed_out = false;
  context_done = false;
}

failure_outcomes_exact_example :
    Judged plain_host whole_seconds
      (λ p. some listing)
      false
      (pos (6 * second + 5))
      (result_of plain_host whole_seconds (repo ∷ old_repo ∷ []) [])
      (implicated_repos plain_host (repo ∷ old_repo ∷ []) (bytes error ∷ []))
      0
      (repo ∷ old_repo ∷ [])
      (per_repo_failure plain_host whole_seconds
        (λ p. some listing)
        false
        (pos (6 * second + 5))
        (repo ∷ old_repo ∷ [])
        []
        (error ∷ []))
failure_outcomes_exact_example =
    failure_outcomes_exact plain_host whole_seconds (λ p. some listing) false (pos (6 * second + 5))
      (repo ∷ old_repo ∷ []) [] (error ∷ [])

-- The run failed; the repository that no error names is confirmed by its archive.
abbrev failed_run : Option RunOutcome × Trouble
failed_run =
    interpret_result plain_host whole_seconds (λ p. some listing) (finished ("create" ∷ [])) facts
      (exit_code (pos 1))

abbrev failed_outcome : RunOutcome
failed_outcome =
    outcome_of plain_host whole_seconds (λ p. some listing) (finished ("create" ∷ [])) facts (pos 1)
      failed
      (repo_outcomes plain_host whole_seconds (λ p. some listing) (finished ("create" ∷ [])) facts
        failed)

failed_recorded : failed_run ≡ (some failed_outcome, borgmatic_failed)
unfolding interpret_result code_of judge_exit
failed_recorded = refl

failed_not_ok : is_ok failed_outcome.result ≡ false
unfolding outcome_of
failed_not_ok = refl

success_needs_evidence_example :
    All (IsBacked plain_host whole_seconds (pos (6 * second + 5)) []) failed_outcome.repositories
success_needs_evidence_example =
    success_needs_evidence plain_host whole_seconds (λ p. some listing) (finished ("create" ∷ []))
      facts (exit_code (pos 1)) failed_outcome borgmatic_failed failed_recorded failed_not_ok

contains_path_token-token_occurrences_example :
    contains_path_token (bytes error) (b'/' ∷ [])
    ≡ not (is_empty (token_occurrences (bytes error) (b'/' ∷ [])))
contains_path_token-token_occurrences_example =
    contains_path_token-token_occurrences (bytes error) b'/' []
