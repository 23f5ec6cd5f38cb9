-- ===== src/Runner/Outcomes/Complete.antt =====
-- Which repositories `perRepoFailure` of internal/runner/runner.go judges, and how: all of them, in
-- order, with nothing besides.
use borgmatic_manager.Prelude.{
  ℕ, suc, String, Bool, true, false, ◌||◌, Option, none, some, List, [], ◌∷◌, map, any, ◌==◌, ◌≡◌,
  ◌⊎◌, inl, inr, refl, sym, if◌then◌else◌, Bool-cases,
}
use borgmatic_manager.Prelude.Int.{◌≤ℤ◌}
use borgmatic_manager.GoTime.{Time, zero_time}
use borgmatic_manager.State.Outcome.{ok, failed, RepoOutcome}
use borgmatic_manager.Config.RepoKey.{Host}
use borgmatic_manager.Config.Repositories.{RepoRef}
use borgmatic_manager.Runner.Results.{
  CreateResult, Clock, ListedArchive, resolved_repo_path, newest_archive_from_this_run,
}
use borgmatic_manager.Runner.Mentions.{bytes, implicated_repos}
use borgmatic_manager.Runner.Outcomes.{
  read_listing, blank, apply_stats, result_of, confirm_repo_succeeded, verdict_on, cons_judged,
  probed, judge_from, per_repo_failure,
}
use borgmatic_manager.Runner.Outcomes.Evidence.{IsDated, probed-IsDated}
use borgmatic_manager.Runner.Results.Found.{
  stamp_of, is_of_run, Wrote, scan_archives-found, scan_archives-time,
}

-- The archives that a listing shows; one that fails or cannot be decoded shows none.
abbrev pub entries_of : Option (Option (List ListedArchive)) → List ListedArchive
entries_of none = []
entries_of (some none) = []
entries_of (some (some archives)) = archives

module _ (h : Host) (parse : Clock) (probe : String → Option (Option (List ListedArchive)))
    (context_done : Bool) (run_start : Time) where
  -- The archives that are known of a repository: without a path, or once the process is told to end,
  -- it is not asked.
  abbrev pub listed : RepoRef → List ListedArchive
  listed ref =
      let path = resolved_repo_path h ref in
      if ref.path == "" || (path == "" || context_done) then [] else entries_of (probe path)

  abbrev pub has_archive : RepoRef → Bool
  has_archive ref = any (λ a. is_of_run run_start (stamp_of parse a)) (listed ref)

  module _ (matched : ℕ → Option CreateResult) (implicated : ℕ → Bool) where
    -- The outcomes of the repositories from index `i` on.
    pub data Judged : ℕ → List RepoRef → List RepoOutcome → Type 0 where
      nobody : (i : ℕ) → Judged i [] []
      reported :
          (i : ℕ) (ref : RepoRef) (refs : List RepoRef) (res : CreateResult)
          (ros : List RepoOutcome)
          → matched i ≡ some res
          → Judged (suc i) refs ros
          → Judged i (ref ∷ refs) (apply_stats h parse (blank h parse ref ok) res ∷ ros)
      named :
          (i : ℕ) (ref : RepoRef) (refs : List RepoRef) (ros : List RepoOutcome)
          → matched i ≡ none
          → implicated i ≡ true
          → Judged (suc i) refs ros
          → Judged i (ref ∷ refs) (blank h parse ref failed ∷ ros)
      confirmed :
          (i : ℕ) (ref : RepoRef) (refs : List RepoRef) (written : Time) (ros : List RepoOutcome)
          → matched i ≡ none
          → implicated i ≡ false
          → has_archive ref ≡ true
          → run_start ≤ℤ written
          → (written ≡ zero_time) ⊎ Wrote parse run_start (listed ref) written
          → Judged (suc i) refs ros
          → Judged i (ref ∷ refs) (record (blank h parse ref ok) { completed_at = written } ∷ ros)
      left_out :
          (i : ℕ) (ref : RepoRef) (refs : List RepoRef) (ros : List RepoOutcome)
          → matched i ≡ none
          → implicated i ≡ false
          → has_archive ref ≡ false
          → Judged (suc i) refs ros
          → Judged i (ref ∷ refs) ros

  -- What a probe says is what the listing shows.
  abbrev Agrees : List ListedArchive → Bool × Time → Type 0
  Agrees archives found =
      (found.0 ≡ any (λ a. is_of_run run_start (stamp_of parse a)) archives)
      × ((found.1 ≡ zero_time) ⊎ Wrote parse run_start archives found.1)

  listing-Agrees :
      (listing : Option (Option (List ListedArchive)))
      → Agrees (entries_of listing) (read_listing h parse listing run_start)
  unfolding newest_archive_from_this_run
  listing-Agrees none = (refl, inl refl)
  listing-Agrees (some none) = (refl, inl refl)
  listing-Agrees (some (some archives)) = (
    scan_archives-found parse run_start (false, zero_time) archives,
    scan_archives-time parse run_start (false, zero_time) archives,
  )

  probed-Agrees :
      (ref : RepoRef) → Agrees (listed ref) (probed h parse probe context_done run_start ref)
  unfolding probed confirm_repo_succeeded
  probed-Agrees ref = elim (Bool-cases (ref.path == "")) [
    | inl blank_path ↦ rw blank_path (refl, inl refl)
    | inr given ↦ rw given (elim (Bool-cases (resolved_repo_path h ref == "" || context_done)) [
      | inl unasked ↦ rw unasked (refl, inl refl)
      | inr asked ↦ rw asked (listing-Agrees (probe (resolved_repo_path h ref)))
    ])
  ]

  module _ (matched : ℕ → Option CreateResult) (implicated : ℕ → Bool) where
    verdict_on-Judged :
        (i : ℕ) (ref : RepoRef) (refs : List RepoRef) (ros : List RepoOutcome)
        (o : Option CreateResult) (b : Bool) (found : Bool × Time)
        → matched i ≡ o
        → implicated i ≡ b
        → Agrees (listed ref) found
        → IsDated run_start found
        → Judged matched implicated (suc i) refs ros
        → Judged matched implicated i
            (ref ∷ refs)
            (cons_judged h parse (verdict_on h parse ref o b found) ros)
    unfolding verdict_on
    verdict_on-Judged i ref refs ros (some res) b found m q a d js =
        reported i ref refs res ros m js
    verdict_on-Judged i ref refs ros none true found m q a d js = named i ref refs ros m q js
    verdict_on-Judged i ref refs ros none false (true, written) m q a d js =
        confirmed i ref refs written ros m q (sym a.0) (d refl) a.1 js
    verdict_on-Judged i ref refs ros none false (false, written) m q a d js =
        left_out i ref refs ros m q (sym a.0) js

    judge_from-Judged :
        (i : ℕ) (refs : List RepoRef)
        → Judged matched implicated i refs
            (judge_from h parse probe context_done run_start matched implicated i refs)
    unfolding judge_from
    judge_from-Judged i [] = nobody i
    judge_from-Judged i (ref ∷ refs) =
        verdict_on-Judged i ref refs _ (matched i) (implicated i) _ refl refl (probed-Agrees ref)
          (probed-IsDated h parse probe context_done run_start ref) (judge_from-Judged (suc i) refs)

  -- A failed run leaves these outcomes, in the order of the configuration, and no others. A
  -- repository with a result in the report is a success with its statistics, even if an error names
  -- it. Any other that an error names is a failure. Any other is a success exactly if the listing of
  -- its archives shows one of this run, dated by such an archive (or by Go's zero time, which
  -- archives from before the year 1 do not move) and not before the run; else it is left out.
  pub failure_outcomes_exact :
      (configured : List RepoRef) (results : List CreateResult) (errors : List String)
      → Judged
          (result_of h parse configured results)
          (implicated_repos h configured (map bytes errors))
          0
          configured
          (per_repo_failure h parse probe context_done run_start configured results errors)
  unfolding per_repo_failure
  failure_outcomes_exact configured results errors =
      judge_from-Judged (result_of h parse configured results)
        (implicated_repos h configured (map bytes errors)) 0 configured
