-- ===== src/Runner/Outcomes/Evidence.antt =====
-- What a repository's outcome rests on in `perRepoFailure`, `measuredOutcomes` and `perRepoSuccess`.
use native.Mathlib.Nat.{add-zero}
use borgmatic_manager.Prelude.{
  nth, sym, subst, ap, get_or, ℕ, suc, ◌+◌, String, Bool, true, false, ◌||◌, Option, none, some,
  List, [], ◌∷◌, map, ◌==◌, ◌≡◌, refl, arith, All, All-impl, if_both,
}
use borgmatic_manager.Prelude.Int.{◌≤ℤ◌}
use borgmatic_manager.GoTime.{Time}
use borgmatic_manager.State.Outcome.{ok, failed, RepoOutcome}
use borgmatic_manager.Config.RepoKey.{Host}
use borgmatic_manager.Config.Repositories.{RepoRef}
use borgmatic_manager.Runner.Results.{
  CreateResult, Clock, ListedArchive, resolved_repo_path, ref_id,
}
use borgmatic_manager.Runner.Results.Freshness.{found_archive_fresh}
use borgmatic_manager.Runner.Mentions.{bytes, implicated_repos}
use borgmatic_manager.Runner.Outcomes.{
  read_listing, blank, apply_stats, result_of, confirm_repo_succeeded, verdict_on, cons_judged,
  probed, judge_from, per_repo_failure,
}

-- A confirmation is dated, and not before the run.
abbrev pub IsDated : Time → Bool × Time → Type 0
IsDated run confirmed = confirmed.0 ≡ true → run ≤ℤ confirmed.1

listing-IsDated :
    (h : Host) (parse : Clock) (listing : Option (Option (List ListedArchive))) (run : Time)
    → IsDated run (read_listing h parse listing run)
listing-IsDated h parse none run e = cc
listing-IsDated h parse (some listing) run e = found_archive_fresh parse listing run e

module _ (h : Host) (parse : Clock) (probe : String → Option (Option (List ListedArchive)))
    (context_done : Bool) (run_start : Time) where
  pub probed-IsDated :
      (ref : RepoRef) → IsDated run_start (probed h parse probe context_done run_start ref)
  unfolding probed confirm_repo_succeeded
  probed-IsDated ref =
      let path = resolved_repo_path h ref in
      if_both (IsDated run_start) (ref.path == "") _ _ (λ e. cc)
        (if_both (IsDated run_start) (path == "" || context_done) _ _ (λ e. cc)
          (listing-IsDated h parse (probe path) run_start))

  -- An outcome is that of a result, or of an archive that was written since the run began, or a
  -- failure that an error names.
  abbrev pub HasEvidence : Option CreateResult → Bool → RepoRef → RepoOutcome → Type 0
  HasEvidence (some res) implicated ref ro = ro ≡ apply_stats h parse (blank h parse ref ok) res
  HasEvidence none true ref ro = ro ≡ blank h parse ref failed
  HasEvidence none false ref ro =
      (ro.id ≡ ref_id h ref) × (ro.result ≡ ok) × (run_start ≤ℤ ro.completed_at)

  verdict_on-HasEvidence :
      (o : Option CreateResult) (implicated : Bool) (confirmed : Bool × Time) (ref : RepoRef)
      (ro : RepoOutcome)
      → IsDated run_start confirmed
      → verdict_on h parse ref o implicated confirmed ≡ some ro
      → HasEvidence o implicated ref ro
  unfolding verdict_on
  verdict_on-HasEvidence (some res) implicated confirmed ref ro d e = sym (ap (get_or ro) e)
  verdict_on-HasEvidence none true confirmed ref ro d e = sym (ap (get_or ro) e)
  verdict_on-HasEvidence none false (true, written) ref ro d e =
      subst (HasEvidence none false ref) (ap (get_or ro) e) (refl, refl, d refl)
  verdict_on-HasEvidence none false (false, written) ref ro d e = cc

  module _ (matched : ℕ → Option CreateResult) (implicated : ℕ → Bool) where
    -- The outcome has evidence for one of the repositories, whose indices begin at `i`.
    abbrev pub IsJustified : ℕ → List RepoRef → RepoOutcome → Type 0
    IsJustified i refs ro =
        (d : ℕ) × (ref : RepoRef) × (nth refs d ≡ some ref)
        × HasEvidence (matched (i + d)) (implicated (i + d)) ref ro

    later :
        (i : ℕ) (q : RepoRef) (refs : List RepoRef) (ro : RepoOutcome)
        → IsJustified (suc i) refs ro
        → IsJustified i (q ∷ refs) ro
    unfolding nth
    later i q refs ro (d, ref, e, v) =
        let shift : suc i + d ≡ i + suc d = omega arith in
        (suc d, ref, e, subst (λ k. HasEvidence (matched k) (implicated k) ref ro) shift v)

    cons_judged-IsJustified :
        (i : ℕ) (q : RepoRef) (refs : List RepoRef) (o : Option RepoOutcome)
        (ros : List RepoOutcome)
        → ((ro : RepoOutcome) → o ≡ some ro → HasEvidence (matched i) (implicated i) q ro)
        → All (IsJustified (suc i) refs) ros
        → All (IsJustified i (q ∷ refs)) (cons_judged h parse o ros)
    unfolding nth
    cons_judged-IsJustified i q refs none ros v all = All-impl ros (later i q refs) all
    cons_judged-IsJustified i q refs (some ro) ros v all = (
      (
        0,
        q,
        refl,
        subst (λ k. HasEvidence (matched k) (implicated k) q ro) (sym (add-zero i)) (v ro refl),
      ),
      All-impl ros (later i q refs) all,
    )

    judge_from-IsJustified :
        (i : ℕ) (refs : List RepoRef)
        → All
            (IsJustified i refs)
            (judge_from h parse probe context_done run_start matched implicated i refs)
    unfolding judge_from
    judge_from-IsJustified i [] = tt
    judge_from-IsJustified i (q ∷ refs) =
        cons_judged-IsJustified i q refs _ _
          (λ ro e. verdict_on-HasEvidence (matched i) (implicated i) _ q ro (probed-IsDated q) e)
          (judge_from-IsJustified (suc i) refs)

  -- A failed run judges a repository by the strongest evidence: the result in its report, even if an
  -- error names the repository; then such an error, which makes it a failure; then an archive that
  -- was written since the run began. A repository without any of these is left out.
  pub failure_outcomes_justified :
      (configured : List RepoRef) (results : List CreateResult) (errors : List String)
      → All
          (IsJustified
            (result_of h parse configured results)
            (implicated_repos h configured (map bytes errors))
            0
            configured)
          (per_repo_failure h parse probe context_done run_start configured results errors)
  unfolding per_repo_failure
  failure_outcomes_justified configured results errors =
      judge_from-IsJustified (result_of h parse configured results)
        (implicated_repos h configured (map bytes errors)) 0 configured
