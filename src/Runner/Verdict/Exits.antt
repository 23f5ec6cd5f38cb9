-- ===== src/Runner/Verdict/Exits.antt =====
-- How `interpretResult` tells a stopped run from a failed one, and what it records of each.
use borgmatic_manager.Prelude.{
  ◌∙◌, String, Bool, true, false, ◌&&◌, ◌||◌, Option, none, some, List, [], ◌∷◌, contains, ◌≡◌,
  refl, arith, All, ◌↔◌, ap, get_or, sym, subst,
}
use borgmatic_manager.Prelude.Int.{ℤ, eqb_ℤ}
use borgmatic_manager.State.Outcome.{
  RunResult, ok, failed, terminated, is_ok, RepoOutcome, RunOutcome,
}
use borgmatic_manager.Config.RepoKey.{Host}
use borgmatic_manager.Runner.Results.{CreateResult, Clock, ListedArchive}
use borgmatic_manager.Runner.Outcomes.{Ending, Facts, action_create, per_repo_success}
use borgmatic_manager.Runner.Outcomes.Backed.{
  IsBacked, failure-IsBacked, measured-outcomes-IsBacked,
}
use borgmatic_manager.Runner.Verdict.{
  Trouble, no_trouble, sigint_exit, sigkill_exit, sigterm_exit, judge_exit, code_of, Finished,
  with_first, outcome_of, repo_outcomes, record_verdict, interpret_result,
}

-- A run counts as stopped rather than failed exactly if its exit code is that of an interrupt or of
-- a termination, or that of a kill after its own time limit; a kill from outside is a failure.
pub terminated_iff :
    (code : ℤ) (timed_out : Bool)
    → ((judge_exit code timed_out).0 ≡ terminated) ↔ (
        (eqb_ℤ code sigint_exit
          || eqb_ℤ code sigterm_exit
          || (timed_out && eqb_ℤ code sigkill_exit))
        ≡ true)
unfolding judge_exit
terminated_iff code timed_out = ground arith

-- The caller sees an error unless the exit code is 0.
pub trouble_iff :
    (code : ℤ) (timed_out : Bool)
    → ((judge_exit code timed_out).1 ≡ no_trouble) ↔ ((judge_exit code timed_out).0 ≡ ok)
unfolding judge_exit
trouble_iff code timed_out = ground arith

with_first-keeps :
    (o : RunOutcome) (rs : List CreateResult)
    → ((with_first o rs).repositories ≡ o.repositories) × ((with_first o rs).result ≡ o.result)
with_first-keeps o [] = (refl, refl)
with_first-keeps o (rep ∷ rest) = (refl, refl)

module _ (h : Host) (parse : Clock) (probe : String → Option (Option (List ListedArchive))) where
  outcome-repositories :
      (run : Finished) (facts : Facts) (code : ℤ) (result : RunResult) (repos : List RepoOutcome)
      → ((outcome_of h parse probe run facts code result repos).repositories ≡ repos)
        × ((outcome_of h parse probe run facts code result repos).result ≡ result)
  unfolding outcome_of
  outcome-repositories run facts code result repos = with_first-keeps _ facts.results

  repo_outcomes-IsBacked :
      (run : Finished) (facts : Facts) (result : RunResult)
      → is_ok result ≡ false
      → All
          (IsBacked h parse run.started facts.results)
          (repo_outcomes h parse probe run facts result)
  unfolding repo_outcomes
  repo_outcomes-IsBacked run facts ok bad = cc
  repo_outcomes-IsBacked run facts failed bad =
      failure-IsBacked h parse run.started facts.results probe run.context_done run.configured
        facts.error_messages
  repo_outcomes-IsBacked run facts terminated bad =
      measured-outcomes-IsBacked h parse run.started facts.results run.configured

  -- What a run without success leaves for its repositories is backed.
  abbrev IsBackedUnlessOk : Finished → Facts → RunOutcome → Type 0
  IsBackedUnlessOk run facts outcome =
      is_ok outcome.result ≡ false
      → All (IsBacked h parse run.started facts.results) outcome.repositories

  outcome_of-IsBacked :
      (run : Finished) (facts : Facts) (code : ℤ) (result : RunResult)
      → IsBackedUnlessOk run facts (
          outcome_of h parse probe run facts code result
            (repo_outcomes h parse probe run facts result))
  outcome_of-IsBacked run facts code result bad =
      let repos = repo_outcomes h parse probe run facts result in
      let (kept, same) = outcome-repositories run facts code result repos in
      subst (All (IsBacked h parse run.started facts.results)) (sym kept)
        (repo_outcomes-IsBacked run facts result (subst (λ r. is_ok r ≡ false) same bad))

  -- A recorded outcome is that of some result.
  record_verdict_lem :
      (P : RunOutcome → Type 0) (run : Finished) (facts : Facts) (code : Option ℤ)
      (outcome : RunOutcome) (error : Trouble)
      → ((n : ℤ) (result : RunResult)
          → P (
              outcome_of h parse probe run facts n result
                (repo_outcomes h parse probe run facts result)))
      → record_verdict h parse probe run facts code ≡ (some outcome, error)
      → P outcome
  record_verdict_lem P run facts none outcome error all e = cc
  record_verdict_lem P run facts (some n) outcome error all e =
      subst P (ap (λ r. get_or outcome r.0) e) (all n (judge_exit n run.timed_out).0)

  maintenance-reports :
      (run : Finished) (facts : Facts) (result : RunResult)
      → contains run.actions action_create ≡ false
      → result ≡ ok
      → repo_outcomes h parse probe run facts result ≡ []
  unfolding repo_outcomes per_repo_success
  maintenance-reports run facts ok idle good = rw idle refl
  maintenance-reports run facts failed idle good = cc
  maintenance-reports run facts terminated idle good = cc

  -- When a run that did not succeed is recorded, whatever ended it, each repository that it reports
  -- as a success is dated by a result of borgmatic's report, or not before the run began.
  pub success_needs_evidence :
      (run : Finished) (facts : Facts) (ending : Ending) (outcome : RunOutcome) (error : Trouble)
      → interpret_result h parse probe run facts ending ≡ (some outcome, error)
      → is_ok outcome.result ≡ false
      → All (IsBacked h parse run.started facts.results) outcome.repositories
  unfolding interpret_result
  success_needs_evidence run facts ending outcome error e =
      record_verdict_lem (IsBackedUnlessOk run facts) run facts (code_of ending) outcome error
        (outcome_of-IsBacked run facts) e

  -- A successful run without the create action, which writes no archive, reports no repository.
  pub maintenance_reports_nothing :
      (run : Finished) (facts : Facts) (ending : Ending) (outcome : RunOutcome) (error : Trouble)
      → interpret_result h parse probe run facts ending ≡ (some outcome, error)
      → outcome.result ≡ ok
      → contains run.actions action_create ≡ false
      → outcome.repositories ≡ []
  unfolding interpret_result
  maintenance_reports_nothing run facts ending outcome error e good idle =
      record_verdict_lem (λ o. o.result ≡ ok → o.repositories ≡ []) run facts (code_of ending)
        outcome error
        (λ n result is_good.
          let (kept, same) =
            outcome-repositories run facts n result
              (repo_outcomes h parse probe run facts result) in
          kept ∙ maintenance-reports run facts result idle (sym same ∙ is_good))
        e good
