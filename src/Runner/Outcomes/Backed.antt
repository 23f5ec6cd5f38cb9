-- ===== src/Runner/Outcomes/Backed.antt =====
-- The successes that a run without success leaves for its repositories.
use borgmatic_manager.Prelude.{
  nth, sym, subst, ℕ, suc, ◌+◌, String, Bool, true, false, Option, none, some, List, [], ◌∷◌, ◌≡◌,
  refl, arith, All, All-impl, ◌⊎◌, inl, inr, Option-cases,
}
use borgmatic_manager.Prelude.Int.{◌≤ℤ◌}
use borgmatic_manager.GoTime.{Time}
use borgmatic_manager.State.Outcome.{ok, is_ok, RepoOutcome}
use borgmatic_manager.Config.RepoKey.{Host}
use borgmatic_manager.Config.Repositories.{RepoRef}
use borgmatic_manager.Runner.Results.{CreateResult, Clock, ListedArchive, parse_borg_time}
use borgmatic_manager.Runner.Matching.{match_results}
use borgmatic_manager.Runner.Outcomes.{
  blank, apply_stats, result_of, cons_measured, measured_only, measured_outcomes, per_repo_failure,
}
use borgmatic_manager.Runner.Outcomes.Evidence.{HasEvidence, failure_outcomes_justified}

module _ (h : Host) (parse : Clock) (run_start : Time) (results : List CreateResult) where
  -- An outcome that is a success is dated by a result of the report, or not before the run.
  abbrev pub IsBacked : RepoOutcome → Type 0
  IsBacked ro =
      is_ok ro.result ≡ true
      → ((j : ℕ) × (res : CreateResult) × (nth results j ≡ some res)
          × (ro.completed_at ≡ parse_borg_time parse res.archive_end))
        ⊎ (run_start ≤ℤ ro.completed_at)

  result_of-reported :
      (configured : List RepoRef) (i : ℕ) (res : CreateResult)
      → result_of h parse configured results i ≡ some res
      → (j : ℕ) × (nth results j ≡ some res)
  unfolding result_of
  result_of-reported configured i res e =
      elim (Option-cases ((match_results h configured results).out i)) [
        | inl nothing ↦ absurd (ground arith)
        | inr (j, found) ↦ (j, ground arith)
      ]

  measured-IsBacked :
      (configured : List RepoRef) (i : ℕ) (ref : RepoRef) (res : CreateResult)
      → result_of h parse configured results i ≡ some res
      → IsBacked (apply_stats h parse (blank h parse ref ok) res)
  unfolding apply_stats
  measured-IsBacked configured i ref res q good =
      let (j, at_j) = result_of-reported configured i res q in inl (j, res, at_j, refl)

  HasEvidence-IsBacked :
      (probe : String → Option (Option (List ListedArchive))) (context_done : Bool)
      (configured : List RepoRef) (i : ℕ) (o : Option CreateResult) (implicated : Bool)
      (ref : RepoRef) (ro : RepoOutcome)
      → result_of h parse configured results i ≡ o
      → HasEvidence h parse probe context_done run_start o implicated ref ro
      → IsBacked ro
  HasEvidence-IsBacked probe context_done configured i (some res) implicated ref ro q e =
      subst IsBacked (sym e) (measured-IsBacked configured i ref res q)
  HasEvidence-IsBacked probe context_done configured i none true ref ro q e =
      subst IsBacked (sym e) (λ good. cc)
  HasEvidence-IsBacked probe context_done configured i none false ref ro q e = λ good. inr e.2

  pub failure-IsBacked :
      (probe : String → Option (Option (List ListedArchive))) (context_done : Bool)
      (configured : List RepoRef) (errors : List String)
      → All IsBacked
          (per_repo_failure h parse probe context_done run_start configured results errors)
  failure-IsBacked probe context_done configured errors =
      All-impl (per_repo_failure h parse probe context_done run_start configured results errors)
        (λ ro v.
          let (d, ref, at_d, e) = v in
          HasEvidence-IsBacked probe context_done configured (0 + d) _ _ ref ro refl e)
        (failure_outcomes_justified h parse probe context_done run_start configured results errors)

  cons_measured-IsBacked :
      (configured : List RepoRef) (i : ℕ) (ref : RepoRef) (o : Option CreateResult)
      (ros : List RepoOutcome)
      → result_of h parse configured results i ≡ o
      → All IsBacked ros
      → All IsBacked (cons_measured h parse ref o ros)
  cons_measured-IsBacked configured i ref none ros q all = all
  cons_measured-IsBacked configured i ref (some res) ros q all =
      (measured-IsBacked configured i ref res q, all)

  measured_only-IsBacked :
      (configured : List RepoRef) (i : ℕ) (refs : List RepoRef)
      → All IsBacked (measured_only h parse (result_of h parse configured results) i refs)
  unfolding measured_only
  measured_only-IsBacked configured i [] = tt
  measured_only-IsBacked configured i (ref ∷ refs) =
      cons_measured-IsBacked configured i ref _ _ refl
        (measured_only-IsBacked configured (suc i) refs)

  pub measured-outcomes-IsBacked :
      (configured : List RepoRef) → All IsBacked (measured_outcomes h parse configured results)
  unfolding measured_outcomes
  measured-outcomes-IsBacked configured = measured_only-IsBacked configured 0 configured
