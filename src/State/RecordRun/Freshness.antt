-- ===== src/State/RecordRun/Freshness.antt =====
-- What a run leaves in the record of one repository of its group.
use borgmatic_manager.Prelude.{
  String, ◌≡◌, refl, ◌∙◌, ap, ◌⊎◌, eq_iff, true, false, Option, none, some, [], ◌∷◌, foldl, arith,
  ◌==◌, if◌then◌else◌, get_or, contains, Bool-cases, inl, inr, is_some,
}
use borgmatic_manager.GoTime.{Time, is_zero, zero_time}
use borgmatic_manager.GoMap.{IsMap, get}
use borgmatic_manager.Config.RepoKey.{Host}
use borgmatic_manager.State.Outcome.{
  RepoOutcome, RunOutcome, RepoRecord, GroupRecord, zero_repo_record, is_ok, measured_stats,
}
use borgmatic_manager.State.RecordRun.{
  moved, adopted, archived_at, advance, record_repository, reconciled, record_outcome,
}
use borgmatic_manager.State.RecordRun.Tracking.{
  outcomes_of, track, get-record_repository, record_repository-IsMap,
}
use borgmatic_manager.State.RecordRun.Inventory.{
  moved_refl, configured_path, knows, get-reconcile_inventory,
}

module _ (h : Host) where
  reconciled_unnamed :
      (path : String) (rr : RepoRecord) → path == "" ≡ true → reconciled h path (some rr) ≡ rr
  unfolding reconciled moved
  reconciled_unnamed path rr e = ground arith

  reconciled_same :
      (path : String) (rr : RepoRecord) → rr.path ≡ path → reconciled h path (some rr) ≡ rr
  unfolding reconciled
  reconciled_same path rr e = ground (arith, moved_refl h path)

  path-advance :
      (t : Time) (ro : RepoOutcome) (rr : RepoRecord)
      → (ro.path == "") ≡ false
      → (advance h t ro rr).path ≡ ro.path
  unfolding advance adopted
  path-advance t ro rr e = ground arith

  reconciled-advance :
      (t : Time) (ro : RepoOutcome) (rr : RepoRecord)
      → reconciled h ro.path (some (advance h t ro rr)) ≡ advance h t ro rr
  reconciled-advance t ro rr = elim (Bool-cases (ro.path == "")) [
    | inl unnamed ↦ reconciled_unnamed ro.path (advance h t ro rr) unnamed
    | inr named ↦ reconciled_same ro.path (advance h t ro rr) (path-advance t ro rr named)
  ]

module _ (h : Host) (outcome : RunOutcome) (rec : GroupRecord) (id : String)
    (valid : IsMap rec.repositories) where
  abbrev tracked : Option RepoRecord
  tracked = track h outcome.finished (get rec.repositories id) (outcomes_of id outcome.repositories)

  abbrev pub now_at : String
  now_at = configured_path h outcome.configured_repository_paths id

  abbrev after : Option RepoRecord
  after = get (record_outcome h outcome rec).repositories id

  -- The record of one repository depends on its own outcomes and its own configuration.
  repository_after : after ≡ (
      if knows h outcome
      then (if contains outcome.configured_repositories id
          then some (reconciled h now_at tracked)
          else none)
      else tracked)
  unfolding record_outcome
  repository_after = ground (
    arith,
    get-record_repository h outcome.finished rec.repositories outcome.repositories id,
    get-reconcile_inventory h outcome
        (foldl (record_repository h outcome.finished) rec.repositories outcome.repositories) id
        (record_repository-IsMap h outcome.finished rec.repositories outcome.repositories valid),
  )

  -- After a run that knew the group's repositories, the record holds exactly the ids that the
  -- group configures: what was removed is gone, and what no run has judged yet is there.
  pub inventory_exact :
      knows h outcome ≡ true
      → is_some (get (record_outcome h outcome rec).repositories id)
        ≡ contains outcome.configured_repositories id
  inventory_exact known = ground (arith, repository_after)

  module _ (listed : contains outcome.configured_repositories id ≡ true) where
    knows_listed : knows h outcome ≡ true
    knows_listed = ground arith

    repository_listed : after ≡ some (reconciled h now_at tracked)
    repository_listed = ground (arith, repository_after, knows_listed)

    -- A repository that the run judged once, at the path where the group configures it.
    module _ (ro : RepoOutcome) (once : outcomes_of id outcome.repositories ≡ ro ∷ [])
        (same_path : now_at ≡ ro.path) where
      repository_judged :
          after
          ≡ some (advance h outcome.finished ro (get_or zero_repo_record (get rec.repositories id)))
      repository_judged =
          repository_listed
          ∙ rw (same_path, once)
              (ap some (
                reconciled-advance h outcome.finished ro
                  (get_or zero_repo_record (get rec.repositories id))))

      -- A repository that the run judged once and found good, and that the group configures at the
      -- path which the run reports, was last backed up when its archive was finished, or when the
      -- run was if borgmatic did not say; its statistics are those of the run if it measured any,
      -- and otherwise stay, unless its record was of another destination.
      pub success_recorded :
          is_ok ro.result ≡ true
          → (rr : RepoRecord) × (get (record_outcome h outcome rec).repositories id ≡ some rr)
            × (rr.last_success
                ≡ (if is_zero ro.completed_at then outcome.finished else ro.completed_at))
            × (rr.last_run ≡ some ro)
            × (rr.last_stats ≡ (
                if measured_stats ro
                then some ro
                else (adopted h
                    (get_or zero_repo_record (get rec.repositories id))
                    ro.path).last_stats))
      unfolding advance archived_at
      success_recorded good = (
        advance h outcome.finished ro (get_or zero_repo_record (get rec.repositories id)),
        repository_judged,
        ground arith,
        ground arith,
        ground arith,
      )

      -- A repository that the run judged once and found bad, and that the group configures at the
      -- path which the run reports, keeps its last success and its statistics, if its record is of
      -- the same destination; the failed outcome becomes its last run.
      pub failure_keeps_freshness :
          (old : RepoRecord)
          → get rec.repositories id ≡ some old
          → moved h old.path ro.path ≡ false
          → is_ok ro.result ≡ false
          → (rr : RepoRecord) × (get (record_outcome h outcome rec).repositories id ≡ some rr)
            × (rr.last_success ≡ old.last_success)
            × (rr.last_stats ≡ old.last_stats)
            × (rr.last_run ≡ some ro)
      unfolding advance adopted
      failure_keeps_freshness old had stays bad = (
        advance h outcome.finished ro old,
        rw repository_judged (rw had refl),
        ground arith,
        ground arith,
        ground arith,
      )

      -- A repository that the run judged once and found bad, and that the group configures at the
      -- path which the run reports, starts a new history if its record is of another destination:
      -- nothing of the old destination's last success or statistics is left.
      pub failure_elsewhere_forgets :
          (old : RepoRecord)
          → get rec.repositories id ≡ some old
          → moved h old.path ro.path ≡ true
          → is_ok ro.result ≡ false
          → (rr : RepoRecord) × (get (record_outcome h outcome rec).repositories id ≡ some rr)
            × (rr.path ≡ ro.path)
            × (rr.last_success ≡ zero_time)
            × (rr.last_stats ≡ none)
      unfolding advance adopted moved
      failure_elsewhere_forgets old had away bad = (
        advance h outcome.finished ro old,
        rw repository_judged (rw had refl),
        ground arith,
        ground arith,
        ground arith,
      )

    -- A configured repository that the run neither confirmed nor implicated.
    module _ (unjudged : outcomes_of id outcome.repositories ≡ []) where
      repository_unjudged : after ≡ some (reconciled h now_at (get rec.repositories id))
      repository_unjudged = repository_listed ∙ rw unjudged refl

      -- A configured repository that the run did not judge starts with an empty record at its
      -- configured path if it had none, or if its record is of another destination.
      pub unjudged_starts :
          (get rec.repositories id ≡ none)
            ⊎ ((old : RepoRecord) × (get rec.repositories id ≡ some old)
                × (moved h old.path now_at ≡ true))
          → get (record_outcome h outcome rec).repositories id
            ≡ some (record zero_repo_record { path = now_at })
      unfolding reconciled
      unjudged_starts new = rw repository_unjudged (ground arith)

      -- A configured repository that the run did not judge, with a record that is of no other
      -- destination, keeps all that was known of it; only a record without a path takes the
      -- configured one.
      pub unjudged_kept :
          (old : RepoRecord)
          → get rec.repositories id ≡ some old
          → moved h old.path now_at ≡ false
          → get (record_outcome h outcome rec).repositories id
            ≡ some (record old { path = if old.path == "" then now_at else old.path })
      unfolding reconciled
      unjudged_kept old had stays =
          rw repository_unjudged (ground (arith, eq_iff now_at "", eq_iff old.path ""))
