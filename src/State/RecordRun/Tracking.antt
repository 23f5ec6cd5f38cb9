-- ===== src/State/RecordRun/Tracking.antt =====
-- The loop over `outcome.Repositories`, seen from one repository.
use borgmatic_manager.Prelude.{
  String, ◌≡◌, refl, ◌∙◌, Option, some, List, [], ◌∷◌, foldl, ◌==◌, eq_iff, get_or, keep,
  Bool-cases, inl, inr,
}
use borgmatic_manager.GoTime.{Time}
use borgmatic_manager.GoMap.{GoMap, IsMap, get, get-put, put-IsMap}
use borgmatic_manager.Config.RepoKey.{Host}
use borgmatic_manager.State.Outcome.{RepoOutcome, RepoRecord, zero_repo_record}
use borgmatic_manager.State.RecordRun.{advance, record_repository}

-- The outcomes of a run for one repository.
abbrev pub outcomes_of : String → List RepoOutcome → List RepoOutcome
outcomes_of id = keep (λ ro. ro.id == id)

module _ (h : Host) (finished : Time) where
  -- What those outcomes make of the repository's record.
  abbrev pub track : Option RepoRecord → List RepoOutcome → Option RepoRecord
  track o [] = o
  track o (ro ∷ ros) = track (some (advance h finished ro (get_or zero_repo_record o))) ros

  pub get-record_repository :
      (repos : GoMap RepoRecord) (ros : List RepoOutcome) (id : String)
      → get (foldl (record_repository h finished) repos ros) id
        ≡ track (get repos id) (outcomes_of id ros)
  unfolding record_repository
  get-record_repository repos [] id = refl
  get-record_repository repos (ro ∷ ros) id =
      let next = record_repository h finished repos ro in
      let value = advance h finished ro (get_or zero_repo_record (get repos ro.id)) in
      elim (Bool-cases (ro.id == id)) [
        | inl same ↦
            get-record_repository next ros id
            ∙ rw (same, get-put repos ro.id id value, same) (rw ((eq_iff ro.id id).0 same) refl)
        | inr other ↦
            get-record_repository next ros id ∙ rw (other, get-put repos ro.id id value, other) refl
      ]

  pub record_repository-IsMap :
      (repos : GoMap RepoRecord) (ros : List RepoOutcome)
      → IsMap repos
      → IsMap (foldl (record_repository h finished) repos ros)
  unfolding record_repository
  record_repository-IsMap repos [] m = m
  record_repository-IsMap repos (ro ∷ ros) m =
      record_repository-IsMap (record_repository h finished repos ro) ros
        (put-IsMap repos ro.id _ m)
