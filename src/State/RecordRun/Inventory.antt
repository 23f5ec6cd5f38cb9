-- ===== src/State/RecordRun/Inventory.antt =====
-- The reconciliation of a group's repositories with those that it configures.
use borgmatic_manager.Prelude.{
  String, ◌≡◌, refl, Bool, false, not, ◌||◌, Option, none, some, List, [], ◌∷◌, foldl, arith,
  eq_iff, eq_refl, if◌then◌else◌, get_or, contains, is_empty, Bool-cases, inl, inr,
}
use borgmatic_manager.GoMap.{
  GoMap, IsMap, get, get-put, put-IsMap, get-update_each, update_each-IsMap,
}
use borgmatic_manager.Config.RepoKey.{Host}
use borgmatic_manager.State.Outcome.{RunOutcome, RepoRecord}
use borgmatic_manager.State.RecordRun.{
  same_destination, moved, reconciled, materialize, drop_removed, reconcile_inventory,
}

module _ (h : Host) where
  -- A known path has not moved from itself.
  pub moved_refl : (path : String) → moved h path path ≡ false
  unfolding moved same_destination
  moved_refl path = ground (arith, eq_refl path)

  -- Reconciling a second time changes nothing.
  pub reconciled_idem :
      (path : String) (o : Option RepoRecord)
      → reconciled h path (some (reconciled h path o)) ≡ reconciled h path o
  unfolding reconciled
  reconciled_idem path none = ground (arith, moved_refl path)
  reconciled_idem path (some rr) = ground (arith, moved_refl path)

  module _ (paths : GoMap String) where
    abbrev pub configured_path : String → String
    configured_path id = get_or "" (get paths id)

    pub get-materialize :
        (repos : GoMap RepoRecord) (ids : List String) (id : String)
        → get (foldl (materialize h paths) repos ids) id ≡ (
            if contains ids id
            then some (reconciled h (configured_path id) (get repos id))
            else get repos id)
    unfolding materialize
    get-materialize repos [] id = refl
    get-materialize repos (j ∷ ids) id = ground (
      arith,
      eq_iff j id,
      get-materialize (materialize h paths repos j) ids id,
      get-put repos j id (reconciled h (configured_path j) (get repos j)),
      reconciled_idem (configured_path id) (get repos id),
    )

    pub materialize-IsMap :
        (repos : GoMap RepoRecord) (ids : List String)
        → IsMap repos
        → IsMap (foldl (materialize h paths) repos ids)
    unfolding materialize
    materialize-IsMap repos [] m = m
    materialize-IsMap repos (j ∷ ids) m =
        materialize-IsMap (materialize h paths repos j) ids (put-IsMap repos j _ m)

  -- The run knew the group's repositories.
  abbrev pub knows : RunOutcome → Bool
  knows outcome = outcome.repositories_known || not (is_empty outcome.configured_repositories)

  pub get-reconcile_inventory :
      (outcome : RunOutcome) (repos : GoMap RepoRecord) (id : String)
      → IsMap repos
      → get (reconcile_inventory h outcome repos) id ≡ (
          if knows outcome
          then (if contains outcome.configured_repositories id
              then some (
                  reconciled h
                    (configured_path outcome.configured_repository_paths id)
                    (get repos id))
              else none)
          else get repos id)
  unfolding reconcile_inventory drop_removed
  get-reconcile_inventory outcome repos id m = elim (Bool-cases (knows outcome)) [
    | inl known ↦
        let paths = outcome.configured_repository_paths in
        let ids = outcome.configured_repositories in
        let filled = foldl (materialize h paths) repos ids in
        rw known (
          ground (
            arith,
            get-update_each (λ i rr. if contains ids i then some rr else none) filled id
                (materialize-IsMap paths repos ids m),
            get-materialize paths repos ids id,
          ))
    | inr unknown ↦ rw unknown refl
  ]

  pub reconcile_inventory-IsMap :
      (outcome : RunOutcome) (repos : GoMap RepoRecord)
      → IsMap repos
      → IsMap (reconcile_inventory h outcome repos)
  unfolding reconcile_inventory drop_removed
  reconcile_inventory-IsMap outcome repos m = elim (Bool-cases (knows outcome)) [
    | inl known ↦ rw known (
        update_each-IsMap _ _ (
          materialize-IsMap outcome.configured_repository_paths repos
            outcome.configured_repositories m))
    | inr unknown ↦ rw unknown m
  ]
