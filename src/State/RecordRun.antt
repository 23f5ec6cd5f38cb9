-- ===== src/State/RecordRun.antt =====
-- `RecordRun` of internal/state/schedule.go, as the change it makes to one group's record.
pub mod Tracking
pub mod Inventory
pub mod Freshness
pub mod History
use borgmatic_manager.Prelude.{
  ℕ, ◌-◌, String, Bool, true, false, not, ◌&&◌, ◌||◌, Option, none, some, List, [], ◌∷◌, ◌++◌,
  foldl, ◌==◌, if◌then◌else◌, get_or, length, drop, ltb, is_empty, contains,
}
use borgmatic_manager.GoTime.{Time, is_zero}
use borgmatic_manager.GoMap.{GoMap, get, put, update_each}
use borgmatic_manager.Config.RepoKey.{Host, canonical_repo_key}
use borgmatic_manager.State.Outcome.{
  RepoOutcome, RunOutcome, RepoRecord, GroupRecord, zero_repo_record, is_ok, measured_stats,
}

abbrev pub max_history : ℕ
max_history = 90

unfoldable pub slim : RunOutcome → RunOutcome
slim outcome = record outcome { log_tail = []; repositories = [] }

-- The ring keeps the newest `max_history` outcomes.
unfoldable pub push_history : RunOutcome → List RunOutcome → List RunOutcome
unfolding slim
push_history outcome history =
    let all = history ++ slim outcome ∷ [] in
    if ltb max_history (length all) then drop (length all - max_history) all else all

module _ (h : Host) where
  unfoldable pub same_destination : String → String → Bool
  same_destination a b = a == b || canonical_repo_key h a == canonical_repo_key h b

  -- The two paths are known and name different repositories.
  unfoldable pub moved : String → String → Bool
  moved was now = not (now == "") && not (was == "") && not (same_destination was now)

  -- The record as one outcome finds it: a record of another destination is dropped.
  unfoldable pub adopted : RepoRecord → String → RepoRecord
  adopted rr path =
      let kept = if moved rr.path path then zero_repo_record else rr in
      if path == "" then kept else record kept { path = path }

  -- When the archive was finished, if borg said so, and otherwise when the run was.
  unfoldable pub archived_at : Time → RepoOutcome → Time
  archived_at finished ro = if is_zero ro.completed_at then finished else ro.completed_at

  -- The body of the loop over `outcome.Repositories`, for the record under `ro.ID`.
  unfoldable pub advance : Time → RepoOutcome → RepoRecord → RepoRecord
  advance finished ro rr =
      let found = record (adopted rr ro.path) { last_run = some ro } in
      let stats = if measured_stats ro then some ro else found.last_stats in
      if is_ok ro.result
      then record found { last_success = archived_at finished ro; last_stats = stats }
      else found

  unfoldable pub record_repository : Time → GoMap RepoRecord → RepoOutcome → GoMap RepoRecord
  record_repository finished repos ro =
      put repos ro.id (advance finished ro (get_or zero_repo_record (get repos ro.id)))

  -- The body of the loop over `outcome.ConfiguredRepositories`, for the entry under one id.
  unfoldable pub reconciled : String → Option RepoRecord → RepoRecord
  reconciled path none = record zero_repo_record { path = path }
  reconciled path (some rr) =
      if moved rr.path path
      then record zero_repo_record { path = path }
      else if not (path == "") && rr.path == ""
      then record rr { path = path }
      else rr

  unfoldable pub materialize : GoMap String → GoMap RepoRecord → String → GoMap RepoRecord
  materialize paths repos id = put repos id (reconciled (get_or "" (get paths id)) (get repos id))

  -- The last loop of the reconciliation deletes what is no longer configured.
  unfoldable pub drop_removed : List String → GoMap RepoRecord → GoMap RepoRecord
  drop_removed current = update_each (λ id rr. if contains current id then some rr else none)

  unfoldable pub reconcile_inventory : RunOutcome → GoMap RepoRecord → GoMap RepoRecord
  reconcile_inventory outcome repos =
      let ids = outcome.configured_repositories in
      if outcome.repositories_known || not (is_empty ids)
      then drop_removed ids (foldl (materialize outcome.configured_repository_paths) repos ids)
      else repos

  unfoldable pub record_outcome : RunOutcome → GroupRecord → GroupRecord
  record_outcome outcome rec = record rec {
    last_run = some outcome;
    repositories =
        reconcile_inventory outcome
          (foldl (record_repository outcome.finished) rec.repositories outcome.repositories);
    history = push_history outcome rec.history;
  }
