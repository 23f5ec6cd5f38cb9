-- ===== src/Tests/Locks.antt =====
-- Two runs of `TryRunGroup` that share a repository (internal/runner/runner.go).
use borgmatic_manager.Prelude.{
  ℕ, zero, suc, ◌<◌, ◌≡◌, refl, true, false, List, [], ◌∷◌, ◌++◌, arith, inl, AllDifferent, All,
}
use borgmatic_manager.GoStrings.{contains_text, has_prefix}
use borgmatic_manager.Config.Value.{
  str, obj, arr, no_elements, element, Fields, no_fields, field, lookup,
}
use borgmatic_manager.Config.RepoKey.{canonical_repo_key, located_key, is_remote, clean}
use borgmatic_manager.Config.Repositories.{
  keys_of, add_keys, add_key, entry_path, extract_repo_keys, extract_repo_refs,
  extract_repo_refs-IsLocked, IsLocked,
}
use borgmatic_manager.Scheduler.Fingerprint.{less, insert_sorted, sort_strings}
use borgmatic_manager.Runner.Locks.{
  Lock, GroupRun, Signal, go, running, initial, play, turn, run_step, acquire, lock_plan, lock_keys,
  lock_files, group_lock_key, repo_lock_key, lock_path, same,
}
use borgmatic_manager.Runner.Locks.Exclusion.{run_keys, one_run_per_key}
use borgmatic_manager.Runner.Locks.Progress.{no_deadlock, can_move, has_returned}
use borgmatic_manager.Runner.Locks.Ending.{all_locks_released}
use borgmatic_manager.Tests.Repositories.{plain_host}

abbrev web : GroupRun
web = record {
  process = 1;
  lock_dir = "/run";
  group = "web";
  snapshot_hooks = true;
  repos = "/b" ∷ "/a" ∷ [];
}

abbrev mail : GroupRun
mail = record {
  process = 1;
  lock_dir = "/run";
  group = "mail";
  snapshot_hooks = false;
  repos = "/a" ∷ [];
}

abbrev pair : ℕ → GroupRun
pair zero = web
pair (suc i) = mail

abbrev steps : ℕ → ℕ → List (ℕ × Signal)
steps i zero = []
steps i (suc n) = (i, go) ∷ steps i n

-- The first run takes all its locks and starts; the second waits for the repository.
abbrev one_waits : List (ℕ × Signal)
one_waits = steps 0 9 ++ steps 1 3

sorted_keys : lock_keys web ≡ "snapshots" ∷ "repo:/a" ∷ "repo:/b" ∷ []
unfolding lock_keys sort_strings insert_sorted less repo_lock_key
sorted_keys = refl

first_runs : (h : List Lock) × ((play (λ s. s) 2 pair one_waits initial).at 0 ≡ running h)
unfolding play turn run_step acquire lock_plan lock_files lock_keys lock_path sort_strings
    insert_sorted less repo_lock_key group_lock_key same
first_runs = (_, refl)

pair_distinct : (i : ℕ) → AllDifferent (pair i).repos
pair_distinct zero = ((refl, tt), (tt, tt))
pair_distinct (suc i) = (tt, tt)

second_waits : has_returned ((play (λ s. s) 2 pair one_waits initial).at 1) ≡ false
unfolding play turn run_step acquire lock_plan lock_files lock_keys lock_path sort_strings
    insert_sorted less repo_lock_key group_lock_key same has_returned
second_waits = refl

one_run_per_key_example : ◌≡◌ {A = ℕ} 0 0
unfolding run_keys lock_keys sort_strings insert_sorted less repo_lock_key group_lock_key
one_run_per_key_example =
    one_run_per_key (λ s. s) 2 pair one_waits 0 0 "repo:/a" first_runs.1 first_runs.1 refl refl
      (inl refl)

no_deadlock_example :
    (j : ℕ) × (j < 2)
    × (can_move
          (play (λ s. s) 2 pair one_waits initial).taken
          ((play (λ s. s) 2 pair one_waits initial).at j)
        ≡ true)
no_deadlock_example =
    no_deadlock (λ s. s) 2 pair pair_distinct one_waits 1 (omega arith) second_waits

all_locks_released_example :
    (more : List (ℕ × Signal)) × ((i : ℕ)
      → i < 2
      → has_returned ((play (λ s. s) 2 pair (one_waits ++ more) initial).at i) ≡ true)
    × ((l : Lock) → (play (λ s. s) 2 pair (one_waits ++ more) initial).taken l ≡ false)
all_locks_released_example = all_locks_released (λ s. s) 2 pair pair_distinct one_waits

-- A list of a text, a map and the text again.
abbrev two_repos : Fields
two_repos =
    field "repositories"
      (arr (
        element (str "/a")
          (element (obj (field "path" (str "/b") no_fields)) (element (str "/a") no_elements))))
      no_fields

two_keys : extract_repo_keys plain_host two_repos ≡ "/a" ∷ "/b" ∷ []
unfolding extract_repo_keys keys_of add_keys add_key entry_path lookup canonical_repo_key
    located_key is_remote clean contains_text has_prefix
two_keys = refl

extract_repo_refs-IsLocked_example :
    All
      (IsLocked plain_host (extract_repo_keys plain_host two_repos))
      (extract_repo_refs two_repos).0
extract_repo_refs-IsLocked_example = extract_repo_refs-IsLocked plain_host two_repos
