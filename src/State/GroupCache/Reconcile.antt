-- ===== src/State/GroupCache/Reconcile.antt =====
-- `Reconcile` of internal/state/groupcache.go: all groups of one cycle, and the shared cache file.
pub mod Groups
use borgmatic_manager.Prelude.{
  String, Bool, true, false, not, ◌&&◌, Option, none, some, List, [], ◌∷◌, ◌++◌, foldl,
  if◌then◌else◌, get_or, is_some, is_empty, keep,
}
use borgmatic_manager.GoTime.{Time}
use borgmatic_manager.GoMap.{GoMap, get, put, remove, keys}
use borgmatic_manager.Models.{VolumeGroup, BackupState, new_backup_state}
use borgmatic_manager.State.Store.{Faults}
use borgmatic_manager.State.GroupCache.{
  CachedGroup, zero_cached_group, Offline, new_offline, Merged, GroupView, merge_group,
}

pub data CacheDisk : Type 0 where
  missing corrupt : CacheDisk
  saved : Option (GoMap CachedGroup) → CacheDisk

-- What the loop over the group names builds: the new cache, the merged groups, the offline members.
pub record Cycle : Type 0 where
  pub cache : GoMap CachedGroup
  pub groups : GoMap VolumeGroup
  pub off : Offline

unfoldable pub view_of : BackupState → String → GroupView
view_of live name = record {
  live = get live.groups name;
  claims = get_or [] (get live.claims name);
  containers = live.containers;
}

-- `if len(offVols) > 0 { off.Volumes[name] = offVols }`.
unfoldable pub note_offline : GoMap (List String) → String → List String → GoMap (List String)
note_offline m name members = if is_empty members then m else put m name members

unfoldable pub place : String → Merged → Cycle → Cycle
place name m c =
    if is_empty m.entry.volumes && is_empty m.entry.databases
    then record c { cache = remove c.cache name }
    else record {
      cache = put c.cache name m.entry;
      groups = put c.groups name (record {
        volumes = m.entry.volumes;
        databases = m.entry.databases;
        label_configs = m.entry.label_configs;
        period = m.entry.period;
      });
      off = record {
        volumes = note_offline c.off.volumes name m.offline_volumes;
        databases = note_offline c.off.databases name m.offline_databases;
      };
    }

unfoldable pub reconcile_group : (String → Bool) → Time → BackupState → Cycle → String → Cycle
reconcile_group path_exists now live c name =
    place name
      (merge_group path_exists now (view_of live name)
        (get_or zero_cached_group (get c.cache name)))
      c

-- The set of the names of both sides.
unfoldable pub all_names : GoMap CachedGroup → GoMap VolumeGroup → List String
all_names cache live = keys cache ++ keep (λ name. not (is_some (get cache name))) (keys live)

unfoldable pub reconcile_all : (String → Bool) → Time → BackupState → GoMap CachedGroup → Cycle
reconcile_all path_exists now live cache =
    foldl (reconcile_group path_exists now live)
      (record { cache = cache; groups = []; off = new_offline }) (all_names cache live.groups)

-- `readFile`: `none` is a failure that is not the file's absence or corruption.
unfoldable pub read_cache : Bool → CacheDisk → Option (GoMap CachedGroup)
read_cache true d = none
read_cache false missing = some []
read_cache false corrupt = some []
read_cache false (saved groups) = some (get_or [] groups)

-- `Reconcile`: the merged state and the offline members, the process's view and the file.
pub record Outcome : Type 0 where
  pub merged : BackupState
  pub off : Offline
  pub view : GoMap CachedGroup
  pub disk : CacheDisk

-- Without the lock or the file, only live discovery counts and nothing is written.
unfoldable pub live_only : BackupState → GoMap CachedGroup → CacheDisk → Outcome
live_only live view d = record { merged = live; off = new_offline; view = view; disk = d }

unfoldable pub merged_outcome : Bool → Cycle → CacheDisk → Outcome
merged_outcome write_fails c d = record {
  merged = record new_backup_state { groups = c.groups };
  off = c.off;
  view = c.cache;
  disk = if write_fails then d else saved (some c.cache);
}

unfoldable pub reconcile :
    Faults → (String → Bool) → Time → BackupState → GoMap CachedGroup → CacheDisk → Outcome
reconcile e path_exists now live view d =
    if e.lock_fails then live_only live view d else elim (read_cache e.read_fails d) [
      | none ↦ live_only live view d
      | some cache ↦ merged_outcome e.write_fails (reconcile_all path_exists now live cache) d
    ]
