-- ===== src/State/GroupCache.antt =====
-- The durable group membership of internal/state/groupcache.go. Go's sets `map[string]bool`, which
-- only ever hold `true`, are lists of names here.
pub mod Members
pub mod Merge
pub mod Reconcile
pub mod Strip
use borgmatic_manager.Prelude.{
  String, Bool, true, false, not, ◌&&◌, ◌||◌, Option, none, some, List, [], ◌∷◌, ◌++◌, map, foldl,
  ◌==◌, if◌then◌else◌, get_or, bind, is_some, is_empty, keep, any, all, contains,
}
use borgmatic_manager.Prelude.Int.{pos}
use borgmatic_manager.GoTime.{Time, Duration, zero_time}
use borgmatic_manager.GoStrings.{plus}
use borgmatic_manager.GoMap.{GoMap, get, put, remove, keys, update_each}
use borgmatic_manager.Config.Value.{Fields}
use borgmatic_manager.Models.{
  VolumeInfo, DatabaseConfig, VolumeGroup, BackupState, new_backup_state,
}

pub record CachedGroup : Type 0 where
  pub volumes : List VolumeInfo
  -- The containers that last claimed each volume.
  pub volume_claims : GoMap (List String)
  pub databases : List DatabaseConfig
  pub label_configs : List Fields
  pub period : Duration
  pub last_seen : Time

abbrev pub zero_cached_group : CachedGroup
zero_cached_group = record {
  volumes = [];
  volume_claims = [];
  databases = [];
  label_configs = [];
  period = pos 0;
  last_seen = zero_time;
}

unfoldable pub db_key : DatabaseConfig → String
db_key db = plus db.type_ (plus "/" (plus db.container (plus "/" db.name)))

-- Group, and its volume names or database keys that are cached only.
pub record Offline : Type 0 where
  pub volumes : GoMap (List String)
  pub databases : GoMap (List String)

abbrev pub new_offline : Offline
new_offline = record { volumes = []; databases = [] }

unfoldable pub volume_offline : Offline → String → String → Bool
volume_offline o group name = contains (get_or [] (get o.volumes group)) name

unfoldable pub database_offline : Offline → String → DatabaseConfig → Bool
database_offline o group db = contains (get_or [] (get o.databases group)) (db_key db)

unfoldable pub any_offline : Offline → String → Bool
any_offline o group =
    not (is_empty (get_or [] (get o.volumes group)))
    || not (is_empty (get_or [] (get o.databases group)))

unfoldable pub group_offline : Offline → String → VolumeGroup → Bool
group_offline o group g =
    if is_empty g.volumes && is_empty g.databases
    then false
    else all (λ v. volume_offline o group v.name) g.volumes
      && all (λ db. database_offline o group db) g.databases

abbrev pub volume_names : List VolumeInfo → List String
volume_names = map (λ v. v.name)

unfoldable pub merge_volumes :
    List VolumeInfo
    → List VolumeInfo
    → (String → Bool)
    → (String → Bool)
    → List VolumeInfo × List String
merge_volumes live cached path_exists deselected =
    let kept =
      keep
        (λ v. not (
          contains (volume_names live) v.name
          || not (path_exists v.host_path)
          || deselected v.name))
        cached in
    (live ++ kept, volume_names kept)

unfoldable pub merge_databases :
    List DatabaseConfig → List DatabaseConfig → List DatabaseConfig × List String
merge_databases live cached =
    let kept = keep (λ db. not (contains (map db_key live) (db_key db))) cached in
    (live ++ kept, map db_key kept)

-- `present == nil || !present[c]`.
unfoldable pub is_absent : Option (List String) → String → Bool
is_absent none c = true
is_absent (some names) c = not (contains names c)

unfoldable pub add_claimer : String → GoMap (List String) → String → GoMap (List String)
add_claimer vol out c =
    let claimers = get_or [] (get out vol) in
    if contains claimers c then out else put out vol (claimers ++ c ∷ [])

unfoldable pub add_claimers : GoMap (List String) → String × List String → GoMap (List String)
add_claimers out (vol, cs) = foldl (add_claimer vol) out cs

-- An entry exists only where a claimer is left.
unfoldable pub standing_claims : Option (List String) → GoMap (List String) → GoMap (List String)
standing_claims present = update_each (λ vol cs.
    let standing = keep (is_absent present) cs in if is_empty standing then none else some standing)

unfoldable pub merge_claims :
    GoMap (List String) → GoMap (List String) → Option (List String) → GoMap (List String)
merge_claims live cached present = foldl add_claimers (standing_claims present cached) live

unfoldable pub claimers_all_present : List String → Option (List String) → Bool
claimers_all_present claimers none = false
claimers_all_present claimers (some names) =
    not (is_empty claimers) && all (contains names) claimers

-- `deselected` of `Reconcile`, from the group's live claims and last cycle's claims.
unfoldable pub deselected_in :
    GoMap (List String) → GoMap (List String) → Option (List String) → String → Bool
deselected_in live cached present volume =
    is_empty (get_or [] (get live volume))
    && claimers_all_present (get_or [] (get cached volume)) present

-- The claims of cached volumes that the merge dropped are deleted.
unfoldable pub drop_claims :
    List VolumeInfo → List VolumeInfo → GoMap (List String) → GoMap (List String)
drop_claims vols [] claims = claims
drop_claims vols (v ∷ cached) claims =
    drop_claims vols cached
      (if contains (volume_names vols) v.name then claims else remove claims v.name)

-- One group of one cycle: the cache entry, and the offline volumes and databases.
pub record Merged : Type 0 where
  pub entry : CachedGroup
  pub offline_volumes : List String
  pub offline_databases : List String

-- What the loop of `Reconcile` reads for one group.
pub record GroupView : Type 0 where
  pub live : Option VolumeGroup
  pub claims : GoMap (List String)
  pub containers : Option (List String)

abbrev pub live_volumes : Option VolumeGroup → List VolumeInfo
live_volumes none = []
live_volumes (some g) = g.volumes

abbrev pub live_databases : Option VolumeGroup → List DatabaseConfig
live_databases none = []
live_databases (some g) = g.databases

unfoldable pub merge_group : (String → Bool) → Time → GroupView → CachedGroup → Merged
merge_group path_exists now view cached =
    let (vols, off_vols) =
      merge_volumes (live_volumes view.live) cached.volumes path_exists
        (deselected_in view.claims cached.volume_claims view.containers) in
    let (dbs, off_dbs) = merge_databases (live_databases view.live) cached.databases in
    record {
      entry = record {
        volumes = vols;
        volume_claims =
            drop_claims vols cached.volumes
              (merge_claims view.claims cached.volume_claims view.containers);
        databases = dbs;
        label_configs = elim view.live [ none ↦ cached.label_configs | some g ↦ g.label_configs ];
        period = elim view.live [ none ↦ cached.period | some g ↦ g.period ];
        last_seen = elim view.live [ none ↦ cached.last_seen | some g ↦ now ];
      };
      offline_volumes = off_vols;
      offline_databases = off_dbs;
    }
