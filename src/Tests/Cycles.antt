-- ===== src/Tests/Cycles.antt =====
-- Cycles in which containers stop, return and let go of volumes (internal/state/groupcache.go).
use borgmatic_manager.Prelude.{
  String, ◌≡◌, refl, Bool, true, some, List, [], ◌∷◌, ◌++◌, get_or, contains,
}
use borgmatic_manager.Prelude.Int.{pos}
use borgmatic_manager.GoMap.{GoMap, IsMap, get, put, remove, update_each}
use borgmatic_manager.Models.{VolumeInfo, DatabaseConfig, VolumeGroup, BackupState}
use borgmatic_manager.State.GroupCache.{
  CachedGroup, zero_cached_group, db_key, volume_names, merge_volumes, merge_databases, is_absent,
  add_claimer, add_claimers, standing_claims, merge_claims, claimers_all_present, deselected_in,
  drop_claims, merge_group, live_volumes, live_databases,
}
use borgmatic_manager.State.GroupCache.Members.{live_members_kept, deselected_dropped}
use borgmatic_manager.State.GroupCache.Members.Survival.{
  Claimed, Without, run_cycles, volume_outlives_container,
}
use borgmatic_manager.State.GroupCache.Reconcile.{
  view_of, note_offline, place, reconcile_group, all_names, reconcile_all,
}
use borgmatic_manager.State.GroupCache.Reconcile.Groups.{merged_at}
use borgmatic_manager.State.GroupCache.Strip.{strip_group, strip_undumpable, dumped_databases_live}

program : Unit {0}
unfolding db_key merge_volumes merge_databases is_absent add_claimer add_claimers standing_claims
    merge_claims claimers_all_present deselected_in drop_claims merge_group view_of note_offline
    place reconcile_group all_names reconcile_all strip_group strip_undumpable run_cycles get put
    remove update_each
program = tt

abbrev pub on_disk : String → Bool
on_disk p = true

abbrev pub data_volume : VolumeInfo
data_volume = record { name = "data"; host_path = "/v/data" }

abbrev pub logs_volume : VolumeInfo
logs_volume = record { name = "logs"; host_path = "/v/logs" }

abbrev app_db : DatabaseConfig
app_db = record {
  type_ = "postgresql";
  name = "app";
  username = "u";
  password = "";
  hostname = "";
  port = pos 0;
  container = "db";
  image = "pg";
  mode = "";
  volume = "";
  path = "";
  options = "";
}

-- `app` claimed `data` and `web` claimed `logs`; `db` had a database.
abbrev cached : CachedGroup
cached = record {
  volumes = data_volume ∷ logs_volume ∷ [];
  volume_claims = ("data", "app" ∷ []) ∷ ("logs", "web" ∷ []) ∷ [];
  databases = app_db ∷ [];
  label_configs = [];
  period = pos 0;
  last_seen = pos 5;
}

abbrev pub cache : GoMap CachedGroup
cache = ("shop", cached) ∷ []

abbrev pub live_group : VolumeGroup
live_group = record {
  volumes = logs_volume ∷ [];
  databases = [];
  label_configs = [];
  period = pos 7;
}

-- `app` and `db` are gone, and `web` is still there.
abbrev pub live : BackupState
live = record {
  groups = ("shop", live_group) ∷ [];
  containers = some ("web" ∷ []);
  claims = ("shop", ("logs", "web" ∷ []) ∷ []) ∷ [];
}

-- `web` is there, but its labels no longer select anything.
abbrev let_go : BackupState
let_go = record { groups = []; containers = some ("web" ∷ []); claims = [] }

merged_once :
    (reconcile_all on_disk (pos 9) live cache).groups
    ≡ (
      "shop",
      record live_group { volumes = logs_volume ∷ data_volume ∷ []; databases = app_db ∷ [] },
    )
      ∷ []
unfolding program
merged_once = refl

pub cache-IsMap : IsMap cache
unfolding get
cache-IsMap = (refl, tt)

pub live-IsMap : IsMap live.groups
unfolding get
live-IsMap = (refl, tt)

live_members_kept_example :
    (vs : List VolumeInfo) × (ds : List DatabaseConfig) × (get
        (reconcile_all on_disk (pos 9) live cache).groups
        "shop"
      ≡ some (record live_group {
        volumes = live_group.volumes ++ vs;
        databases = live_group.databases ++ ds;
      }))
unfolding get
live_members_kept_example =
    live_members_kept on_disk (pos 9) live cache cache-IsMap live-IsMap "shop" live_group refl refl

deselected_dropped_example :
    contains
      (volume_names (merged_at on_disk (pos 9) let_go "shop" (get cache "shop")).entry.volumes)
      "logs"
    ≡ contains (volume_names (live_volumes (get let_go.groups "shop"))) "logs"
unfolding program
deselected_dropped_example =
    deselected_dropped on_disk (pos 9) let_go cache cache-IsMap tt "shop" "logs" refl refl

dumped_databases_live_example :
    get
      (strip_undumpable
        (reconcile_all on_disk (pos 9) live cache).off
        (reconcile_all on_disk (pos 9) live cache).groups)
      "shop"
    ≡ some (record live_group {
      volumes = logs_volume ∷ data_volume ∷ [];
      databases = live_databases (get live.groups "shop");
    })
unfolding program
dumped_databases_live_example =
    dumped_databases_live on_disk (pos 9) live cache "shop"
      (record live_group { volumes = logs_volume ∷ data_volume ∷ []; databases = app_db ∷ [] })
      cache-IsMap live-IsMap refl

shop-Claimed : Claimed "app" "data" cached
unfolding get
shop-Claimed = record { distinct = (refl, (refl, tt)); kept = refl; claimed = refl }

live-Without_app : Without "app" "shop" live
unfolding get is_absent
live-Without_app = record {
  gone = refl;
  claims_distinct = (refl, tt);
  groups_distinct = (refl, tt);
}

let_go-Without_app : Without "app" "shop" let_go
unfolding get is_absent
let_go-Without_app = record { gone = refl; claims_distinct = tt; groups_distinct = tt }

volume_outlives_container_example :
    contains
      (volume_names
        (get_or zero_cached_group
          (get (run_cycles on_disk cache ((pos 9, live) ∷ (pos 10, let_go) ∷ [])) "shop")).volumes)
      "data"
    ≡ true
unfolding get
volume_outlives_container_example =
    volume_outlives_container on_disk (λ p. refl) "app" "data" "shop" cache cached
      ((pos 9, live) ∷ (pos 10, let_go) ∷ []) cache-IsMap refl shop-Claimed
      (live-Without_app, (let_go-Without_app, tt))
