-- ===== src/Tests/Labels.antt =====
-- A container with two mounts of one volume, and database entries (internal/discovery).
use borgmatic_manager.Prelude.{
  String, ◌≡◌, refl, true, false, not, ◌&&◌, ◌||◌, ◌==◌, none, some, [], ◌∷◌, map, all, contains,
  if◌then◌else◌,
}
use borgmatic_manager.Prelude.Int.{pos}
use borgmatic_manager.GoMap.{GoMap, get, put}
use borgmatic_manager.Models.{DatabaseConfig, new_backup_state, add_volume, add_claim, update_group}
use borgmatic_manager.Discovery.Volumes.{
  Mount, RuntimeVolume, ContainerInfo, Probes, ContainerIntent, Found, should_skip_volume,
  is_hex_digit, hex_digits, is_anonymous, is_included, add_found, host_path_of, take_mount,
  discover_container_volumes,
}
use borgmatic_manager.Discovery.Volumes.Mounts.{names_in, claimers_in, is_usable, IsSeen}
use borgmatic_manager.Discovery.Volumes.Selected.{selects, volumes_selected}
use borgmatic_manager.Discovery.Databases.{
  accepted, refused, missing_username, is_valid_type, set_db_field, validate_sqlite, mode_of,
  with_mode, validate_database, join_entry, spec_databases, needs_container_namespace, dumpable,
}
use borgmatic_manager.Discovery.Databases.Validity.{is_complete, ready, spec_all_or_none}

program : Unit {0}
unfolding get put add_volume add_claim update_group should_skip_volume is_hex_digit hex_digits
    is_anonymous is_included add_found host_path_of take_mount discover_container_volumes
    is_valid_type set_db_field validate_sqlite mode_of with_mode validate_database join_entry
    spec_databases needs_container_namespace dumpable
program = tt

abbrev probes : Probes
probes = record {
  is_mount_point = λ p. false;
  can_read_dir = λ p. not (p == "/v/locked");
  dir_is_empty = λ p. false;
}

abbrev volumes : GoMap RuntimeVolume
volumes =
    ("data", record { driver = "local"; mountpoint = "/v/data"; options = [] })
    ∷ ("locked", record { driver = "local"; mountpoint = "/v/locked"; options = [] })
    ∷ []

abbrev mount_of : String → Mount
mount_of name = record { name = name; source = ""; destination = "/srv" }

abbrev container : ContainerInfo
container = record {
  name = "app";
  image = "img";
  mounts = mount_of "data" ∷ mount_of "locked" ∷ mount_of "data" ∷ [];
  exec_ready = true;
}

abbrev intent : ContainerIntent
intent = record {
  group = "shop";
  enabled = true;
  volumes_filter = [];
  has_volumes_filter = false;
  databases = [];
  config = none;
  period = pos 0;
}

abbrev nothing_found : Found
nothing_found = record { state = new_backup_state; seen = [] }

abbrev found : Found
found = discover_container_volumes probes volumes container intent nothing_found

found_once :
    (names_in found "shop" ≡ "data" ∷ []) × (claimers_in found "shop" "locked" ≡ "app" ∷ [])
unfolding program
found_once = (refl, refl)

nothing-IsSeen : IsSeen nothing_found "shop"
unfolding get
nothing-IsSeen = record { same = refl; distinct = tt }

volumes_selected_example :
    (contains (names_in found "shop") "locked" ≡ (
      contains (names_in nothing_found "shop") "locked"
      || (selects intent container.mounts "locked" && is_usable probes volumes "locked")))
    × (contains (claimers_in found "shop" "locked") "app" ≡ (
        contains (claimers_in nothing_found "shop" "locked") "app"
        || (selects intent container.mounts "locked" && container.name == "app")))
volumes_selected_example =
    volumes_selected probes volumes container intent nothing_found "locked" "app" nothing-IsSeen

abbrev entry : DatabaseConfig
entry = record {
  type_ = "mysql";
  name = "app";
  username = "u";
  password = "p";
  hostname = "";
  port = pos 0;
  container = "";
  image = "";
  mode = "exec";
  volume = "";
  path = "";
  options = "";
}

abbrev nameless : DatabaseConfig
nameless = record entry { username = "" }

-- The mode falls back to the helper, and an entry without a user fails the whole spec.
entries_checked :
    (validate_database entry ≡ accepted (record entry { mode = "" }))
    × (validate_database nameless ≡ refused missing_username)
    × (spec_databases (entry ∷ nameless ∷ []) ≡ none)
    × (set_db_field (λ s. none) nameless "username" "u" ≡ accepted entry)
    × (dumpable false (entry ∷ record entry { hostname = "h" } ∷ [])
        ≡ record entry { hostname = "h" } ∷ [])
unfolding program
entries_checked = (refl, refl, refl, refl, refl)

spec_all_or_none_example : spec_databases (entry ∷ nameless ∷ []) ≡ (
    if all is_complete (entry ∷ nameless ∷ [])
    then some (map ready (entry ∷ nameless ∷ []))
    else none)
spec_all_or_none_example = spec_all_or_none (entry ∷ nameless ∷ [])
