-- ===== src/Discovery/Databases.antt =====
-- The databases of labels and specs: `setDBField`, `validateDatabase` and `validateSQLite` of
-- internal/discovery/labels.go, `databases` of internal/discovery/spec.go, and
-- `needsContainerNamespace` and the choice of the dumps of a cycle in internal/discovery/discover.go.
-- The warnings are left out. `strconv.Atoi` is a parameter.
pub mod Validity
use borgmatic_manager.Prelude.{
  String, Bool, true, false, not, ◌&&◌, ◌||◌, ◌==◌, Option, none, some, List, [], ◌∷◌,
  if◌then◌else◌, keep,
}
use borgmatic_manager.Prelude.Int.{ℤ, pos}
use borgmatic_manager.Models.{DatabaseConfig}

-- Why a label or an entry is refused.
pub data LabelError : Type 0 where
  missing_type unknown_type missing_name missing_username missing_volume missing_path : LabelError
  invalid_port unknown_field : LabelError

pub data Checked : Type 0 where
  refused : LabelError → Checked
  accepted : DatabaseConfig → Checked

abbrev pub sqlite : String
sqlite = "sqlite"

unfoldable pub is_valid_type : String → Bool
is_valid_type t = t == "postgresql" || t == "mysql" || t == "mariadb" || t == sqlite

unfoldable pub set_db_field : (String → Option ℤ) → DatabaseConfig → String → String → Checked
set_db_field atoi cfg field value =
    if field == "type"
    then accepted (record cfg { type_ = value })
    else if field == "name"
    then accepted (record cfg { name = value })
    else if field == "username"
    then accepted (record cfg { username = value })
    else if field == "password"
    then accepted (record cfg { password = value })
    else if field == "hostname"
    then accepted (record cfg { hostname = value })
    else if field == "port"
    then elim (atoi value) [
      | none ↦ refused invalid_port
      | some port ↦ accepted (record cfg { port = port })
    ]
    else if field == "volume"
    then accepted (record cfg { volume = value })
    else if field == "path"
    then accepted (record cfg { path = value })
    else if field == "options"
    then accepted (record cfg { options = value })
    else if field == "mode"
    then accepted (record cfg { mode = value })
    else if field == "network"
    then accepted cfg
    else refused unknown_field

-- The credentials and options of a sqlite entry are cleared.
unfoldable pub validate_sqlite : DatabaseConfig → Checked
validate_sqlite cfg =
    if cfg.volume == ""
    then refused missing_volume
    else if cfg.path == ""
    then refused missing_path
    else accepted
        (record cfg { username = ""; password = ""; hostname = ""; port = pos 0; options = "" })

-- The `switch` on the mode: only postgresql keeps `exec`.
unfoldable pub mode_of : DatabaseConfig → String
mode_of cfg = if cfg.mode == "exec" && cfg.type_ == "postgresql" then "exec" else ""

unfoldable pub with_mode : Checked → Checked
with_mode (refused e) = refused e
with_mode (accepted cfg) = accepted (record cfg { mode = mode_of cfg })

unfoldable pub validate_database : DatabaseConfig → Checked
validate_database cfg =
    if cfg.type_ == ""
    then refused missing_type
    else if not (is_valid_type cfg.type_)
    then refused unknown_type
    else if cfg.name == ""
    then refused missing_name
    else with_mode (
        if cfg.type_ == sqlite
        then validate_sqlite cfg
        else if cfg.username == ""
        then refused missing_username
        else accepted cfg)

-- One more entry, before those that follow it.
unfoldable pub join_entry : Checked → Option (List DatabaseConfig) → Option (List DatabaseConfig)
join_entry (accepted db) (some dbs) = some (db ∷ dbs)
join_entry _ _ = none

-- The entries of a spec: any refused one fails them all.
unfoldable pub spec_databases : List DatabaseConfig → Option (List DatabaseConfig)
spec_databases [] = some []
spec_databases (cfg ∷ cfgs) = join_entry (validate_database cfg) (spec_databases cfgs)

unfoldable pub needs_container_namespace : DatabaseConfig → Bool
needs_container_namespace db = not (db.type_ == sqlite) && db.hostname == ""

-- What a cycle dumps of a container's databases, by whether the container executes.
unfoldable pub dumpable : Bool → List DatabaseConfig → List DatabaseConfig
dumpable exec_ready dbs =
    if exec_ready then dbs else keep (λ db. not (needs_container_namespace db)) dbs
