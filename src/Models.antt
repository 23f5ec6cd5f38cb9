-- ===== src/Models.antt =====
-- The data model of internal/models/models.go. Go keeps `*VolumeGroup` in a map, and only one map
-- at a time holds a group, so the groups are values here.
use borgmatic_manager.Prelude.{String, Option, none, List, [], ◌∷◌, ◌++◌, get_or}
use borgmatic_manager.Prelude.Int.{ℤ, pos}
use borgmatic_manager.GoTime.{Duration}
use borgmatic_manager.GoMap.{GoMap, get, put}
use borgmatic_manager.Config.Value.{Fields}

pub record VolumeInfo : Type 0 where
  pub name : String
  pub host_path : String

-- `type_` is the source's `Type`.
pub record DatabaseConfig : Type 0 where
  pub type_ : String
  pub name : String
  pub username : String
  pub password : String
  pub hostname : String
  pub port : ℤ
  pub container : String
  pub image : String
  pub mode : String
  pub volume : String
  pub path : String
  pub options : String

pub record VolumeGroup : Type 0 where
  pub volumes : List VolumeInfo
  pub databases : List DatabaseConfig
  pub label_configs : List Fields
  pub period : Duration

-- Group, volume, and the containers that claimed it.
abbrev pub Claims : Type 0
Claims = GoMap (GoMap (List String))

pub record BackupState : Type 0 where
  pub groups : GoMap VolumeGroup
  -- The names of the containers that the runtime listed; `none` is the nil map.
  pub containers : Option (List String)
  pub claims : Claims

abbrev pub new_backup_state : BackupState
new_backup_state = record { groups = []; containers = none; claims = [] }

abbrev pub empty_group : VolumeGroup
empty_group = record { volumes = []; databases = []; label_configs = []; period = pos 0 }

unfoldable pub update_group : (VolumeGroup → VolumeGroup) → BackupState → String → BackupState
update_group f bs name = record bs {
  groups = put bs.groups name (f (get_or empty_group (get bs.groups name)));
}

unfoldable pub add_volume : BackupState → String → VolumeInfo → BackupState
add_volume bs group vol = update_group (λ g. record g { volumes = g.volumes ++ vol ∷ [] }) bs group

unfoldable pub add_claim : BackupState → String → String → String → BackupState
add_claim bs group volume container =
    let of_group = get_or [] (get bs.claims group) in
    let claimers = get_or [] (get of_group volume) in
    record bs { claims = put bs.claims group (put of_group volume (claimers ++ container ∷ [])) }

unfoldable pub add_databases : BackupState → String → List DatabaseConfig → BackupState
add_databases bs group dbs =
    update_group (λ g. record g { databases = g.databases ++ dbs }) bs group

unfoldable pub add_label_config : BackupState → String → Fields → BackupState
add_label_config bs group cfg =
    update_group (λ g. record g { label_configs = g.label_configs ++ cfg ∷ [] }) bs group

unfoldable pub set_period : BackupState → String → Duration → BackupState
set_period bs group period = update_group (λ g. record g { period = period }) bs group
