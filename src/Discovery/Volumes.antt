-- ===== src/Discovery/Volumes.antt =====
-- `discoverContainerVolumes` and `shouldSkipVolume` of internal/discovery/discover.go. What the
-- runtime lists and the probes of the host's file system are inputs.
pub mod Mounts
pub mod Selected
use Prim.Native.Char.{code}
use borgmatic_manager.Prelude.{
  ℕ, zero, suc, String, Bool, true, false, not, ◌&&◌, ◌||◌, ◌==◌, Option, none, some, List, [], ◌∷◌,
  ◌++◌, foldl, if◌then◌else◌, get_or, is_empty, any, contains, leb, nat_eq,
}
use borgmatic_manager.GoTime.{Duration}
use borgmatic_manager.GoMap.{GoMap, get, put}
use borgmatic_manager.Config.Value.{Fields}
use borgmatic_manager.Models.{VolumeInfo, DatabaseConfig, BackupState, add_volume, add_claim}

-- The runtime's records, as far as discovery reads them.
pub record Mount : Type 0 where
  pub name : String
  pub source : String
  pub destination : String

pub record RuntimeVolume : Type 0 where
  pub driver : String
  pub mountpoint : String
  pub options : GoMap String

pub record ContainerInfo : Type 0 where
  pub name : String
  pub image : String
  pub mounts : List Mount
  pub exec_ready : Bool

-- `isMountPoint`, `canReadDir` and `dirIsEmpty`.
pub record Probes : Type 0 where
  pub is_mount_point : String → Bool
  pub can_read_dir : String → Bool
  pub dir_is_empty : String → Bool

pub record ContainerIntent : Type 0 where
  pub group : String
  pub enabled : Bool
  pub volumes_filter : List String
  pub has_volumes_filter : Bool
  pub databases : List DatabaseConfig
  pub config : Option Fields
  pub period : Duration

-- One of `0` to `9` and `a` to `f`.
unfoldable pub is_hex_digit : ℕ → Bool
is_hex_digit c = (leb b'0' c && leb c b'9') || (leb b'a' c && leb c b'f')

unfoldable pub hex_digits : ℕ → String → Bool
hex_digits n String.[] = nat_eq n 0
hex_digits n (String.◌∷◌ c s) = elim n [
  | zero ↦ false
  | suc m ↦ is_hex_digit (code c) && hex_digits m s
]

-- The name matches `^[0-9a-f]{64}$`.
unfoldable pub is_anonymous : String → Bool
is_anonymous name = hex_digits 64 name

unfoldable pub should_skip_volume : Probes → RuntimeVolume → Bool
should_skip_volume probes v =
    if not (v.driver == "local")
    then true
    else if not (is_empty v.options)
        && not (probes.is_mount_point v.mountpoint)
        && probes.dir_is_empty v.mountpoint
    then true
    else not (probes.can_read_dir v.mountpoint)

-- A filter entry names the volume or where it is mounted; without a filter all but the anonymous
-- volumes are in.
unfoldable pub is_included : ContainerIntent → Mount → Bool
is_included intent m =
    if intent.has_volumes_filter
    then any (λ f. f == m.name || f == m.destination) intent.volumes_filter
    else not (is_anonymous m.name)

-- The state, and `seenVolumes`.
pub record Found : Type 0 where
  pub state : BackupState
  pub seen : GoMap (List String)

unfoldable pub host_path_of : RuntimeVolume → Mount → String
host_path_of vol m = if vol.mountpoint == "" then m.source else vol.mountpoint

unfoldable pub add_found : String → Mount → RuntimeVolume → Found → Found
add_found group m vol found = record {
  state = add_volume found.state group (record { name = m.name; host_path = host_path_of vol m });
  seen = put found.seen group (get_or [] (get found.seen group) ++ m.name ∷ []);
}

module _ (probes : Probes) (volumes : GoMap RuntimeVolume) (container group : String) where
  -- An included mount: it is claimed, and its volume is added unless the group has it already, the
  -- runtime does not list it, or it cannot be read.
  unfoldable pub take_mount : Mount → Found → Found
  take_mount m found =
      let claimed = record found { state = add_claim found.state group m.name container } in
      if contains (get_or [] (get found.seen group)) m.name
      then claimed
      else elim (get volumes m.name) [
        | none ↦ claimed
        | some vol ↦
            if should_skip_volume probes vol then claimed else add_found group m vol claimed
      ]

-- `discoverContainerVolumes`.
unfoldable pub discover_container_volumes :
    Probes → GoMap RuntimeVolume → ContainerInfo → ContainerIntent → Found → Found
discover_container_volumes probes volumes c intent found =
    foldl
      (λ f m. if is_included intent m then take_mount probes volumes c.name intent.group m f else f)
      found c.mounts
