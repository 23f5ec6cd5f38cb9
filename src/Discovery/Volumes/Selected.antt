-- ===== src/Discovery/Volumes/Selected.antt =====
-- Which volumes a container brings into its group, and which it claims.
use borgmatic_manager.Prelude.{
  String, ◌≡◌, ◌∙◌, Bool, ◌&&◌, ◌||◌, ◌==◌, eq_iff, List, [], ◌∷◌, foldl, arith, if◌then◌else◌, any,
  contains, Bool-cases, inl, inr, if_both,
}
use borgmatic_manager.GoMap.{GoMap}
use borgmatic_manager.Discovery.Volumes.{
  Mount, RuntimeVolume, ContainerInfo, Probes, ContainerIntent, Found, is_included, take_mount,
  discover_container_volumes,
}
use borgmatic_manager.Discovery.Volumes.Mounts.{
  names_in, claimers_in, IsSeen, is_usable, take_mount-IsSeen, take_mount-names, take_mount-claims,
}

-- One of the mounts is included and has the volume.
abbrev pub selects : ContainerIntent → List Mount → String → Bool
selects intent mounts v = any (λ m. is_included intent m && m.name == v) mounts

module _ (probes : Probes) (volumes : GoMap RuntimeVolume) (container : String)
    (intent : ContainerIntent) where
  abbrev over_mount : Found → Mount → Found
  over_mount f m =
      if is_included intent m then take_mount probes volumes container intent.group m f else f

  over_mount-IsSeen : (f : Found) (m : Mount) (j : String) → IsSeen f j → IsSeen (over_mount f m) j
  over_mount-IsSeen f m j s =
      if_both (λ (f' : Found). IsSeen f' j) (is_included intent m) _ f
        (take_mount-IsSeen probes volumes container intent.group m f j s) s

  mounts-IsSeen :
      (mounts : List Mount) (f : Found) (j : String)
      → IsSeen f j
      → IsSeen (foldl over_mount f mounts) j
  mounts-IsSeen [] f j s = s
  mounts-IsSeen (m ∷ mounts) f j s =
      mounts-IsSeen mounts (over_mount f m) j (over_mount-IsSeen f m j s)

  over_mount-names :
      (f : Found) (m : Mount) (v : String)
      → IsSeen f intent.group
      → contains (names_in (over_mount f m) intent.group) v ≡ (
          contains (names_in f intent.group) v
          || (is_included intent m && m.name == v && is_usable probes volumes v))
  over_mount-names f m v s = elim (Bool-cases (is_included intent m)) [
    | inl inside ↦ rw inside (
        take_mount-names probes volumes container intent.group m f v s
        ∙ ground (arith, eq_iff m.name v))
    | inr outside ↦ rw outside (ground arith)
  ]

  mounts-names :
      (mounts : List Mount) (f : Found) (v : String)
      → IsSeen f intent.group
      → contains (names_in (foldl over_mount f mounts) intent.group) v ≡ (
          contains (names_in f intent.group) v
          || (selects intent mounts v && is_usable probes volumes v))
  mounts-names [] f v s = ground arith
  mounts-names (m ∷ mounts) f v s = ground (
    arith,
    mounts-names mounts (over_mount f m) v (over_mount-IsSeen f m intent.group s),
    over_mount-names f m v s,
  )

  over_mount-claims :
      (f : Found) (m : Mount) (v c : String)
      → contains (claimers_in (over_mount f m) intent.group v) c ≡ (
          contains (claimers_in f intent.group v) c
          || (is_included intent m && m.name == v && container == c))
  over_mount-claims f m v c = elim (Bool-cases (is_included intent m)) [
    | inl inside ↦ rw inside (take_mount-claims probes volumes container intent.group m f v c)
    | inr outside ↦ rw outside (ground arith)
  ]

  mounts-claims :
      (mounts : List Mount) (f : Found) (v c : String)
      → contains (claimers_in (foldl over_mount f mounts) intent.group v) c
        ≡ (contains (claimers_in f intent.group v) c || (selects intent mounts v && container == c))
  mounts-claims [] f v c = ground arith
  mounts-claims (m ∷ mounts) f v c =
      ground (arith, mounts-claims mounts (over_mount f m) v c, over_mount-claims f m v c)

module _ (probes : Probes) (volumes : GoMap RuntimeVolume) where
  -- If what was seen of a group are its volumes, each once, that stays so through a container: two
  -- mounts or two containers that share a volume bring it into a group once.
  pub volumes_once :
      (c : ContainerInfo) (intent : ContainerIntent) (f : Found) (j : String)
      → IsSeen f j
      → IsSeen (discover_container_volumes probes volumes c intent f) j
  unfolding discover_container_volumes
  volumes_once c intent f j s = mounts-IsSeen probes volumes c.name intent c.mounts f j s

  -- A container brings into its group exactly the volumes that an included mount names, that the
  -- runtime lists and that can be read, if what was seen of the group are its volumes; and it
  -- claims exactly the volumes that an included mount names, also those that it cannot bring.
  pub volumes_selected :
      (c : ContainerInfo) (intent : ContainerIntent) (f : Found) (v claimer : String)
      → IsSeen f intent.group
      → (contains (names_in (discover_container_volumes probes volumes c intent f) intent.group) v
          ≡ (contains (names_in f intent.group) v
              || (selects intent c.mounts v && is_usable probes volumes v)))
        × (contains
              (claimers_in (discover_container_volumes probes volumes c intent f) intent.group v)
              claimer
            ≡ (contains (claimers_in f intent.group v) claimer
                || (selects intent c.mounts v && c.name == claimer)))
  unfolding discover_container_volumes
  volumes_selected c intent f v claimer s = (
    mounts-names probes volumes c.name intent c.mounts f v s,
    mounts-claims probes volumes c.name intent c.mounts f v claimer,
  )
