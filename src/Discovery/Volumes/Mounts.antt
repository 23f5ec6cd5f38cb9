-- ===== src/Discovery/Volumes/Mounts.antt =====
-- What one mount adds to a group.
use borgmatic_manager.Prelude.{
  String, ◌≡◌, refl, ap, ◌∙◌, Bool, true, false, not, ◌&&◌, ◌||◌, ◌==◌, eq_iff, eq_refl, Option,
  none, some, List, [], ◌∷◌, ◌++◌, arith, if◌then◌else◌, get_or, contains, Bool-cases, Option-cases,
  inl, inr,
}
use borgmatic_manager.GoMap.{GoMap, get, get-put}
use borgmatic_manager.Models.{empty_group, update_group, add_volume, add_claim}
use borgmatic_manager.State.GroupCache.{volume_names}
use borgmatic_manager.State.GroupCache.Merge.{contains-append, volume_names-append, claimers}
use borgmatic_manager.Discovery.Volumes.{
  Mount, RuntimeVolume, Probes, Found, should_skip_volume, add_found, take_mount,
}

-- The names of a group's volumes, and the claimers of a volume in a group.
abbrev pub names_in : Found → String → List String
names_in f group = volume_names (get_or empty_group (get f.state.groups group)).volumes

abbrev pub seen_in : Found → String → List String
seen_in f group = get_or [] (get f.seen group)

abbrev pub claimers_in : Found → String → String → List String
claimers_in f group volume = claimers (get_or [] (get f.state.claims group)) volume

abbrev pub IsDistinct : List String → Type 0
IsDistinct [] = Unit
IsDistinct (x ∷ xs) = (contains xs x ≡ false) × IsDistinct xs

append-IsDistinct :
    (xs : List String) (s : String)
    → contains xs s ≡ false
    → IsDistinct xs
    → IsDistinct (xs ++ s ∷ [])
append-IsDistinct [] s h d = (refl, tt)
append-IsDistinct (x ∷ xs) s h d = (
  ground (arith, contains-append xs (s ∷ []) x, eq_iff x s, eq_iff s x),
  append-IsDistinct xs s (ground arith) d.1,
)

abbrev pub usable_volume : Probes → Option RuntimeVolume → Bool
usable_volume probes none = false
usable_volume probes (some vol) = not (should_skip_volume probes vol)

-- The runtime lists the volume, and it can be backed up.
abbrev pub is_usable : Probes → GoMap RuntimeVolume → String → Bool
is_usable probes volumes name = usable_volume probes (get volumes name)

-- What `seenVolumes` promises of a group.
pub record IsSeen (f : Found) (j : String) : Type 0 where
  pub same : seen_in f j ≡ names_in f j
  pub distinct : IsDistinct (names_in f j)

module _ (group : String) (m : Mount) (vol : RuntimeVolume) (f : Found) (j : String) where
  add_found-names :
      names_in (add_found group m vol f) j
      ≡ (if group == j then names_in f j ++ m.name ∷ [] else names_in f j)
  unfolding add_found add_volume update_group
  add_found-names = rw get-put (elim (Bool-cases (group == j)) [
    | inl same ↦ rw same (
        rw ((eq_iff group j).0 same)
          (volume_names-append (get_or empty_group (get f.state.groups j)).volumes _))
    | inr other ↦ rw other refl
  ])

  add_found-seen :
      seen_in (add_found group m vol f) j
      ≡ (if group == j then seen_in f j ++ m.name ∷ [] else seen_in f j)
  unfolding add_found
  add_found-seen = rw get-put (elim (Bool-cases (group == j)) [
    | inl same ↦ rw same (rw ((eq_iff group j).0 same) refl)
    | inr other ↦ rw other refl
  ])

module _ (probes : Probes) (volumes : GoMap RuntimeVolume) (container group : String) where
  -- The mount brings a volume that the group does not have yet.
  abbrev brings : Mount → Found → Bool
  brings m f = not (contains (seen_in f group) m.name) && is_usable probes volumes m.name

  abbrev claimed : Mount → Found → Found
  claimed m f = record f { state = add_claim f.state group m.name container }

  take_mount-cases :
      (P : Found → Type 0) (m : Mount) (f : Found)
      → (brings m f ≡ true → (vol : RuntimeVolume) → P (add_found group m vol (claimed m f)))
      → (brings m f ≡ false → P (claimed m f))
      → P (take_mount probes volumes container group m f)
  unfolding take_mount
  take_mount-cases P m f new old = elim (Bool-cases (contains (seen_in f group) m.name)) [
    | inl seen ↦ rw seen (old (rw seen refl))
    | inr unseen ↦ rw unseen (elim (Option-cases (get volumes m.name)) [
      | inl unlisted ↦ rw unlisted (old (rw (unseen, unlisted) refl))
      | inr (vol, listed) ↦ rw listed (elim (Bool-cases (should_skip_volume probes vol)) [
        | inl skipped ↦ rw skipped (old (rw (unseen, listed, skipped) refl))
        | inr readable ↦ rw readable (new (rw (unseen, listed, readable) refl) vol)
      ])
    ])
  ]

  pub take_mount-IsSeen :
      (m : Mount) (f : Found) (j : String)
      → IsSeen f j
      → IsSeen (take_mount probes volumes container group m f) j
  unfolding add_claim
  take_mount-IsSeen m f j s =
      take_mount-cases (λ f'. IsSeen f' j) m f
        (λ fresh vol. elim (Bool-cases (group == j)) [
          | inl here ↦
              let e : group ≡ j = (eq_iff group j).0 here in
              let new : contains (names_in f j) m.name ≡ false =
                rw (← s.same) (rw (← e) (ground arith)) in
              record {
                same =
                    rw
                      (
                        add_found-seen group m vol (claimed m f) j,
                        add_found-names group m vol (claimed m f) j,
                        here,
                      )
                      (ap (λ l. l ++ m.name ∷ []) s.same);
                distinct =
                    rw (add_found-names group m vol (claimed m f) j, here)
                      (append-IsDistinct (names_in f j) m.name new s.distinct);
              }
          | inr other ↦ record {
            same =
                rw
                  (
                    add_found-seen group m vol (claimed m f) j,
                    add_found-names group m vol (claimed m f) j,
                    other,
                  )
                  s.same;
            distinct = rw (add_found-names group m vol (claimed m f) j, other) s.distinct;
          }
        ])
        (λ old. record { same = s.same; distinct = s.distinct })

  pub take_mount-names :
      (m : Mount) (f : Found) (v : String)
      → IsSeen f group
      → contains (names_in (take_mount probes volumes container group m f) group) v
        ≡ (contains (names_in f group) v || (m.name == v && is_usable probes volumes m.name))
  unfolding add_claim
  take_mount-names m f v s =
      take_mount-cases
        (λ f'.
          contains (names_in f' group) v
          ≡ (contains (names_in f group) v || (m.name == v && is_usable probes volumes m.name)))
        m f
        (λ fresh vol.
          rw (add_found-names group m vol (claimed m f) group, eq_refl group)
            (rw (contains-append (names_in f group) (m.name ∷ []) v) (ground arith)))
        (λ old. ground (
          arith,
          eq_iff m.name v,
          ap (λ l. contains l v) s.same,
          ap (λ l. contains l m.name) s.same,
        ))

  claimed-claims :
      (m : Mount) (f : Found) (v c : String)
      → contains (claimers_in (claimed m f) group v) c
        ≡ (contains (claimers_in f group v) c || (m.name == v && container == c))
  unfolding add_claim
  claimed-claims m f v c =
      let of_group = get_or [] (get f.state.claims group) in
      rw get-put (
        rw (eq_refl group) (
          rw get-put (elim (Bool-cases (m.name == v)) [
            | inl same ↦ rw same (
                rw ((eq_iff m.name v).0 same)
                  (contains-append (claimers of_group v) (container ∷ []) c ∙ ground arith))
            | inr other ↦ rw other (ground arith)
          ])))

  pub take_mount-claims :
      (m : Mount) (f : Found) (v c : String)
      → contains (claimers_in (take_mount probes volumes container group m f) group v) c
        ≡ (contains (claimers_in f group v) c || (m.name == v && container == c))
  unfolding add_found add_volume update_group
  take_mount-claims m f v c =
      take_mount-cases
        (λ f'.
          contains (claimers_in f' group v) c
          ≡ (contains (claimers_in f group v) c || (m.name == v && container == c)))
        m f (λ fresh vol. claimed-claims m f v c) (λ old. claimed-claims m f v c)
