-- ===== src/State/GroupCache/Merge.antt =====
-- The union of live and cached members.
use borgmatic_manager.Prelude.{
  String, ◌≡◌, refl, ap, ◌∙◌, Bool, not, ◌&&◌, ◌||◌, Option, none, some, List, [], ◌∷◌, ◌++◌, foldl,
  arith, ◌==◌, eq_iff, if◌then◌else◌, get_or, is_empty, keep, any, contains, Bool-cases,
  Option-cases, inl, inr,
}
use borgmatic_manager.GoMap.{GoMap, IsMap, get, get-put, get-update_each}
use borgmatic_manager.Models.{VolumeInfo}
use borgmatic_manager.State.GroupCache.{
  volume_names, merge_volumes, is_absent, add_claimer, add_claimers, standing_claims, merge_claims,
}

pub contains-append :
    (xs ys : List String) (s : String) → contains (xs ++ ys) s ≡ (contains xs s || contains ys s)
contains-append [] ys s = refl
contains-append (x ∷ xs) ys s = ground (arith, contains-append xs ys s)

pub volume_names-append :
    (xs ys : List VolumeInfo) → volume_names (xs ++ ys) ≡ volume_names xs ++ volume_names ys
volume_names-append [] ys = refl
volume_names-append (x ∷ xs) ys = ap (◌∷◌ x.name) (volume_names-append xs ys)

-- One of the volumes has the name and passes the test.
abbrev pub holds : (VolumeInfo → Bool) → List VolumeInfo → String → Bool
holds p vols name = any (λ v. v.name == name && p v) vols

names-keep :
    (p : VolumeInfo → Bool) (vols : List VolumeInfo) (name : String)
    → contains (volume_names (keep p vols)) name ≡ holds p vols name
names-keep p [] name = refl
names-keep p (v ∷ vols) name = ground (arith, names-keep p vols name)

module _ (live cached : List VolumeInfo) (path_exists deselected : String → Bool)
    (name : String) where
  -- A cached volume that no live one replaces, that is still on disk and still wanted.
  abbrev pub stands : VolumeInfo → Bool
  stands v =
      not
        (contains (volume_names live) v.name || not (path_exists v.host_path) || deselected v.name)

  -- The merged volumes are the live ones, and the cached ones that are on disk and wanted. Exactly
  -- those that stand from the cache alone are marked offline.
  pub merge_volumes_members :
      (contains (volume_names (merge_volumes live cached path_exists deselected).0) name
        ≡ (contains (volume_names live) name || holds stands cached name))
      × (contains (merge_volumes live cached path_exists deselected).1 name
          ≡ holds stands cached name)
  unfolding merge_volumes
  merge_volumes_members = (
    rw (volume_names-append live (keep stands cached)) (
        rw (contains-append (volume_names live) (volume_names (keep stands cached)) name)
          (rw (names-keep stands cached name) refl)),
    names-keep stands cached name,
  )

pub contains-keep :
    (p : String → Bool) (xs : List String) (s : String)
    → contains (keep p xs) s ≡ (contains xs s && p s)
contains-keep p [] s = refl
contains-keep p (x ∷ xs) s = ground (arith, contains-keep p xs s, eq_iff x s)

-- The claimers of a volume.
abbrev pub claimers : GoMap (List String) → String → List String
claimers m vol = get_or [] (get m vol)

-- A list that is left out when it is empty reads back as itself.
pub some_or_nil {ℓ} :
    {A : Type ℓ} (l : List A) → get_or [] (if is_empty l then none else some l) ≡ l
some_or_nil [] = refl
some_or_nil (x ∷ l) = refl

claimers-standing :
    (present : Option (List String)) (cached : GoMap (List String)) (vol : String)
    → IsMap cached
    → claimers (standing_claims present cached) vol ≡ keep (is_absent present) (claimers cached vol)
unfolding standing_claims
claimers-standing present cached vol m =
    ap (get_or []) (get-update_each _ cached vol m) ∙ elim (Option-cases (get cached vol)) [
      | inl missing ↦ rw missing refl
      | inr (cs, had) ↦ rw had (some_or_nil (keep (is_absent present) cs))
    ]

contains-add_claimer :
    (out : GoMap (List String)) (vol c w s : String)
    → contains (claimers (add_claimer vol out c) w) s
      ≡ (contains (claimers out w) s || (vol == w && c == s))
unfolding add_claimer
contains-add_claimer out vol c w s = elim (Bool-cases (contains (claimers out vol) c)) [
  | inl old ↦ rw old (ground (arith, eq_iff vol w, eq_iff c s))
  | inr new ↦ rw new (
      ground (
        arith,
        eq_iff vol w,
        get-put out vol w (claimers out vol ++ c ∷ []),
        contains-append (claimers out vol) (c ∷ []) s,
      ))
]

contains-add_claimers :
    (out : GoMap (List String)) (vol : String) (cs : List String) (w s : String)
    → contains (claimers (foldl (add_claimer vol) out cs) w) s
      ≡ (contains (claimers out w) s || (vol == w && contains cs s))
contains-add_claimers out vol [] w s = ground arith
contains-add_claimers out vol (c ∷ cs) w s = ground (
  arith,
  contains-add_claimers (add_claimer vol out c) vol cs w s,
  contains-add_claimer out vol c w s,
)

contains-add_live :
    (out live : GoMap (List String)) (w s : String)
    → IsMap live
    → contains (claimers (foldl add_claimers out live) w) s
      ≡ (contains (claimers out w) s || contains (claimers live w) s)
unfolding add_claimers get
contains-add_live out [] w s m = ground arith
contains-add_live out ((vol, cs) ∷ live) w s m = ground (
  arith,
  eq_iff vol w,
  contains-add_live (add_claimers out (vol, cs)) live w s,
  contains-add_claimers out vol cs w s,
)

-- A container claims a volume after the merge exactly if it claims it now, or if it claimed it last
-- cycle and is gone from the listing: a container that is present and lets go loses its claim.
pub merge_claims_members :
    (live cached : GoMap (List String)) (present : Option (List String)) (vol c : String)
    → IsMap live
    → IsMap cached
    → contains (claimers (merge_claims live cached present) vol) c ≡ (
        contains (claimers live vol) c || (contains (claimers cached vol) c && is_absent present c))
unfolding merge_claims
merge_claims_members live cached present vol c ml mc = ground (
  arith,
  contains-add_live (standing_claims present cached) live vol c,
  claimers-standing present cached vol mc,
  contains-keep (is_absent present) (claimers cached vol) c,
)
