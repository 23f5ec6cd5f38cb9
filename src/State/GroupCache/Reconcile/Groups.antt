-- ===== src/State/GroupCache/Reconcile/Groups.antt =====
-- The loop of `Reconcile`, seen from one group.
use borgmatic_manager.Prelude.{
  String, ◌≡◌, refl, ap, ◌∙◌, Bool, true, false, not, ◌&&◌, ◌||◌, Option, none, some, List, [], ◌∷◌,
  ◌++◌, foldl, arith, ◌==◌, eq_iff, eq_refl, if◌then◌else◌, get_or, is_some, is_empty, keep,
  contains, Bool-cases, inl, inr,
}
use borgmatic_manager.GoTime.{Time}
use borgmatic_manager.GoMap.{GoMap, IsMap, get, get-put, get-remove, put-IsMap, keys, contains-keys}
use borgmatic_manager.Models.{VolumeGroup, BackupState}
use borgmatic_manager.State.GroupCache.{
  CachedGroup, zero_cached_group, new_offline, Merged, merge_group,
}
use borgmatic_manager.State.GroupCache.Merge.{contains-append, contains-keep}
use borgmatic_manager.State.GroupCache.Reconcile.{
  Cycle, view_of, note_offline, place, reconcile_group, all_names, reconcile_all,
}

-- What a cycle says of one group.
pub record Slot : Type 0 where
  pub cached : Option CachedGroup
  pub merged : Option VolumeGroup
  pub off_volumes : Option (List String)
  pub off_databases : Option (List String)

abbrev pub slot : Cycle → String → Slot
slot c j = record {
  cached = get c.cache j;
  merged = get c.groups j;
  off_volumes = get c.off.volumes j;
  off_databases = get c.off.databases j;
}

abbrev pub unless_empty : List String → Option (List String)
unless_empty l = if is_empty l then none else some l

abbrev pub group_of : CachedGroup → VolumeGroup
group_of g = record {
  volumes = g.volumes;
  databases = g.databases;
  label_configs = g.label_configs;
  period = g.period;
}

abbrev pub no_slot : Slot
no_slot = record { cached = none; merged = none; off_volumes = none; off_databases = none }

abbrev pub placed : Merged → Slot
placed m = if is_empty m.entry.volumes && is_empty m.entry.databases then no_slot else record {
  cached = some m.entry;
  merged = some (group_of m.entry);
  off_volumes = unless_empty m.offline_volumes;
  off_databases = unless_empty m.offline_databases;
}

-- The loop has said nothing of the group yet.
abbrev Fresh : Cycle → String → Type 0
Fresh c j = (get c.groups j ≡ none) × (get c.off.volumes j ≡ none) × (get c.off.databases j ≡ none)

get-note_offline :
    (m : GoMap (List String)) (name : String) (members : List String) (j : String)
    → get (note_offline m name members) j
      ≡ (if name == j then (if is_empty members then get m j else some members) else get m j)
unfolding note_offline
get-note_offline m name members j = ground (arith, get-put m name j members)

slot-place_other :
    (name : String) (m : Merged) (c : Cycle) (j : String)
    → (name == j) ≡ false
    → slot (place name m c) j ≡ slot c j
unfolding place
slot-place_other name m c j other = ground (
  arith,
  get-remove c.cache name j,
  get-put c.cache name j m.entry,
  get-put c.groups name j (group_of m.entry),
  get-note_offline c.off.volumes name m.offline_volumes j,
  get-note_offline c.off.databases name m.offline_databases j,
)

slot-place_self :
    (name : String) (m : Merged) (c : Cycle) → Fresh c name → slot (place name m c) name ≡ placed m
unfolding place
slot-place_self name m c fresh = ground (
  arith,
  eq_refl name,
  get-remove c.cache name name,
  get-put c.cache name name m.entry,
  get-put c.groups name name (group_of m.entry),
  get-note_offline c.off.volumes name m.offline_volumes name,
  get-note_offline c.off.databases name m.offline_databases name,
)

-- No text stands twice.
abbrev Distinct : List String → Type 0
Distinct [] = Unit
Distinct (x ∷ xs) = (contains xs x ≡ false) × Distinct xs

Distinct-keys {ℓ} : {V : Type ℓ} (m : GoMap V) → IsMap m → Distinct (keys m)
Distinct-keys [] h = tt
Distinct-keys ((k, v) ∷ m) h = (contains-keys m k ∙ rw h.0 refl, Distinct-keys m h.1)

Distinct-keep : (p : String → Bool) (xs : List String) → Distinct xs → Distinct (keep p xs)
Distinct-keep p [] d = tt
Distinct-keep p (x ∷ xs) d = ground (arith, contains-keep p xs x, Distinct-keep p xs)

Distinct-append :
    (xs ys : List String)
    → Distinct xs
    → Distinct ys
    → ((s : String) → contains xs s ≡ true → contains ys s ≡ false)
    → Distinct (xs ++ ys)
Distinct-append [] ys dx dy apart = dy
Distinct-append (x ∷ xs) ys dx dy apart = (
  ground (arith, contains-append xs ys x, apart x, eq_refl x),
  Distinct-append xs ys dx.1 dy (λ s h. apart s (ground arith)),
)

module _ (cache : GoMap CachedGroup) (groups : GoMap VolumeGroup) where
  contains-all_names :
      (j : String)
      → contains (all_names cache groups) j ≡ (is_some (get cache j) || is_some (get groups j))
  unfolding all_names
  contains-all_names j =
      let new = λ (name : String). not (is_some (get cache name)) in
      ground (
        arith,
        contains-append (keys cache) (keep new (keys groups)) j,
        contains-keep new (keys groups) j,
        contains-keys cache j,
        contains-keys groups j,
      )

  all_names-Distinct : IsMap cache → IsMap groups → Distinct (all_names cache groups)
  unfolding all_names
  all_names-Distinct mc mg =
      let new = λ (name : String). not (is_some (get cache name)) in
      Distinct-append (keys cache) (keep new (keys groups)) (Distinct-keys cache mc)
        (Distinct-keep new (keys groups) (Distinct-keys groups mg))
        (λ s h. ground (arith, contains-keep new (keys groups) s, contains-keys cache s))

place_groups-IsMap :
    (name : String) (m : Merged) (c : Cycle) → IsMap c.groups → IsMap (place name m c).groups
unfolding place
place_groups-IsMap name m c d =
    elim (Bool-cases (is_empty m.entry.volumes && is_empty m.entry.databases)) [
      | inl nothing ↦ rw nothing d
      | inr something ↦ rw something (put-IsMap c.groups name (group_of m.entry) d)
    ]

module _ (path_exists : String → Bool) (now : Time) (live : BackupState) where
  abbrev step : Cycle → String → Cycle
  step = reconcile_group path_exists now live

  abbrev pub merged_at : String → Option CachedGroup → Merged
  merged_at name cached =
      merge_group path_exists now (view_of live name) (get_or zero_cached_group cached)

  loop_others :
      (names : List String) (c : Cycle) (j : String)
      → contains names j ≡ false
      → slot (foldl step c names) j ≡ slot c j
  unfolding reconcile_group
  loop_others [] c j h = refl
  loop_others (name ∷ names) c j h =
      loop_others names (step c name) j (ground arith)
      ∙ slot-place_other name (merged_at name (get c.cache name)) c j (ground arith)

  loop_self :
      (names : List String) (c : Cycle) (j : String)
      → Distinct names
      → Fresh c j
      → contains names j ≡ true
      → slot (foldl step c names) j ≡ placed (merged_at j (get c.cache j))
  unfolding reconcile_group
  loop_self [] c j d fresh h = cc
  loop_self (name ∷ names) c j d fresh h =
      let m = merged_at name (get c.cache name) in
      elim (Bool-cases (name == j)) [
        | inl same ↦
            let e : name ≡ j = (eq_iff name j).0 same in
            rw e (
              loop_others names (step c j) j (rw e at (d.0))
              ∙ slot-place_self j (merged_at j (get c.cache j)) c fresh)
        | inr other ↦
            let kept : slot (step c name) j ≡ slot c j = slot-place_other name m c j other in
            loop_self names (step c name) j d.1
              (
                ap (λ (s : Slot). s.merged) kept ∙ fresh.0,
                ap (λ (s : Slot). s.off_volumes) kept ∙ fresh.1,
                ap (λ (s : Slot). s.off_databases) kept ∙ fresh.2,
              )
              (ground arith)
            ∙ ap (λ (s : Slot). placed (merged_at j s.cached)) kept
      ]

  -- A cycle treats each group by itself: a group that is neither cached nor live has no entry
  -- anywhere, and any other has in the cache, the merged state and the offline members what the
  -- merge of its own two sides gives.
  pub slot-reconcile_all :
      (cache : GoMap CachedGroup) (j : String)
      → IsMap cache
      → IsMap live.groups
      → slot (reconcile_all path_exists now live cache) j ≡ (
          if is_some (get cache j) || is_some (get live.groups j)
          then placed (merged_at j (get cache j))
          else no_slot)
  unfolding reconcile_all get
  slot-reconcile_all cache j mc ml =
      let names = all_names cache live.groups in
      let start : Cycle = record { cache = cache; groups = []; off = new_offline } in
      elim (Bool-cases (is_some (get cache j) || is_some (get live.groups j))) [
        | inl known ↦
            loop_self names start j (all_names-Distinct cache live.groups mc ml) (refl, refl, refl)
              (contains-all_names cache live.groups j ∙ known)
            ∙ rw known refl
        | inr unknown ↦
            let uncached : get cache j ≡ none = ground arith in
            loop_others names start j (contains-all_names cache live.groups j ∙ unknown)
            ∙ rw unknown (rw uncached refl)
      ]

  loop_groups-IsMap :
      (names : List String) (c : Cycle) → IsMap c.groups → IsMap (foldl step c names).groups
  unfolding reconcile_group
  loop_groups-IsMap [] c d = d
  loop_groups-IsMap (name ∷ names) c d =
      loop_groups-IsMap names (step c name)
        (place_groups-IsMap name (merged_at name (get c.cache name)) c d)

  pub reconcile_all_groups-IsMap :
      (cache : GoMap CachedGroup) → IsMap (reconcile_all path_exists now live cache).groups
  unfolding reconcile_all
  reconcile_all_groups-IsMap cache = loop_groups-IsMap (all_names cache live.groups) _ tt
