-- ===== src/Restore/Recovery/Repairs.antt =====
-- The recovery repairs the state that a killed swap leaves between its two renames.
use borgmatic_manager.Prelude.{
  String, Bool, true, false, Option, none, some, [], ◌∷◌, keep, ◌==◌, ◌≡◌, refl, arith, Bool-cases,
  inl, inr, eq_iff, eq_refl, ap, ◌∙◌, subst, ◌⊎◌,
}
use borgmatic_manager.GoMap.{get, put, remove, keys, IsMap}
use borgmatic_manager.GoStrings.{plus}
use borgmatic_manager.Scheduler.Fingerprint.{insert_sorted, sort_strings}
use borgmatic_manager.Restore.Disk.{Dir, Disk, returned, perform, ask, set_mark, rename}
use borgmatic_manager.Restore.Swap.Slots.{content, is_ours, get-put_here}
use borgmatic_manager.Restore.Swap.States.{Setup, Gap, content-some}
use borgmatic_manager.Restore.Recovery.{
  old_prefix, made_by_mkdir_temp, siblings_with_prefix, marked, provably_ours, fine, collect_ours,
  sweep, put_back, choose, recover_interrupted_swap,
}
use borgmatic_manager.Restore.Recovery.Names.{own_name_unmade}

module _ (p : String → Bool) where
  keep-none :
      (m : Disk) → IsMap m → ((k : String) → p k ≡ true → get m k ≡ none) → keep p (keys m) ≡ []
  unfolding get
  keep-none [] h absent = refl
  keep-none ((k, d) ∷ m) h absent =
      let rest = keep-none m h.1 (λ j q. ground (arith, absent j q)) in
      elim (Bool-cases (p k)) [
        | inl there ↦ absurd (ground (arith, absent k there, eq_refl k))
        | inr other ↦ rw other rest
      ]

  keep-lone :
      (m : Disk) (name : String) (d : Dir)
      → IsMap m
      → p name ≡ true
      → get m name ≡ some d
      → ((k : String) → p k ≡ true → (name == k) ≡ false → get m k ≡ none)
      → keep p (keys m) ≡ name ∷ []
  unfolding get
  keep-lone [] name d h made e absent = cc
  keep-lone ((k, x) ∷ m) name d h made e absent = elim (Bool-cases (k == name)) [
    | inl same ↦
        let here : k ≡ name = ground (arith, eq_iff k name) in
        let rest = keep-none m h.1 (λ j q. elim (Bool-cases (name == j)) [
          | inl again ↦ subst (λ i. get m i ≡ none) (ground (arith, eq_iff name j)) h.0
          | inr other ↦ ground (arith, absent j q other)
        ]) in
        rw (here, made) (ap (λ l. name ∷ l) rest)
    | inr differ ↦
        let rest =
          keep-lone m name d h.1 made (ground arith)
            (λ j q other. ground (arith, absent j q other)) in
        let unmade : p k ≡ false = lemma_other (Bool-cases (p k)) differ in rw unmade rest
  ]
    where
      lemma_other : (p k ≡ true) ⊎ (p k ≡ false) → (k == name) ≡ false → p k ≡ false
      lemma_other (inl there) differ =
          absurd (ground (arith, absent k there, eq_refl k, eq_iff name k, eq_iff k name))
      lemma_other (inr other) differ = other

module _ (target temp : String) (disk : Disk) (d : Dir) (at_temp : get disk temp ≡ some d)
    (free : get disk target ≡ none) where
  abbrev repaired : Disk
  repaired = put (put (remove disk temp) target d) target (record d { ours = false })

  put_back-repairs : put_back target temp (temp ∷ []) [] disk ≡ returned fine [] repaired
  unfolding put_back rename perform set_mark sweep
  put_back-repairs = rw (at_temp, free, get-put_here (remove disk temp) target d, eq_refl temp) refl

  collect-repairs :
      marked (get disk temp) ≡ true
      → collect_ours (choose target) [] (temp ∷ []) [] disk ≡ returned fine [] repaired
  unfolding collect_ours provably_ours ask
  collect-repairs ours = rw ours put_back-repairs

  recovery-repairs :
      marked (get disk temp) ≡ true
      → sort_strings (keep (λ k. made_by_mkdir_temp k (plus target old_prefix)) (keys disk))
        ≡ temp ∷ []
      → recover_interrupted_swap target [] disk ≡ returned fine [] repaired
  unfolding recover_interrupted_swap siblings_with_prefix ask
  recovery-repairs ours listed = rw (listed, free) (collect-repairs ours)

-- After a swap that was killed between its two renames, and had marked the old data's directory, the
-- recovery without failures puts the old data back as the volume, if no other directory beside the
-- volume has a name of the kind that this program reserves.
pub killed_swap_repaired :
    (u : Setup) (disk : Disk)
    → Gap u disk
    → is_ours (get disk u.temp) ≡ true
    → made_by_mkdir_temp u.temp (plus u.target old_prefix) ≡ true
    → made_by_mkdir_temp u.staging (plus u.target old_prefix) ≡ false
    → ((k : String)
        → made_by_mkdir_temp k (plus u.target old_prefix) ≡ true
        → (u.temp == k) ≡ false
        → get u.start k ≡ none)
    → (next : Disk) × (recover_interrupted_swap u.target [] disk ≡ returned fine [] next)
      × (content (get next u.target) ≡ some u.old)
unfolding sort_strings insert_sorted
killed_swap_repaired u disk v ours made unmade alone =
    let (d, at_temp, same) = content-some (get disk u.temp) v.at_temp in
    let free : get disk u.target ≡ none = nothing_there (get disk u.target) v.at_target in
    let lone =
      keep-lone (λ k. made_by_mkdir_temp k (plus u.target old_prefix)) disk u.temp d v.framed.is_map
        made at_temp absent in
    let next = repaired u.target u.temp disk d at_temp free in
    (
      next,
      recovery-repairs u.target u.temp disk d at_temp free (is_marked (get disk u.temp) ours)
          (rw lone refl),
      rw (get-put_here (put (remove disk u.temp) u.target d) u.target (record d { ours = false }))
          (ap some same),
    )
  where
    nothing_there : (o : Option Dir) → content o ≡ none → o ≡ none
    nothing_there none e = refl
    nothing_there (some d) e = cc

    is_marked : (o : Option Dir) → is_ours o ≡ true → marked o ≡ true
    is_marked none e = cc
    is_marked (some d) e = e

    absent :
        (k : String)
        → made_by_mkdir_temp k (plus u.target old_prefix) ≡ true
        → (u.temp == k) ≡ false
        → get disk k ≡ none
    absent k q other =
        v.framed.others k (differs u.target (own_name_unmade u.target)) (differs u.staging unmade)
          other
        ∙ alone k q other
      where
        differs :
            (j : String)
            → made_by_mkdir_temp j (plus u.target old_prefix) ≡ false
            → (j == k) ≡ false
        differs j n = elim (Bool-cases (j == k)) [
          | inl same ↦ absurd (ground (arith, eq_iff j k))
          | inr different ↦ different
        ]
