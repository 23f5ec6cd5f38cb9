-- ===== src/Restore/Recovery/Kept.antt =====
-- What `recoverInterruptedSwap` never changes, call by call.
pub mod Calls
pub mod Whole
use borgmatic_manager.Prelude.{
  String, Bool, true, false, Option, none, some, List, [], ◌==◌, if◌then◌else◌, ◌≡◌, refl, arith,
  ◌⊎◌, inl, inr, is_empty, eq_iff, eq_refl, Bool-cases, Option-cases, sym, ap, ◌∙◌, get_or, subst,
}
use borgmatic_manager.GoMap.{get, put, remove, get-put, get-remove}
use borgmatic_manager.Restore.Disk.{Dir, Disk}
use borgmatic_manager.Restore.Swap.Slots.{content, get-put_here}
use borgmatic_manager.Restore.Recovery.{marked}

module _ (start : Disk) (target : String) where
  -- A directory without the mark stays as it is, except under the name of the volume; a volume that is
  -- there stays as it is; and a directory with data keeps its name or becomes the volume.
  pub record IsKept (disk : Disk) : Type 0 where
    pub foreign :
        (k : String)
        → (k == target) ≡ false
        → marked (get start k) ≡ false
        → get disk k ≡ get start k
    pub stays : (d : Dir) → get start target ≡ some d → get disk target ≡ some d
    pub data_kept :
        (k : String) (d : Dir)
        → get start k ≡ some d
        → is_empty d.entries ≡ false
        → (get disk k ≡ some d) ⊎ (content (get disk target) ≡ some d.entries)

  pub IsKept-start : IsKept start
  IsKept-start = record { foreign = λ k n f. refl; stays = λ d e. e; data_kept = λ k d e n. inl e }

  -- A directory that carries the mark now carried it from the start.
  pub marked_from_start :
      (disk : Disk) (m : String)
      → IsKept disk
      → (m == target) ≡ false
      → marked (get disk m) ≡ true
      → marked (get start m) ≡ true
  marked_from_start disk m v n e = elim (Bool-cases (marked (get start m))) [
    | inl ours ↦ ours
    | inr foreign ↦ absurd (ground (arith, v.foreign m n foreign))
  ]

  pub remove-IsKept :
      (disk : Disk) (m : String) (d : Dir)
      → (m == target) ≡ false
      → marked (get start m) ≡ true
      → get disk m ≡ some d
      → is_empty d.entries ≡ true
      → IsKept disk
      → IsKept (remove disk m)
  remove-IsKept disk m d n ours e empty v = record {
    foreign = λ k a f. ground (arith, get-remove disk m k, v.foreign k a f, eq_iff m k);
    stays = λ x q. ground (arith, get-remove disk m target, v.stays x q);
    data_kept = λ k x q full. elim (v.data_kept k x q full) [
      | inl there ↦ inl (ground (arith, get-remove disk m k, eq_iff m k))
      | inr moved ↦ inr (ground (arith, get-remove disk m target))
    ];
  }

  pub rename-IsKept :
      (disk : Disk) (m : String) (d : Dir)
      → (m == target) ≡ false
      → marked (get start m) ≡ true
      → get disk m ≡ some d
      → get disk target ≡ none
      → IsKept disk
      → IsKept (put (remove disk m) target d)
  rename-IsKept disk m d n ours e free v = record {
    foreign = λ k a f. ground (
      arith,
      get-put (remove disk m) target k d,
      get-remove disk m k,
      v.foreign k a f,
      eq_iff m k,
      eq_iff target k,
      eq_iff k target,
    );
    stays = λ x q. absurd (ground (arith, v.stays x q));
    data_kept = λ k x q full. elim (v.data_kept k x q full) [
      | inl there ↦ elim (Bool-cases (m == k)) [
        | inl same ↦
            let e' : get disk k ≡ some d =
              subst (λ j. get disk j ≡ some d) (ground (arith, eq_iff m k)) e in
            inr (rw (get-put_here (remove disk m) target d) (ap content (sym e' ∙ there)))
        | inr other ↦ inl (
            ground
              (arith, get-put (remove disk m) target k d, get-remove disk m k, eq_iff target k))
      ]
      | inr moved ↦ absurd (ground arith)
    ];
  }

  pub unmark-IsKept :
      (disk : Disk) (d : Dir) (b : Bool)
      → get start target ≡ none
      → get disk target ≡ some d
      → IsKept disk
      → IsKept (put disk target (record d { ours = b }))
  unmark-IsKept disk d b absent e v = record {
    foreign = λ k a f. ground (
      arith,
      get-put disk target k (record d { ours = b }),
      v.foreign k a f,
      eq_iff target k,
      eq_iff k target,
    );
    stays = λ x q. absurd (ground arith);
    data_kept = λ k x q full. elim (v.data_kept k x q full) [
      | inl there ↦
          inl (ground (arith, get-put disk target k (record d { ours = b }), eq_iff target k))
      | inr moved ↦
          inr (rw (get-put_here disk target (record d { ours = b })) (sym (ap content e) ∙ moved))
    ];
  }
