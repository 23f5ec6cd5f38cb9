-- ===== src/State/Store/Survival.antt =====
-- Processes that share the schedule file, under any interleaving of their updates.
use borgmatic_manager.Prelude.{
  String, ◌≡◌, refl, Bool, true, false, ◌||◌, Option, none, some, List, [], ◌∷◌, arith, ◌==◌,
  eq_iff, eq_refl, get_or, Bool-cases, inl, inr, bind, contains, length, if_both, is_some,
}
use borgmatic_manager.Prelude.Int.{ℤ, pos, ltb_ℤ}
use borgmatic_manager.GoTime.{Time}
use borgmatic_manager.GoMap.{IsMap, get, get-put, update_each-IsMap}
use borgmatic_manager.Config.RepoKey.{Host}
use borgmatic_manager.State.Outcome.{RunOutcome, GroupRecord, ScheduleFile, zero_group_record}
use borgmatic_manager.State.RecordRun.{record_outcome}
use borgmatic_manager.State.Schedule.{
  Mutation, record_pending, clear_pending, succeeded, mark_success, record_run, aged,
}
use borgmatic_manager.State.Schedule.Valid.{
  IsValidAt, IsValid, Change, pending, cleared, success, run, cycle, Change-IsValid,
}
use borgmatic_manager.State.Schedule.Retention.{get-retain}
use borgmatic_manager.State.Store.{
  Disk, saved, Faults, ScheduleStore, stored, stored_history, encode, update,
}
use borgmatic_manager.State.Store.Updates.{
  contents, writes, stored_at, update-writes, get-contents-encode, pending-contents-encode,
}

length-stored_history : (l : List RunOutcome) → length (stored_history l) ≡ length l
unfolding stored_history
length-stored_history [] = refl
length-stored_history (o ∷ os) = omega (arith, length-stored_history os)

stored-IsValidAt : (o : Option GroupRecord) → IsValidAt o → IsValidAt (stored_at o)
unfolding stored
stored-IsValidAt none v = tt
stored-IsValidAt (some rec) v = record {
  distinct = v.distinct;
  bounded = omega (arith, length-stored_history rec.history);
}

encode-IsValid : (f : ScheduleFile) → IsValid f → IsValid (contents (saved (encode f)))
unfolding encode
encode-IsValid f v = record {
  groups_distinct = update_each-IsMap _ f.groups v.groups_distinct;
  pending_distinct = rw (pending-contents-encode f) v.pending_distinct;
  each =
      λ name. rw (get-contents-encode f name v.groups_distinct) (stored-IsValidAt _ (v.each name));
}

-- Whatever fails, a well-formed schedule file is well formed after any update of the store.
pub update-IsValid :
    (h : Host) (e : Faults) (m : Mutation) (s : ScheduleStore) (d : Disk)
    → Change h m
    → IsValid (contents d)
    → IsValid (contents (update e m s d).1)
update-IsValid h e m s d c v = rw (update-writes e m s d) (
    if_both (λ x. IsValid (contents x)) (writes e m d) (saved (encode (m (contents d)).0)) d
      (encode-IsValid (m (contents d)).0 (Change-IsValid h m c (contents d) v)) v)

-- The group's record says that its last success started then, with that content set.
abbrev pub Anchored : Time → String → Option GroupRecord → Type 0
Anchored started fingerprint none = ⊥
Anchored started fingerprint (some rec) =
    (rec.last_success ≡ started) × (rec.fingerprint ≡ fingerprint)

-- The cycles in a row that the group has missed.
abbrev pub missed : Option GroupRecord → ℤ
missed none = pos 0
missed (some rec) = rec.missing_cycles

-- The change does not itself move the group's anchor: it is no success of the group, and no cycle
-- without the group, present or cached, when the file says that it has missed two already.
abbrev pub Spares : String → ScheduleFile → {h : Host} {m : Mutation} → Change h m → Type 0
Spares name f (pending run_id group started pid) = Unit
Spares name f (cleared run_id) = Unit
Spares name f (success other fingerprint started) = (other == name) ≡ false
Spares name f (run other outcome) = Unit
Spares name f (cycle active protected) =
    (contains active name || contains protected name || ltb_ℤ (missed (get f.groups name)) (pos 2))
    ≡ true

module _ (started : Time) (fingerprint : String) where
  abbrev Anchors : Option GroupRecord → Type 0
  Anchors = Anchored started fingerprint

  record_outcome-Anchors :
      (h : Host) (outcome : RunOutcome) (o : Option GroupRecord)
      → Anchors o
      → Anchors (some (record_outcome h outcome (get_or zero_group_record o)))
  unfolding record_outcome
  record_outcome-Anchors h outcome none a = absurd a
  record_outcome-Anchors h outcome (some rec) a = a

  aged-Anchors :
      (active protected : Bool) (o : Option GroupRecord)
      → (active || protected || ltb_ℤ (missed o) (pos 2)) ≡ true
      → Anchors o
      → Anchors (bind o (aged active protected))
  unfolding aged
  aged-Anchors active protected none k a = absurd a
  aged-Anchors true protected (some rec) k a = a
  aged-Anchors false true (some rec) k a = a
  aged-Anchors false false (some rec) k a = rw k a

  stored-Anchors : (o : Option GroupRecord) → Anchors o → Anchors (stored_at o)
  unfolding stored
  stored-Anchors none a = a
  stored-Anchors (some rec) a = a

  module _ (h : Host) (name : String) where
    spared :
        (m : Mutation) (c : Change h m) (f : ScheduleFile)
        → Spares name f c
        → IsMap f.groups
        → Anchors (get f.groups name)
        → Anchors (get (m f).0.groups name)
    unfolding record_pending clear_pending mark_success record_run
    spared m (pending run_id group at pid) f _ d a = a
    spared m (cleared run_id) f _ d a = elim (Bool-cases (is_some (get f.pending run_id))) [
      | inl known ↦ rw known a
      | inr unknown ↦ rw unknown a
    ]
    spared m (success other fp at) f o d a = rw get-put (rw o a)
    spared m (run other outcome) f _ d a = rw get-put (elim (Bool-cases (other == name)) [
      | inl same ↦
          rw same (
            rw ((eq_iff other name).0 same)
              (record_outcome-Anchors h outcome (get f.groups name) a))
      | inr different ↦ rw different a
    ])
    spared m (cycle active protected) f o d a =
        rw (get-retain active protected f name d)
          (aged-Anchors (contains active name) (contains protected name) (get f.groups name) o a)

abbrev pub no_faults : Faults
no_faults = record { lock_fails = false; read_fails = false; write_fails = false }

-- What the file can become by updates of any processes, each from any view and with any faults,
-- that spare the group.
pub data Reaches (h : Host) (name : String) (d : Disk) : Disk → Type 0 where
  here : Reaches h name d d
  next :
      {d' : Disk}
      → Reaches h name d d'
      → (e : Faults) (m : Mutation) (s : ScheduleStore) (c : Change h m)
      → Spares name (contents d') c
      → Reaches h name d (update e m s d').1

module _ (h : Host) (name fingerprint : String) (started : Time) where
  abbrev Holds : Disk → Type 0
  Holds d = IsValid (contents d) × Anchored started fingerprint (get (contents d).groups name)

  update-Holds :
      (e : Faults) (m : Mutation) (s : ScheduleStore) (d : Disk) (c : Change h m)
      → Spares name (contents d) c
      → Holds d
      → Holds (update e m s d).1
  update-Holds e m s d c o k = rw (update-writes e m s d) (
      if_both Holds (writes e m d) (saved (encode (m (contents d)).0)) d
        (
          encode-IsValid (m (contents d)).0 changed,
          rw (get-contents-encode (m (contents d)).0 name changed.groups_distinct) (
              stored-Anchors started fingerprint (get (m (contents d)).0.groups name)
                (spared started fingerprint h name m c (contents d) o k.0.groups_distinct k.1)),
        )
        k)
    where
      changed : IsValid (m (contents d)).0
      changed = Change-IsValid h m c (contents d) k.0

  Reaches-Holds : {d d' : Disk} → Holds d → Reaches h name d d' → Holds d'
  Reaches-Holds k here = k
  Reaches-Holds k (next {d' = mid} r e m s c o) = update-Holds e m s mid c o (Reaches-Holds k r)

  mark_success-Holds :
      (s : ScheduleStore) (d : Disk)
      → IsValid (contents d)
      → Holds (update no_faults (mark_success name fingerprint started) s d).1
  unfolding mark_success succeeded stored
  mark_success-Holds s d v =
      let m = mark_success name fingerprint started in
      let changed = Change-IsValid h m (success name fingerprint started) (contents d) v in
      rw (update-writes no_faults m s d) (
        encode-IsValid (m (contents d)).0 changed,
        rw (get-contents-encode (m (contents d)).0 name changed.groups_distinct)
            (rw get-put (rw (eq_refl name) (refl, refl))),
      )

  -- A success that one process recorded in a well-formed file is what every later reader finds,
  -- whatever updates any process makes after it, stale views and faults included, unless one of
  -- them records another success of the group, or is a cycle in which the group is neither present
  -- nor cached when it has missed two cycles already.
  pub success_survives :
      (s : ScheduleStore) (d d' : Disk)
      → IsValid (contents d)
      → Reaches h name (update no_faults (mark_success name fingerprint started) s d).1 d'
      → Anchored started fingerprint (get (contents d').groups name)
  success_survives s d d' v r = (Reaches-Holds (mark_success-Holds s d v) r).1
