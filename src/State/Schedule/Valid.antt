-- ===== src/State/Schedule/Valid.antt =====
-- The well-formedness of a schedule file, kept by every change that `ScheduleStore` makes.
use borgmatic_manager.Prelude.{
  String, ◌≤◌, Bool, true, false, not, ◌&&◌, Option, none, some, List, arith, ◌==◌, get_or, length,
  Bool-cases, inl, inr, is_some, bind, contains, if_both,
}
use borgmatic_manager.Prelude.Int.{ℤ, pos, ◌+ℤ◌, ltb_ℤ}
use borgmatic_manager.GoTime.{Time}
use borgmatic_manager.GoMap.{
  IsMap, get, put, get-put, put-IsMap, remove-IsMap, get-update_each, update_each-IsMap,
}
use borgmatic_manager.Config.RepoKey.{Host}
use borgmatic_manager.State.Outcome.{RunOutcome, GroupRecord, ScheduleFile, zero_group_record}
use borgmatic_manager.State.RecordRun.{max_history, record_outcome}
use borgmatic_manager.State.RecordRun.Tracking.{record_repository-IsMap}
use borgmatic_manager.State.RecordRun.Inventory.{reconcile_inventory-IsMap}
use borgmatic_manager.State.RecordRun.History.{push_history_bounded}
use borgmatic_manager.State.Schedule.{
  Mutation, record_pending, clear_pending, succeeded, mark_success, record_run, aged, retain,
}

-- A group's record: repository ids do not repeat, and the history is within its bound.
pub record IsValidGroup (rec : GroupRecord) : Type 0 where
  pub distinct : IsMap rec.repositories
  pub bounded : length rec.history ≤ max_history

abbrev pub IsValidAt : Option GroupRecord → Type 0
IsValidAt none = Unit
IsValidAt (some rec) = IsValidGroup rec

pub record IsValid (f : ScheduleFile) : Type 0 where
  pub groups_distinct : IsMap f.groups
  pub pending_distinct : IsMap f.pending
  pub each : (name : String) → IsValidAt (get f.groups name)

zero-IsValidGroup : IsValidGroup zero_group_record
zero-IsValidGroup = record { distinct = tt; bounded = omega arith }

pub get_or-IsValidGroup :
    (o : Option GroupRecord) → IsValidAt o → IsValidGroup (get_or zero_group_record o)
get_or-IsValidGroup none h = zero-IsValidGroup
get_or-IsValidGroup (some rec) h = h

succeeded-IsValidGroup :
    (fp : String) (t : Time) (rec : GroupRecord)
    → IsValidGroup rec
    → IsValidGroup (succeeded fp t rec)
unfolding succeeded
succeeded-IsValidGroup fp t rec v = record { distinct = v.distinct; bounded = v.bounded }

pub record_outcome-IsValidGroup :
    (h : Host) (o : RunOutcome) (rec : GroupRecord)
    → IsValidGroup rec
    → IsValidGroup (record_outcome h o rec)
unfolding record_outcome
record_outcome-IsValidGroup h o rec v = record {
  distinct =
      reconcile_inventory-IsMap h o _
        (record_repository-IsMap h o.finished rec.repositories o.repositories v.distinct);
  bounded = push_history_bounded o rec.history;
}

aged-IsValidAt :
    (active protected : Bool) (o : Option GroupRecord)
    → IsValidAt o
    → IsValidAt (bind o (aged active protected))
unfolding aged
aged-IsValidAt active protected none v = tt
aged-IsValidAt true protected (some rec) v = record { distinct = v.distinct; bounded = v.bounded }
aged-IsValidAt false protected (some rec) v =
    if_both IsValidAt (not protected && not (ltb_ℤ rec.missing_cycles (pos 2))) none
      (some (record rec { missing_cycles = rec.missing_cycles +ℤ pos 1 })) tt
      (record { distinct = v.distinct; bounded = v.bounded })

put-IsValid :
    (f : ScheduleFile) (name : String) (rec : GroupRecord)
    → IsValid f
    → IsValidGroup rec
    → IsValid (record f { groups = put f.groups name rec })
put-IsValid f name rec v r = record {
  groups_distinct = put-IsMap f.groups name rec v.groups_distinct;
  pending_distinct = v.pending_distinct;
  each = λ j. rw (get-put f.groups name j rec) (if_both IsValidAt (name == j) _ _ r (v.each j));
}

-- The changes that the methods of the store make.
pub data Change (h : Host) : Mutation → Type 0 where
  pending :
      (run_id group : String) (started : Time) (pid : ℤ)
      → Change h (record_pending run_id group started pid)
  cleared : (run_id : String) → Change h (clear_pending run_id)
  success :
      (name fingerprint : String) (started : Time)
      → Change h (mark_success name fingerprint started)
  run : (name : String) (outcome : RunOutcome) → Change h (record_run h name outcome)
  cycle : (active protected : List String) → Change h (retain active protected)

-- Every change that the store makes keeps a well-formed schedule file well formed: ids and run ids
-- do not repeat, and no history passes its bound.
pub Change-IsValid :
    (h : Host) (m : Mutation) → Change h m → (f : ScheduleFile) → IsValid f → IsValid (m f).0
unfolding record_pending clear_pending mark_success record_run retain
Change-IsValid h m (pending run_id group started pid) f v = record {
  groups_distinct = v.groups_distinct;
  pending_distinct = put-IsMap f.pending run_id _ v.pending_distinct;
  each = v.each;
}
Change-IsValid h m (cleared run_id) f v = elim (Bool-cases (is_some (get f.pending run_id))) [
  | inl known ↦ rw known (record {
    groups_distinct = v.groups_distinct;
    pending_distinct = remove-IsMap f.pending run_id v.pending_distinct;
    each = v.each;
  })
  | inr unknown ↦ rw unknown v
]
Change-IsValid h m (success name fingerprint started) f v = put-IsValid f name _ v (
    succeeded-IsValidGroup fingerprint started _
      (get_or-IsValidGroup (get f.groups name) (v.each name)))
Change-IsValid h m (run name outcome) f v = put-IsValid f name _ v (
    record_outcome-IsValidGroup h outcome _ (get_or-IsValidGroup (get f.groups name) (v.each name)))
Change-IsValid h m (cycle active protected) f v = record {
  groups_distinct = update_each-IsMap _ f.groups v.groups_distinct;
  pending_distinct = v.pending_distinct;
  each = λ j.
      rw
        (get-update_each (λ name. aged (contains active name) (contains protected name)) f.groups j
          v.groups_distinct)
        (aged-IsValidAt (contains active j) (contains protected j) (get f.groups j) (v.each j));
}
