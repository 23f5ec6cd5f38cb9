-- ===== src/State/Store/Updates.antt =====
-- What one update does to the file, whatever fails.
use borgmatic_manager.Prelude.{
  String, ◌≡◌, refl, ◌∙◌, Bool, true, false, not, ◌&&◌, ◌||◌, Option, none, some, [], ◌∷◌, arith,
  if◌then◌else◌, get_or, is_empty, bind,
}
use borgmatic_manager.GoMap.{GoMap, IsMap, get, get-update_each}
use borgmatic_manager.State.Outcome.{GroupRecord, PendingRun, ScheduleFile}
use borgmatic_manager.State.Schedule.{Mutation}
use borgmatic_manager.State.Store.{
  Disk, missing, corrupt, saved, Faults, ScheduleStore, empty_file, read_file, stored, encode,
  write_file, commit, proceed, update,
}

-- The file that a reader of the disk finds: the empty one where it is missing or corrupt.
abbrev pub contents : Disk → ScheduleFile
contents missing = empty_file
contents corrupt = empty_file
contents (saved s) = record { groups = get_or [] s.groups; pending = get_or [] s.pending }

abbrev pub is_corrupt : Disk → Bool
is_corrupt corrupt = true
is_corrupt _ = false

-- The update gets to the end of its write.
abbrev pub writes : Faults → Mutation → Disk → Bool
writes e mutate d =
    not e.lock_fails
    && not e.read_fails
    && not e.write_fails
    && ((mutate (contents d)).1 || is_corrupt d)

-- An update changes the file exactly if it has the lock, can read the file, can write it, and has
-- something to write: a change, or a corrupt file to replace. It writes the change of what the
-- file holds then.
pub update-writes :
    (e : Faults) (mutate : Mutation) (s : ScheduleStore) (d : Disk)
    → (update e mutate s d).1
      ≡ (if writes e mutate d then saved (encode (mutate (contents d)).0) else d)
unfolding update proceed commit read_file write_file
update-writes e mutate s missing = ground arith
update-writes e mutate s corrupt = ground arith
update-writes e mutate s (saved f) = ground arith

-- The process's view becomes what it decided to write, also if the write then failed; an update
-- without the lock or the file, or with nothing to write, leaves the view alone.
pub update_views :
    (e : Faults) (mutate : Mutation) (s : ScheduleStore) (d : Disk)
    → (update e mutate s d).0 ≡ (
        if not e.lock_fails && not e.read_fails && ((mutate (contents d)).1 || is_corrupt d)
        then record {
          groups = (mutate (contents d)).0.groups;
          pending = (mutate (contents d)).0.pending;
        }
        else s)
unfolding update proceed commit read_file
update_views e mutate s missing = ground arith
update_views e mutate s corrupt = ground arith
update_views e mutate s (saved f) = ground arith

abbrev pub stored_at : Option GroupRecord → Option GroupRecord
stored_at none = none
stored_at (some rec) = some (stored rec)

stored_at-bind : (o : Option GroupRecord) → bind o (λ rec. some (stored rec)) ≡ stored_at o
stored_at-bind none = refl
stored_at-bind (some rec) = refl

-- What is read back after a write: the records without the fields that are not written.
pub get-contents-encode :
    (f : ScheduleFile) (name : String)
    → IsMap f.groups
    → get (contents (saved (encode f))).groups name ≡ stored_at (get f.groups name)
unfolding encode
get-contents-encode f name m =
    get-update_each (λ j rec. some (stored rec)) f.groups name m
    ∙ stored_at-bind (get f.groups name)

pub pending-contents-encode : (f : ScheduleFile) → (contents (saved (encode f))).pending ≡ f.pending
unfolding encode
pending-contents-encode f = rest f.pending
  where
    rest : (p : GoMap PendingRun) → get_or [] (if is_empty p then none else some p) ≡ p
    rest [] = refl
    rest (x ∷ p) = refl
