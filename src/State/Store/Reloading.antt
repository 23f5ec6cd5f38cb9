-- ===== src/State/Store/Reloading.antt =====
-- What `Reload` of internal/state/schedule.go finds after an update of another process.
use borgmatic_manager.Prelude.{String, ◌≡◌, true, false, arith}
use borgmatic_manager.Config.RepoKey.{Host}
use borgmatic_manager.State.Schedule.{Mutation}
use borgmatic_manager.State.Schedule.Valid.{IsValid, Change, Change-IsValid}
use borgmatic_manager.State.Store.{
  Disk, missing, corrupt, saved, Faults, ScheduleStore, read_file, encode, write_file, commit,
  proceed, update, reload, record_of,
}
use borgmatic_manager.State.Store.Updates.{
  contents, writes, stored_at, get-contents-encode, pending-contents-encode,
}

-- The view and the file after an update that writes.
update-written :
    (e : Faults) (m : Mutation) (s : ScheduleStore) (d : Disk)
    → writes e m d ≡ true
    → update e m s d ≡ (
      record { groups = (m (contents d)).0.groups; pending = (m (contents d)).0.pending },
      saved (encode (m (contents d)).0),
    )
unfolding update proceed commit read_file write_file
update-written e m s missing w = ground arith
update-written e m s corrupt w = ground arith
update-written e m s (saved f) w = ground arith

-- A process that reloads the file after an update that had its lock, its read, its write and
-- something to write finds every group's record as the process that made the update sees it, less
-- the fields that the file leaves out, and the same pending runs. The file was well formed.
pub reload-update :
    (h : Host) (e : Faults) (m : Mutation) (s : ScheduleStore) (d : Disk) (name : String)
    → Change h m
    → IsValid (contents d)
    → writes e m d ≡ true
    → (record_of (reload false (update e m s d).1) name
        ≡ stored_at (record_of (update e m s d).0 name))
      × ((reload false (update e m s d).1).pending ≡ (update e m s d).0.pending)
unfolding reload record_of read_file
reload-update h e m s d name c v w = rw (update-written e m s d w) (
  get-contents-encode (m (contents d)).0 name (Change-IsValid h m c (contents d) v).groups_distinct,
  pending-contents-encode (m (contents d)).0,
)
