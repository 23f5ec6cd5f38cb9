-- ===== src/Runner/Locks.antt =====
-- `TryRunGroup` of internal/runner/runner.go with internal/runner/lock.go: the locks that a run takes,
-- one at a time, against the runs of the same process and of other processes. A table says which
-- locks are held; a run is the stage it has reached. The hash of the standard library is a parameter.
pub mod Order
pub mod Holding
pub mod Planned
pub mod Exclusion
pub mod Progress
pub mod Ending
use borgmatic_manager.Prelude.{
  ℕ, String, ◌≡◌, refl, Bool, true, false, ◌&&◌, ◌||◌, List, [], ◌∷◌, ◌++◌, map, nat_eq, ltb, ◌==◌,
  if◌then◌else◌,
}
use borgmatic_manager.GoStrings.{plus}
use borgmatic_manager.Scheduler.Fingerprint.{sort_strings}

-- A binary semaphore of one process, or a lock file that all processes share.
pub data Lock : Type 0 where
  semaphore : (process : ℕ) → (key : String) → Lock
  lock_file : (path : String) → Lock

unfoldable pub same : Lock → Lock → Bool
same (semaphore p k) (semaphore q l) = nat_eq p q && k == l
same (lock_file a) (lock_file b) = a == b
same _ _ = false

unfoldable pub holds : List Lock → Lock → Bool
holds [] m = false
holds (l ∷ ls) m = same l m || holds ls m

abbrev pub Table : Type 0
Table = Lock → Bool

abbrev pub put : Table → Lock → Bool → Table
put t l b m = if same l m then b else t m

abbrev pub snapshot_lock_key : String
snapshot_lock_key = "snapshots"

unfoldable pub group_lock_key : String → String
group_lock_key g = plus "group:" g

unfoldable pub repo_lock_key : String → String
repo_lock_key repo = plus "repo:" repo

-- `lockFileName` in its directory; `digest` is the hash, cut to eight bytes and written in hex.
unfoldable pub lock_path : (String → String) → String → String → String
lock_path digest dir key = plus dir (plus "/bm-" (plus (digest key) ".lock"))

-- A call of `TryRunGroup`: the process it is in, the lock directory of its runner, and its arguments.
pub record GroupRun : Type 0 where
  pub process : ℕ
  pub lock_dir : String
  pub group : String
  pub snapshot_hooks : Bool
  pub repos : List String

-- The keys in the order they are taken: snapshots, then the repositories, sorted.
unfoldable pub lock_keys : GroupRun → List String
lock_keys r =
    let repos = map repo_lock_key (sort_strings r.repos) in
    if r.snapshot_hooks then snapshot_lock_key ∷ repos else repos

abbrev pub group_semaphore : GroupRun → Lock
group_semaphore r = semaphore r.process (group_lock_key r.group)

-- The lock files, of the group's key too; an empty directory disables them.
unfoldable pub lock_files : (String → String) → GroupRun → List Lock
lock_files digest r =
    if r.lock_dir == ""
    then []
    else map (λ k. lock_file (lock_path digest r.lock_dir k)) (group_lock_key r.group ∷ lock_keys r)

-- What a run takes after the semaphore of its group.
unfoldable pub lock_plan : (String → String) → GroupRun → List Lock
lock_plan digest r = map (semaphore r.process) (lock_keys r) ++ lock_files digest r

-- What `TryRunGroup` returns: the group is busy, the context ended during a wait, a lock file could
-- not be opened, another process holds one, or the run took place and succeeded or not.
pub data Reply : Type 0 where
  busy cancelled lock_error locked_by_another_process : Reply
  ran : Bool → Reply

-- Where a call stands; the locks it holds are listed with the last one taken first.
pub data Stage : Type 0 where
  arrived : Stage
  acquiring : (todo held : List Lock) → Stage
  running : (held : List Lock) → Stage
  releasing : (held : List Lock) → Reply → Stage
  returned : Reply → Stage

unfoldable pub held : Stage → List Lock
held arrived = []
held (acquiring todo h) = h
held (running h) = h
held (releasing h o) = h
held (returned o) = []

-- What happens to a run when its turn comes: its next statement, or what it waits for.
pub data Signal : Type 0 where
  go context_done open_fails : Signal
  exited : Bool → Signal

-- One lock in turn: a semaphore is waited for until the context ends; a lock file is taken at once,
-- or the run gives up.
unfoldable pub acquire : Signal → Table → Lock → List Lock → List Lock → Table × Stage
acquire context_done t (semaphore p k) todo h = (t, releasing h cancelled)
acquire s t (semaphore p k) todo h =
    if t (semaphore p k)
    then (t, acquiring (semaphore p k ∷ todo) h)
    else (put t (semaphore p k) true, acquiring todo (semaphore p k ∷ h))
acquire open_fails t (lock_file f) todo h = (t, releasing h lock_error)
acquire s t (lock_file f) todo h =
    if t (lock_file f)
    then (t, releasing h locked_by_another_process)
    else (put t (lock_file f) true, acquiring todo (lock_file f ∷ h))

unfoldable pub run_step : (String → String) → GroupRun → Signal → Table → Stage → Table × Stage
run_step digest r s t arrived =
    if t (group_semaphore r)
    then (t, returned busy)
    else (put t (group_semaphore r) true, acquiring (lock_plan digest r) (group_semaphore r ∷ []))
run_step digest r s t (acquiring [] h) = (t, running h)
run_step digest r s t (acquiring (l ∷ todo) h) = acquire s t l todo h
run_step digest r (exited ok) t (running h) = (t, releasing h (ran ok))
run_step digest r s t (running h) = (t, running h)
run_step digest r s t (releasing (l ∷ h) o) = (put t l false, releasing h o)
run_step digest r s t (releasing [] o) = (t, returned o)
run_step digest r s t (returned o) = (t, returned o)

-- `n` calls of `TryRunGroup`, in any processes, with the table of all locks.
pub record System : Type 0 where
  pub taken : Table
  pub at : ℕ → Stage

abbrev pub set_at {ℓ} : {A : Type ℓ} → (ℕ → A) → ℕ → A → ℕ → A
set_at f i a j = if nat_eq i j then a else f j

abbrev pub initial : System
initial = record { taken = λ l. false; at = λ i. arrived }

module _ (digest : String → String) (n : ℕ) (runs : ℕ → GroupRun) where
  abbrev pub placed : System → ℕ → Table × Stage → System
  placed s i moved = record { taken = moved.0; at = set_at s.at i moved.1 }

  unfoldable pub turn : ℕ → Signal → System → System
  turn i sig s = if ltb i n then placed s i (run_step digest (runs i) sig s.taken (s.at i)) else s

  -- The runs take turns in any order, with any signals.
  unfoldable pub play : List (ℕ × Signal) → System → System
  play [] s = s
  play ((i, sig) ∷ turns) s = play turns (turn i sig s)
