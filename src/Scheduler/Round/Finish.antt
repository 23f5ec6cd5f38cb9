-- ===== src/Scheduler/Round/Finish.antt =====
-- What the end of one group's run leaves behind for the next wake.
use borgmatic_manager.Prelude.{
  String, ◌≡◌, refl, Bool, true, false, ◌&&◌, none, some, ◌==◌, eq_refl, if◌then◌else◌,
  Option-cases, inl, inr,
}
use borgmatic_manager.GoTime.{Time, add, sub}
use borgmatic_manager.GoMap.{GoMap, get, get-put, get-remove}
use borgmatic_manager.State.Store.{Disk, Faults, ScheduleStore}
use borgmatic_manager.Scheduler.{Scheduler, lock_retry_interval, not_positive, next_wake}
use borgmatic_manager.Scheduler.Wake.{NoLater, next_wake_locked}
use borgmatic_manager.Scheduler.Round.{
  Plan, Launch, Attempt, Verdict, locked, already_running, run_failed, run_succeeded, verdict,
  restore_attempt, finish_as, finish_group,
}

abbrev pub is_locked : Verdict → Bool
is_locked locked = true
is_locked _ = false

abbrev pub is_skip : Verdict → Bool
is_skip already_running = true
is_skip _ = false

get-restore_attempt :
    (g : Launch) (attempts : GoMap Time) (j : String)
    → get (restore_attempt g attempts) j ≡ (if g.group == j then g.previous else get attempts j)
unfolding restore_attempt
get-restore_attempt g attempts j = elim (Option-cases g.previous) [
  | inl missing ↦ rw missing (get-remove attempts g.group j)
  | inr (t, had) ↦ rw had (get-put attempts g.group j t)
]

module _ (p : Plan) (e : Faults) (started : Time) (g : Launch) (s : Scheduler) (d : Disk) where
  pub finish_as-retries :
      (v : Verdict) (j : String)
      → get (finish_as v p e started g s d).0.locked_retry j ≡ (
          if g.group == j
          then (if is_locked v then some (add p.now lock_retry_interval) else none)
          else get s.locked_retry j)
  unfolding finish_as
  finish_as-retries locked j = get-put s.locked_retry g.group j (add p.now lock_retry_interval)
  finish_as-retries already_running j = get-remove s.locked_retry g.group j
  finish_as-retries run_failed j = get-remove s.locked_retry g.group j
  finish_as-retries run_succeeded j = get-remove s.locked_retry g.group j

  pub finish_as-attempts :
      (v : Verdict) (j : String)
      → get (finish_as v p e started g s d).0.last_attempt j
        ≡ (if is_skip v && g.group == j then g.previous else get s.last_attempt j)
  unfolding finish_as
  finish_as-attempts locked j = refl
  finish_as-attempts already_running j = get-restore_attempt g s.last_attempt j
  finish_as-attempts run_failed j = refl
  finish_as-attempts run_succeeded j = refl

module _ (p : Plan) (e : Faults) (a : Attempt) (g : Launch) (s : Scheduler) (d : Disk) where
  -- When the goroutine of a group ends, the group has a retry exactly if another process had it
  -- locked, one lock interval after the cycle's time; its attempt mark is what it was before the
  -- cycle if the group was already running here, and stays otherwise. Other groups keep both.
  pub finish_group_marks :
      (j : String)
      → (get (finish_group p e a g s d).0.locked_retry j ≡ (
          if g.group == j
          then (if is_locked (verdict a) then some (add p.now lock_retry_interval) else none)
          else get s.locked_retry j))
        × (get (finish_group p e a g s d).0.last_attempt j
            ≡ (if is_skip (verdict a) && g.group == j then g.previous else get s.last_attempt j))
  unfolding finish_group
  finish_group_marks j = (
    finish_as-retries p e a.started g s d (verdict a) j,
    finish_as-attempts p e a.started g s d (verdict a) j,
  )

  -- After the goroutine of a group ends with the group locked by another process, a scheduler with
  -- a store and a positive period wakes no later than one lock interval after the cycle's time,
  -- unless the sleep is the floor.
  pub locked_group_retried :
      (later : Time) (store : ScheduleStore)
      → is_locked (verdict a) ≡ true
      → s.store ≡ some store
      → not_positive s.period ≡ false
      → NoLater
          (next_wake (finish_group p e a g s d).0 later)
          (sub (add p.now lock_retry_interval) later)
  unfolding finish_group finish_as
  locked_group_retried later store l known timed = go (verdict a) l
    where
      go :
          (v : Verdict)
          → is_locked v ≡ true
          → NoLater
              (next_wake (finish_as v p e a.started g s d).0 later)
              (sub (add p.now lock_retry_interval) later)
      go locked l =
          next_wake_locked (finish_as locked p e a.started g s d).0 later store known timed g.group
            (add p.now lock_retry_interval)
            (rw (get-put s.locked_retry g.group g.group (add p.now lock_retry_interval))
              (rw (eq_refl g.group) refl))
      go already_running l = cc
      go run_failed l = cc
      go run_succeeded l = cc
