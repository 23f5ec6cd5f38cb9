-- ===== src/Scheduler/Round/Marks.antt =====
-- The attempt marks and lock retries of the scheduler through each step of a round.
use borgmatic_manager.Prelude.{
  String, ◌≡◌, refl, sym, ap, ◌∙◌, true, not, ◌&&◌, Option, none, some, List, [], ◌∷◌, ◌++◌, arith,
  eq_iff, eq_refl, get_or, is_some, is_empty, contains, if_both, Option-cases, inl, inr,
}
use borgmatic_manager.GoTime.{Time}
use borgmatic_manager.GoMap.{GoMap, IsMap, get, remove, get-remove, put-IsMap, remove-IsMap}
use borgmatic_manager.Models.{VolumeGroup, empty_group}
use borgmatic_manager.State.Store.{Disk, Faults, ScheduleStore}
use mathlib.Core.Bool.{false≢true}
use borgmatic_manager.Scheduler.{Scheduler}
use borgmatic_manager.Scheduler.Round.{
  Plan, Launch, Attempt, Round, Verdict, locked, already_running, run_failed, run_succeeded,
  verdict, restore_attempt, launch_if_due, plan_group, note_success, finish_as, finish_group,
  finish_one, Chosen, planning, retained, choose_group, retain_groups, prune, store_success,
  forget_retry,
}
use borgmatic_manager.Scheduler.Round.Finish.{finish_as-retries, finish_as-attempts}
use borgmatic_manager.Scheduler.Round.Tracked.{
  Covered, only_live-Covered, only_live-IsMap, all_live, all_live-more, all_live-split, is_planning,
  IsTracked, early-IsTracked,
}

restore_attempt-IsMap :
    (g : Launch) (attempts : GoMap Time) → IsMap attempts → IsMap (restore_attempt g attempts)
unfolding restore_attempt
restore_attempt-IsMap g attempts d = elim (Option-cases g.previous) [
  | inl missing ↦ rw missing (remove-IsMap attempts g.group d)
  | inr (t, had) ↦ rw had (put-IsMap attempts g.group t d)
]

pub launch_if_due-IsTracked :
    (p : Plan) (c : Chosen) (r : Round)
    → r.stage ≡ planning
    → contains r.live c.name ≡ true
    → IsTracked r
    → IsTracked (launch_if_due p c r)
unfolding launch_if_due all_live
launch_if_due-IsTracked p c r early here t =
    if_both IsTracked c.is_due _ _
      (early-IsTracked _ early (put-IsMap r.scheduler.last_attempt c.name p.now t.attempts_distinct)
        t.retries_distinct refl (ground (arith, here, t.running_live)) t.noted_live)
      (early-IsTracked _ early t.attempts_distinct
        (remove-IsMap r.scheduler.locked_retry c.name t.retries_distinct) refl t.running_live
        t.noted_live)

choose_group-IsTracked :
    (p : Plan) (name : String) (g : VolumeGroup) (r : Round)
    → r.stage ≡ planning
    → IsTracked r
    → IsTracked (choose_group p name g r)
unfolding choose_group
choose_group-IsTracked p name g r early t =
    early-IsTracked _ early t.attempts_distinct t.retries_distinct (ground (arith, eq_refl name))
      (all_live-more r.live name r.running t.running_live)
      (all_live-more r.live name r.noted t.noted_live)

pub plan_group-IsTracked :
    (p : Plan) (name : String) (r : Round)
    → r.stage ≡ planning
    → IsTracked r
    → IsTracked (plan_group p name r)
unfolding plan_group
plan_group-IsTracked p name r early t =
    let g = get_or empty_group (get p.groups name) in
    if_both IsTracked (is_empty g.volumes && is_empty g.databases) r _ t (
      if_both IsTracked (not (contains p.generated name)) r (choose_group p name g r) t
        (choose_group-IsTracked p name g r early t))

finish_as-keeps_maps :
    (v : Verdict) (p : Plan) (e : Faults) (at : Time) (g : Launch) (s : Scheduler) (d : Disk)
    → IsMap s.last_attempt
    → IsMap s.locked_retry
    → IsMap (finish_as v p e at g s d).0.last_attempt
      × IsMap (finish_as v p e at g s d).0.locked_retry
unfolding finish_as
finish_as-keeps_maps locked p e at g s d a l = (a, put-IsMap s.locked_retry g.group _ l)
finish_as-keeps_maps already_running p e at g s d a l =
    (restore_attempt-IsMap g s.last_attempt a, remove-IsMap s.locked_retry g.group l)
finish_as-keeps_maps run_failed p e at g s d a l = (a, remove-IsMap s.locked_retry g.group l)
finish_as-keeps_maps run_succeeded p e at g s d a l = (a, remove-IsMap s.locked_retry g.group l)

note_success-store :
    (p : Plan) (e : Faults) (g : Launch) (at : Time) (store : Option ScheduleStore) (d : Disk)
    → is_some (note_success p e g at store d).0 ≡ is_some store
unfolding note_success
note_success-store p e g at none d = refl
note_success-store p e g at (some store) d = refl

remove-Covered :
    {V : Type 0} (live : List String) (m : GoMap V) (name : String)
    → Covered live m
    → Covered live (remove m name)
remove-Covered live m name v j h = ground (arith, get-remove m name j, v j)

finish_as-store :
    (v : Verdict) (p : Plan) (e : Faults) (at : Time) (g : Launch) (s : Scheduler) (d : Disk)
    → is_some (finish_as v p e at g s d).0.store ≡ is_some s.store
unfolding finish_as
finish_as-store locked p e at g s d = refl
finish_as-store already_running p e at g s d = refl
finish_as-store run_failed p e at g s d = refl
finish_as-store run_succeeded p e at g s d = note_success-store p e g at s.store d

finish_as-Covered :
    (v : Verdict) (p : Plan) (e : Faults) (at : Time) (g : Launch) (s : Scheduler) (d : Disk)
    (live : List String)
    → contains live g.group ≡ true
    → Covered live s.last_attempt × Covered live s.locked_retry
    → Covered live (finish_as v p e at g s d).0.last_attempt
      × Covered live (finish_as v p e at g s d).0.locked_retry
finish_as-Covered v p e at g s d live here (a, l) = (
  λ j h. ground (arith, eq_iff g.group j, finish_as-attempts p e at g s d v j, a j),
  λ j h. ground (arith, eq_iff g.group j, finish_as-retries p e at g s d v j, l j),
)

pub finish_one-IsTracked :
    (p : Plan) (e : Faults) (a : Attempt) (g : Launch) (early late : List Launch) (r : Round)
    → r.running ≡ early ++ g ∷ late
    → IsTracked r
    → IsTracked (finish_one p e a g (early ++ late) r)
unfolding finish_one finish_group
finish_one-IsTracked p e a g early late r runs t =
    let maps =
      finish_as-keeps_maps (verdict a) p e a.started g r.scheduler r.disk t.attempts_distinct
        t.retries_distinct in
    let (others, here) = all_live-split r.live early late g (rw runs at t.running_live) in
    record {
      attempts_distinct = maps.0;
      retries_distinct = maps.1;
      choice_live = t.choice_live;
      running_live = others;
      noted_live = t.noted_live;
      done = λ q. (
        (t.done q).0,
        (t.done q).1,
        λ c k. finish_as-Covered (verdict a) p e a.started g r.scheduler r.disk r.live here (
            (t.done q).2 c
              (sym (finish_as-store (verdict a) p e a.started g r.scheduler r.disk) ∙ k)),
      );
    }

pub store_success-IsTracked :
    (p : Plan) (e : Faults) (a : Attempt) (g : Launch) (early late : List Launch) (r : Round)
    → r.running ≡ early ++ g ∷ late
    → IsTracked r
    → IsTracked (store_success p e a g (early ++ late) r)
unfolding store_success all_live
store_success-IsTracked p e a g early late r runs t =
    let (others, here) = all_live-split r.live early late g (rw runs at t.running_live) in
    record {
      attempts_distinct = t.attempts_distinct;
      retries_distinct = t.retries_distinct;
      choice_live = t.choice_live;
      running_live = others;
      noted_live = ground (arith, here, t.noted_live);
      done = λ q. (
        (t.done q).0,
        (t.done q).1,
        λ c k.
            (t.done q).2 c (sym (note_success-store p e g a.started r.scheduler.store r.disk) ∙ k),
      );
    }

pub forget_retry-IsTracked :
    (g : Launch) (early late : List Launch) (r : Round)
    → r.noted ≡ early ++ g ∷ late
    → IsTracked r
    → IsTracked (forget_retry g (early ++ late) r)
unfolding forget_retry
forget_retry-IsTracked g early late r ends t =
    let (others, here) = all_live-split r.live early late g (rw ends at t.noted_live) in
    record {
      attempts_distinct = t.attempts_distinct;
      retries_distinct = remove-IsMap r.scheduler.locked_retry g.group t.retries_distinct;
      choice_live = t.choice_live;
      running_live = t.running_live;
      noted_live = others;
      done = λ q. (
        (t.done q).0,
        (t.done q).1,
        λ c k.
            let (attempts, retries) = (t.done q).2 c k in
            (attempts, remove-Covered r.live r.scheduler.locked_retry g.group retries),
      );
    }

pub retain_groups-IsTracked :
    (e : Faults) (cached : List String) (r : Round)
    → r.todo ≡ []
    → r.chosen ≡ none
    → IsTracked r
    → IsTracked (retain_groups e cached r)
unfolding retain_groups
retain_groups-IsTracked e cached r idle free t = elim (Option-cases r.scheduler.store) [
  | inl missing ↦ rw missing (record {
    attempts_distinct = t.attempts_distinct;
    retries_distinct = t.retries_distinct;
    choice_live = t.choice_live;
    running_live = t.running_live;
    noted_live = t.noted_live;
    done = λ q. (idle, free, λ c k. absurd (ground (arith, missing)));
  })
  | inr (store, had) ↦ rw had (record {
    attempts_distinct = t.attempts_distinct;
    retries_distinct = t.retries_distinct;
    choice_live = t.choice_live;
    running_live = t.running_live;
    noted_live = t.noted_live;
    done = λ q. (idle, free, λ c k. absurd (false≢true c));
  })
]

pub prune-IsTracked : (r : Round) → r.stage ≡ retained → IsTracked r → IsTracked (prune r)
unfolding prune
prune-IsTracked r late t = record {
  attempts_distinct = only_live-IsMap r.live r.scheduler.last_attempt t.attempts_distinct;
  retries_distinct = only_live-IsMap r.live r.scheduler.locked_retry t.retries_distinct;
  choice_live = t.choice_live;
  running_live = t.running_live;
  noted_live = t.noted_live;
  done = λ q. (
    (t.done (ap is_planning late)).0,
    (t.done (ap is_planning late)).1,
    λ c k. (
      only_live-Covered r.live r.scheduler.last_attempt t.attempts_distinct,
      only_live-Covered r.live r.scheduler.locked_retry t.retries_distinct,
    ),
  );
}
