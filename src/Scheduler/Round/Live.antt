-- ===== src/Scheduler/Round/Live.antt =====
-- Which groups the scheduler's marks are about, in any order of the steps of a round.
use borgmatic_manager.Prelude.{
  String, ◌≡◌, ◌≢◌, refl, sym, ap, ◌∙◌, Bool, true, false, not, ◌&&◌, ◌||◌, none, some, List, [],
  ◌∷◌, arith, ◌==◌, eq_iff, get_or, is_some, is_empty, contains, if_both, Bool-cases, Option-cases,
  inl, inr,
}
use borgmatic_manager.GoMap.{IsMap, get}
use borgmatic_manager.Models.{empty_group}
use borgmatic_manager.State.Store.{Disk}
use mathlib.Core.Bool.{false≢true}
use borgmatic_manager.Scheduler.{Scheduler}
use borgmatic_manager.Scheduler.Round.{
  Plan, Round, Chosen, RoundStage, planning, retained, pruned, returned, launch_if_due,
  choose_group, plan_group, retain_groups, prune, start_round, finish_one, store_success,
  forget_retry,
}
use borgmatic_manager.Scheduler.Round.Steps.{
  Step, plans, launches, finishes, succeeds, forgets, leaves, retains, prunes, returns, Reached,
  start, step,
}
use borgmatic_manager.Scheduler.Round.Tracked.{
  all_live, IsTracked, is_planning, is_pruned, chosen_live, still_planning, early-IsTracked,
}
use borgmatic_manager.Scheduler.Round.Marks.{
  plan_group-IsTracked, launch_if_due-IsTracked, finish_one-IsTracked, store_success-IsTracked,
  forget_retry-IsTracked, retain_groups-IsTracked, prune-IsTracked,
}

start_round-IsTracked :
    (p : Plan) (s : Scheduler) (d : Disk)
    → IsMap s.last_attempt
    → IsMap s.locked_retry
    → IsTracked (start_round p s d)
unfolding start_round all_live
start_round-IsTracked p s d a l = early-IsTracked _ refl a l refl refl refl

nonempty : {x : String} {xs : List String} → x ∷ xs ≢ []
nonempty = λ e. cc

something : {c : Chosen} → some c ≢ none
something = λ e. cc

Step-IsTracked : {p : Plan} {r r' : Round} → Step p r r' → IsTracked r → IsTracked r'
Step-IsTracked {p} {r} (plans name rest next free) t =
    let early = still_planning r t (λ idle none_chosen. nonempty (sym next ∙ idle)) in
    plan_group-IsTracked p name (record r { todo = rest }) early
      (early-IsTracked (record r { todo = rest }) early t.attempts_distinct t.retries_distinct
        t.choice_live t.running_live t.noted_live)
Step-IsTracked {p} {r} (launches c at) t =
    launch_if_due-IsTracked p c r
      (still_planning r t (λ idle none_chosen. something (sym at ∙ none_chosen)))
      (sym (ap (chosen_live r.live) at) ∙ t.choice_live) t
Step-IsTracked {p} {r} (finishes early late g runs e a fails) t =
    finish_one-IsTracked p e a g early late r runs t
Step-IsTracked {p} {r} (succeeds early late g runs e a works) t =
    store_success-IsTracked p e a g early late r runs t
Step-IsTracked {p} {r} (forgets early late g ends) t = forget_retry-IsTracked g early late r ends t
Step-IsTracked {p} {r} (leaves n left) t = record {
  attempts_distinct = t.attempts_distinct;
  retries_distinct = t.retries_distinct;
  choice_live = t.choice_live;
  running_live = t.running_live;
  noted_live = t.noted_live;
  done = t.done;
}
Step-IsTracked {p} {r} (retains idle free early e cached) t =
    retain_groups-IsTracked e cached r idle free t
Step-IsTracked {p} {r} (prunes late) t = prune-IsTracked r late t
Step-IsTracked {p} {r} (returns late all_done) t =
    let q : is_planning r.stage ≡ false = ap is_planning late in
    record {
      attempts_distinct = t.attempts_distinct;
      retries_distinct = t.retries_distinct;
      choice_live = t.choice_live;
      running_live = t.running_live;
      noted_live = t.noted_live;
      done = λ _. ((t.done q).0, (t.done q).1, λ c k. (t.done q).2 (ap is_pruned late) k);
    }

Reached-IsTracked :
    {p : Plan} {s : Scheduler} {d : Disk} {r : Round}
    → IsMap s.last_attempt
    → IsMap s.locked_retry
    → Reached p s d r
    → IsTracked r
Reached-IsTracked {p} {s} {d} a l start = start_round-IsTracked p s d a l
Reached-IsTracked a l (step reached one) = Step-IsTracked one (Reached-IsTracked a l reached)

-- The cycle has the group with a member, and generated a configuration for it.
abbrev pub wanted : Plan → String → Bool
wanted p name =
    let g = get_or empty_group (get p.groups name) in
    not (is_empty g.volumes && is_empty g.databases) && contains p.generated name

launch_if_due-live : (p : Plan) (c : Chosen) (r : Round) → (launch_if_due p c r).live ≡ r.live
unfolding launch_if_due
launch_if_due-live p c r = if_both (λ (r' : Round). r'.live ≡ r.live) c.is_due _ _ refl refl

plan_group-live :
    (p : Plan) (name : String) (r : Round) (j : String)
    → contains (plan_group p name r).live j ≡ (contains r.live j || (wanted p name && name == j))
unfolding plan_group choose_group
plan_group-live p name r j =
    let g = get_or empty_group (get p.groups name) in
    elim (Bool-cases (is_empty g.volumes && is_empty g.databases)) [
      | inl nothing ↦ rw nothing (ground arith)
      | inr member ↦ rw member (elim (Bool-cases (contains p.generated name)) [
        | inl known ↦ rw known (ground arith)
        | inr refused ↦ rw refused (ground arith)
      ])
    ]

Reached-wanted :
    {p : Plan} {s : Scheduler} {d : Disk} {r : Round}
    → Reached p s d r
    → (j : String) → contains r.live j ≡ true
    → wanted p j ≡ true
unfolding start_round finish_one store_success forget_retry retain_groups prune
Reached-wanted start j h = absurd (false≢true h)
Reached-wanted {p} (step {r} reached (plans name rest next free)) j h = ground (
  arith,
  eq_iff name j,
  Reached-wanted reached j,
  plan_group-live p name (record r { todo = rest }) j,
)
Reached-wanted {p} (step {r} reached (launches c at)) j h =
    Reached-wanted reached j (rw (launch_if_due-live p c r) at h)
Reached-wanted (step reached (finishes early late g runs e a fails)) j h =
    Reached-wanted reached j h
Reached-wanted (step reached (succeeds early late g runs e a works)) j h =
    Reached-wanted reached j h
Reached-wanted (step reached (forgets early late g ends)) j h = Reached-wanted reached j h
Reached-wanted (step reached (leaves n left)) j h = Reached-wanted reached j h
Reached-wanted (step {r} reached (retains idle free early e cached)) j h =
    Reached-wanted reached j (elim (Option-cases r.scheduler.store) [
      | inl missing ↦ rw missing at h
      | inr (store, had) ↦ rw had at h
    ])
Reached-wanted (step reached (prunes late)) j h = Reached-wanted reached j h
Reached-wanted (step reached (returns late all_done)) j h = Reached-wanted reached j h

is_pruned-late : (st : RoundStage) → is_pruned st ≡ true → is_planning st ≡ false
is_pruned-late planning e = cc
is_pruned-late retained e = refl
is_pruned-late pruned e = refl
is_pruned-late returned e = refl

-- In whatever order the loop, the goroutines of the groups and the clean-up take the locks, with a
-- store the scheduler is left, from the clean-up on, with attempt marks and lock retries only of
-- groups that this cycle has with a member and a generated configuration, if it started with maps.
pub marks_wanted :
    (p : Plan) (s : Scheduler) (d : Disk) (r : Round) (j : String)
    → IsMap s.last_attempt
    → IsMap s.locked_retry
    → Reached p s d r
    → is_pruned r.stage ≡ true
    → is_some r.scheduler.store ≡ true
    → (is_some (get r.scheduler.last_attempt j) || is_some (get r.scheduler.locked_retry j)) ≡ true
    → wanted p j ≡ true
marks_wanted p s d r j a l reached cleaned stored marked =
    let t = Reached-IsTracked a l reached in
    let (attempts, retries) = (t.done (is_pruned-late r.stage cleaned)).2 cleaned stored in
    let here : contains r.live j ≡ true = ground (arith, attempts j, retries j) in
    Reached-wanted reached j here
