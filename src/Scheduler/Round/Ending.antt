-- ===== src/Scheduler/Round/Ending.antt =====
-- A round waits for its goroutines, and comes to an end.
use borgmatic_manager.Prelude.{
  String, ℕ, zero, suc, ◌+◌, ◌*◌, ◌<◌, ◌≤◌, ◌≡◌, ◌⊎◌, inl, inr, refl, ap, not, ◌&&◌, Option, none,
  some, List, [], ◌∷◌, arith, get_or, is_empty, contains, length, length-append, if_both,
  Bool-cases, Option-cases,
}
use borgmatic_manager.GoMap.{get}
use borgmatic_manager.Models.{empty_group}
use borgmatic_manager.State.Store.{Disk, Faults}
use borgmatic_manager.Scheduler.{Scheduler}
use borgmatic_manager.Scheduler.Round.{
  Plan, Launch, Attempt, Round, Chosen, RoundStage, planning, retained, pruned, returned, verdict,
  is_success, launch_if_due, choose_group, plan_group, retain_groups, prune, finish_one,
  store_success, forget_retry,
}
use borgmatic_manager.Scheduler.Round.Steps.{
  Step, plans, launches, finishes, succeeds, forgets, leaves, retains, prunes, returns, Reached,
}
use borgmatic_manager.Scheduler.Round.Tracked.{is_planning}
use borgmatic_manager.Scheduler.Round.Waiting.{IsCounted, Reached-IsCounted}

-- The steps that the function itself and a chosen group have before them.
abbrev stages_left : RoundStage → ℕ
stages_left planning = 3
stages_left retained = 2
stages_left pruned = 1
stages_left returned = 0

abbrev chosen_left : Option Chosen → ℕ
chosen_left none = 0
chosen_left (some c) = 4

-- The steps that are left at most.
abbrev pub remaining : Round → ℕ
remaining r =
    5 * length r.todo
    + chosen_left r.chosen
    + 3 * length r.running
    + 2 * length r.noted
    + r.leaving
    + stages_left r.stage

plan_group-remaining :
    (p : Plan) (name : String) (r : Round)
    → r.chosen ≡ none
    → remaining (plan_group p name r) ≤ remaining r + 4
unfolding plan_group choose_group
plan_group-remaining p name r free =
    let g = get_or empty_group (get p.groups name) in
    let Less : Round → Type 0 = λ r'. remaining r' ≤ remaining r + 4 in
    if_both Less (is_empty g.volumes && is_empty g.databases) r _ (omega arith) (
      if_both Less (not (contains p.generated name)) r (choose_group p name g r) (omega arith)
        (rw free (omega arith)))

Step-remaining : {p : Plan} {r r' : Round} → Step p r r' → remaining r' < remaining r
unfolding launch_if_due finish_one store_success forget_retry retain_groups prune
Step-remaining {p} {r} (plans name rest next free) =
    rw next (omega (arith, plan_group-remaining p name (record r { todo = rest }) free))
Step-remaining {p} {r} (launches c at) =
    if_both (λ (r' : Round). remaining r' < remaining r) c.is_due _ _ (rw at (omega arith))
      (rw at (omega arith))
Step-remaining {p} {r} (finishes early late g runs e a fails) =
    rw runs (omega (arith, length-append early late, length-append early (g ∷ late)))
Step-remaining {p} {r} (succeeds early late g runs e a works) =
    rw runs (omega (arith, length-append early late, length-append early (g ∷ late)))
Step-remaining {p} {r} (forgets early late g ends) =
    rw ends (omega (arith, length-append early late, length-append early (g ∷ late)))
Step-remaining {p} {r} (leaves n left) = rw left (omega arith)
Step-remaining {p} {r} (retains idle free early e cached) = elim (Option-cases r.scheduler.store) [
  | inl missing ↦ rw (missing, early) (omega arith)
  | inr (store, had) ↦ rw (had, early) (omega arith)
]
Step-remaining {p} {r} (prunes late) = rw late (omega arith)
Step-remaining {p} {r} (returns late all_done) = rw late (omega arith)

-- A round that has not returned can take a step, whatever the run of a group returns.
goes_on :
    (p : Plan) (r : Round) (e : Faults) (a : Attempt)
    → IsCounted r
    → (r.stage ≡ returned) ⊎ ((r' : Round) × Step p r r')
goes_on p r e a v = by_choice r.chosen refl r.todo refl r.running refl r.noted refl r.leaving refl
  where
    by_stage :
        r.chosen ≡ none
        → r.todo ≡ []
        → r.waiting ≡ 0
        → (st : RoundStage) → r.stage ≡ st
        → (r.stage ≡ returned) ⊎ ((r' : Round) × Step p r r')
    by_stage c t w planning q = inr (_, retains t c q e [])
    by_stage c t w retained q = inr (_, prunes q)
    by_stage c t w pruned q = inr (_, returns q w)
    by_stage c t w returned q = inl q

    by_choice :
        (chosen : Option Chosen)
        → r.chosen ≡ chosen
        → (todo : List String) → r.todo ≡ todo
        → (running : List Launch) → r.running ≡ running
        → (stored : List Launch) → r.noted ≡ stored
        → (leaving : ℕ) → r.leaving ≡ leaving
        → (r.stage ≡ returned) ⊎ ((r' : Round) × Step p r r')
    by_choice (some c) at todo t running u stored o leaving l = inr (_, launches c at)
    by_choice none free (name ∷ rest) t running u stored o leaving l =
        inr (_, plans name rest t free)
    by_choice none free [] t (g ∷ late) u stored o leaving l =
        elim (Bool-cases (is_success (verdict a))) [
          | inl works ↦ inr (_, succeeds [] late g u e a works)
          | inr fails ↦ inr (_, finishes [] late g u e a fails)
        ]
    by_choice none free [] t [] u (g ∷ late) o leaving l = inr (_, forgets [] late g o)
    by_choice none free [] t [] u [] o (suc n) l = inr (_, leaves n l)
    by_choice none free [] t [] u [] o zero l =
        by_stage free t (omega (arith, v.counted, ap length u, ap length o, l)) r.stage refl

length-none : {A : Type 0} (xs : List A) → length xs ≡ 0 → xs ≡ []
length-none [] e = refl
length-none (x ∷ xs) e = absurd (omega (arith, e))

-- `RunAllGroups` returns: from every state that it comes to, each step leaves fewer steps to do,
-- and until it has returned one of its steps can be taken, if the runs of the groups return. And it
-- waits: once it has returned, it has been at every group, and no goroutine has anything left to do.
pub round_returns :
    (p : Plan) (s : Scheduler) (d : Disk) (r : Round) (e : Faults) (a : Attempt)
    → Reached p s d r
    → ((r' : Round) → Step p r r' → remaining r' < remaining r)
      × ((r.stage ≡ returned) ⊎ ((r' : Round) × Step p r r'))
      × (r.stage ≡ returned
          → (r.todo ≡ []) × (r.chosen ≡ none) × (r.running ≡ []) × (r.noted ≡ []) × (r.leaving ≡ 0))
round_returns p s d r e a reached =
    let v = Reached-IsCounted reached in
    (
      (λ r' one. Step-remaining one),
      goes_on p r e a v,
      λ q.
          let done = v.idle (ap is_planning q) in
          let zero_left = v.awaited q in
          (
            done.0,
            done.1,
            length-none r.running (omega (arith, v.counted, zero_left)),
            length-none r.noted (omega (arith, v.counted, zero_left)),
            omega (arith, v.counted, zero_left),
          ),
    )
