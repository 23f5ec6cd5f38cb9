-- ===== src/Scheduler/Round/Waiting.antt =====
-- The wait group of a round counts its goroutines.
use borgmatic_manager.Prelude.{
  String, ◌+◌, ◌≡◌, ◌≢◌, inl, inr, refl, sym, ap, ◌∙◌, false, not, ◌&&◌, none, some, List, [], ◌∷◌,
  arith, get_or, is_empty, contains, length, length-append, if_both, Option-cases,
}
use borgmatic_manager.GoMap.{get}
use borgmatic_manager.Models.{empty_group}
use borgmatic_manager.State.Store.{Disk}
use borgmatic_manager.Scheduler.{Scheduler}
use borgmatic_manager.Scheduler.Round.{
  Plan, Round, Chosen, RoundStage, planning, retained, pruned, returned, launch_if_due,
  choose_group, plan_group, retain_groups, prune, start_round, finish_one, store_success,
  forget_retry,
}
use borgmatic_manager.Scheduler.Round.Steps.{
  Step, plans, launches, finishes, succeeds, forgets, leaves, retains, prunes, returns, Reached,
  start, step,
}
use borgmatic_manager.Scheduler.Round.Tracked.{is_planning}

-- The wait group counts the goroutines that have not called `wg.Done`, and the loop is over before
-- anything that comes after it.
pub record IsCounted (r : Round) : Type 0 where
  pub counted : r.waiting ≡ length r.running + length r.noted + r.leaving
  pub idle : is_planning r.stage ≡ false → (r.todo ≡ []) × (r.chosen ≡ none)
  pub awaited : r.stage ≡ returned → r.waiting ≡ 0

not_planned : {x : String} {xs : List String} → x ∷ xs ≢ []
not_planned = λ e. cc

not_free : {c : Chosen} → some c ≢ none
not_free = λ e. cc

-- A round in its loop.
looping-IsCounted :
    (r : Round)
    → r.stage ≡ planning
    → r.waiting ≡ length r.running + length r.noted + r.leaving
    → IsCounted r
looping-IsCounted r early n = record {
  counted = n;
  idle = λ q. cc (sym q ∙ ap is_planning early);
  awaited = λ q. cc (sym early ∙ q);
}

loops : (r : Round) → IsCounted r → (r.todo ≡ [] → r.chosen ≡ none → ⊥) → r.stage ≡ planning
loops r v busy = at r.stage refl
  where
    late : is_planning r.stage ≡ false → ⊥
    late q = busy (v.idle q).0 (v.idle q).1

    at : (st : RoundStage) → r.stage ≡ st → st ≡ planning
    at planning e = refl
    at retained e = absurd (late (ap is_planning e))
    at pruned e = absurd (late (ap is_planning e))
    at returned e = absurd (late (ap is_planning e))

plan_group-IsCounted :
    (p : Plan) (name : String) (r : Round)
    → r.stage ≡ planning
    → r.waiting ≡ length r.running + length r.noted + r.leaving
    → IsCounted (plan_group p name r)
unfolding plan_group choose_group
plan_group-IsCounted p name r early n =
    let g = get_or empty_group (get p.groups name) in
    if_both IsCounted (is_empty g.volumes && is_empty g.databases) r _ (looping-IsCounted r early n)
      (if_both IsCounted (not (contains p.generated name)) r (choose_group p name g r)
        (looping-IsCounted r early n) (looping-IsCounted _ early n))

Step-IsCounted : {p : Plan} {r r' : Round} → Step p r r' → IsCounted r → IsCounted r'
unfolding launch_if_due finish_one store_success forget_retry retain_groups prune
Step-IsCounted {p} {r} (plans name rest next free) v =
    plan_group-IsCounted p name (record r { todo = rest })
      (loops r v (λ done _. not_planned (sym next ∙ done))) v.counted
Step-IsCounted {p} {r} (launches c at) v =
    let early = loops r v (λ _ free. not_free (sym at ∙ free)) in
    if_both IsCounted c.is_due _ _ (looping-IsCounted _ early (omega (arith, v.counted)))
      (looping-IsCounted _ early v.counted)
Step-IsCounted {p} {r} (finishes early late g runs e a fails) v = record {
  counted =
      omega (
        arith,
        v.counted,
        ap length runs,
        length-append early late,
        length-append early (g ∷ late),
      );
  idle = v.idle;
  awaited = v.awaited;
}
Step-IsCounted {p} {r} (succeeds early late g runs e a works) v = record {
  counted =
      omega (
        arith,
        v.counted,
        ap length runs,
        length-append early late,
        length-append early (g ∷ late),
      );
  idle = v.idle;
  awaited = v.awaited;
}
Step-IsCounted {p} {r} (forgets early late g ends) v = record {
  counted =
      omega (
        arith,
        v.counted,
        ap length ends,
        length-append early late,
        length-append early (g ∷ late),
      );
  idle = v.idle;
  awaited = v.awaited;
}
Step-IsCounted {p} {r} (leaves n left) v = record {
  counted = omega (arith, v.counted, left);
  idle = v.idle;
  awaited = λ q. omega (arith, v.awaited q);
}
Step-IsCounted {p} {r} (retains idle free early e cached) v =
    elim (Option-cases r.scheduler.store) [
      | inl missing ↦
          rw missing (record { counted = v.counted; idle = λ q. (idle, free); awaited = λ q. cc q })
      | inr (store, had) ↦
          rw had (record { counted = v.counted; idle = λ q. (idle, free); awaited = λ q. cc q })
    ]
Step-IsCounted {p} {r} (prunes late) v = record {
  counted = v.counted;
  idle = λ q. v.idle (ap is_planning late);
  awaited = λ q. cc q;
}
Step-IsCounted {p} {r} (returns late all_done) v = record {
  counted = v.counted;
  idle = λ q. v.idle (ap is_planning late);
  awaited = λ q. all_done;
}

pub Reached-IsCounted :
    {p : Plan} {s : Scheduler} {d : Disk} {r : Round} → Reached p s d r → IsCounted r
unfolding start_round
Reached-IsCounted start = looping-IsCounted _ refl refl
Reached-IsCounted (step reached one) = Step-IsCounted one (Reached-IsCounted reached)
