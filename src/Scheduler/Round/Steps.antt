-- ===== src/Scheduler/Round/Steps.antt =====
-- The steps of a round, in any order that the locks and the wait group allow.
use borgmatic_manager.Prelude.{
  ℕ, suc, ◌-◌, String, ◌≡◌, true, false, none, some, List, [], ◌∷◌, ◌++◌,
}
use borgmatic_manager.State.Store.{Disk, Faults}
use borgmatic_manager.Scheduler.{Scheduler}
use borgmatic_manager.Scheduler.Round.{
  Plan, Launch, Attempt, Round, Chosen, planning, retained, pruned, returned, verdict, is_success,
  launch_if_due, plan_group, retain_groups, prune, start_round, finish_one, store_success,
  forget_retry,
}

pub data Step (p : Plan) (r : Round) : Round → Type 0 where
  plans :
      (name : String) (rest : List String)
      → r.todo ≡ name ∷ rest
      → r.chosen ≡ none
      → Step p r (plan_group p name (record r { todo = rest }))
  launches : (c : Chosen) → r.chosen ≡ some c → Step p r (launch_if_due p c r)
  finishes :
      (early late : List Launch) (g : Launch)
      → r.running ≡ early ++ g ∷ late
      → (e : Faults) (a : Attempt) → is_success (verdict a) ≡ false
      → Step p r (finish_one p e a g (early ++ late) r)
  succeeds :
      (early late : List Launch) (g : Launch)
      → r.running ≡ early ++ g ∷ late
      → (e : Faults) (a : Attempt) → is_success (verdict a) ≡ true
      → Step p r (store_success p e a g (early ++ late) r)
  forgets :
      (early late : List Launch) (g : Launch)
      → r.noted ≡ early ++ g ∷ late
      → Step p r (forget_retry g (early ++ late) r)
  -- `wg.Done`.
  leaves :
      (n : ℕ) → r.leaving ≡ suc n → Step p r (record r { leaving = n; waiting = r.waiting - 1 })
  retains :
      r.todo ≡ []
      → r.chosen ≡ none
      → r.stage ≡ planning
      → (e : Faults) (cached : List String) → Step p r (retain_groups e cached r)
  prunes : r.stage ≡ retained → Step p r (prune r)
  -- `wg.Wait`.
  returns : r.stage ≡ pruned → r.waiting ≡ 0 → Step p r (record r { stage = returned })

-- The rounds that a cycle can come to from its start.
pub data Reached (p : Plan) (s : Scheduler) (d : Disk) : Round → Type 0 where
  start : Reached p s d (start_round p s d)
  step : {r r' : Round} → Reached p s d r → Step p r r' → Reached p s d r'
