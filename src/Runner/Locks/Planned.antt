-- ===== src/Runner/Locks/Planned.antt =====
-- A run of `TryRunGroup` takes the locks of its plan, in order, and all of them before it starts.
use borgmatic_manager.Prelude.{
  ℕ, String, ◌≡◌, refl, true, List, [], ◌∷◌, nat_eq, ltb, if◌then◌else◌, arith, Bool-cases, inl,
  inr, subst,
}
use borgmatic_manager.Runner.Locks.{
  Lock, semaphore, lock_file, Table, put, GroupRun, lock_plan, group_semaphore, Stage, arrived,
  acquiring, running, releasing, returned, Signal, go, context_done, open_fails, exited, acquire,
  run_step, System, turn, play, locked_by_another_process, busy,
}

-- What is held, the first lock taken first, and then the rest.
abbrev pub in_order : List Lock → List Lock → List Lock
in_order [] todo = todo
in_order (l ∷ h) todo = in_order h (l ∷ todo)

abbrev pub IsPlanned : (String → String) → GroupRun → Stage → Type 0
IsPlanned digest r (acquiring todo h) = in_order h todo ≡ group_semaphore r ∷ lock_plan digest r
IsPlanned digest r (running h) = in_order h [] ≡ group_semaphore r ∷ lock_plan digest r
IsPlanned digest r _ = Unit

module _ (digest : String → String) (r : GroupRun) where
  abbrev StaysPlanned : Table × Stage → Type 0
  StaysPlanned moved = IsPlanned digest r moved.1

  claim-IsPlanned :
      (l : Lock) (t : Table) (h : List Lock) (stuck : Stage) (todo : List Lock)
      → IsPlanned digest r stuck
      → IsPlanned digest r (acquiring todo (l ∷ h))
      → StaysPlanned (if t l then (t, stuck) else (put t l true, acquiring todo (l ∷ h)))
  claim-IsPlanned l t h stuck todo p q = elim (Bool-cases (t l)) [
    | inl taken ↦ rw taken p
    | inr free ↦ rw free q
  ]

  acquire-IsPlanned :
      (s : Signal) (t : Table) (l : Lock) (todo h : List Lock)
      → IsPlanned digest r (acquiring (l ∷ todo) h)
      → StaysPlanned (acquire s t l todo h)
  unfolding acquire
  acquire-IsPlanned context_done t (semaphore p k) todo h e = tt
  acquire-IsPlanned go t (semaphore p k) todo h e =
      claim-IsPlanned (semaphore p k) t h (acquiring (semaphore p k ∷ todo) h) todo e e
  acquire-IsPlanned open_fails t (semaphore p k) todo h e =
      claim-IsPlanned (semaphore p k) t h (acquiring (semaphore p k ∷ todo) h) todo e e
  acquire-IsPlanned (exited ok) t (semaphore p k) todo h e =
      claim-IsPlanned (semaphore p k) t h (acquiring (semaphore p k ∷ todo) h) todo e e
  acquire-IsPlanned open_fails t (lock_file f) todo h e = tt
  acquire-IsPlanned go t (lock_file f) todo h e =
      claim-IsPlanned (lock_file f) t h (releasing h locked_by_another_process) todo tt e
  acquire-IsPlanned context_done t (lock_file f) todo h e =
      claim-IsPlanned (lock_file f) t h (releasing h locked_by_another_process) todo tt e
  acquire-IsPlanned (exited ok) t (lock_file f) todo h e =
      claim-IsPlanned (lock_file f) t h (releasing h locked_by_another_process) todo tt e

  run_step-IsPlanned :
      (s : Signal) (t : Table) (g : Stage)
      → IsPlanned digest r g
      → StaysPlanned (run_step digest r s t g)
  unfolding run_step
  run_step-IsPlanned s t arrived e =
      claim-IsPlanned (group_semaphore r) t [] (returned busy) (lock_plan digest r) tt refl
  run_step-IsPlanned s t (acquiring [] h) e = e
  run_step-IsPlanned s t (acquiring (l ∷ todo) h) e = acquire-IsPlanned s t l todo h e
  run_step-IsPlanned (exited ok) t (running h) e = tt
  run_step-IsPlanned go t (running h) e = e
  run_step-IsPlanned context_done t (running h) e = e
  run_step-IsPlanned open_fails t (running h) e = e
  run_step-IsPlanned s t (releasing (l ∷ h) o) e = tt
  run_step-IsPlanned s t (releasing [] o) e = tt
  run_step-IsPlanned s t (returned o) e = tt

module _ (digest : String → String) (n : ℕ) (runs : ℕ → GroupRun) where
  abbrev pub FollowsPlans : System → Type 0
  FollowsPlans s = (i : ℕ) → IsPlanned digest (runs i) (s.at i)

  FollowsPlans-turn :
      (s : System) (i : ℕ) (sig : Signal)
      → FollowsPlans s
      → FollowsPlans (turn digest n runs i sig s)
  unfolding turn
  FollowsPlans-turn s i sig v = elim (Bool-cases (ltb i n)) [
    | inl below ↦ rw below (λ j. elim (Bool-cases (nat_eq i j)) [
      | inl here ↦ rw here (
          subst (λ k. IsPlanned digest (runs k) (run_step digest (runs i) sig s.taken (s.at i)).1)
            (ground arith) (run_step-IsPlanned digest (runs i) sig s.taken (s.at i) (v i)))
      | inr other ↦ rw other (v j)
    ])
    | inr beyond ↦ rw beyond v
  ]

  pub FollowsPlans-play :
      (turns : List (ℕ × Signal)) (s : System)
      → FollowsPlans s
      → FollowsPlans (play digest n runs turns s)
  unfolding play
  FollowsPlans-play [] s v = v
  FollowsPlans-play ((i, sig) ∷ turns) s v =
      FollowsPlans-play turns (turn digest n runs i sig s) (FollowsPlans-turn s i sig v)
