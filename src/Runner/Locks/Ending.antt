-- ===== src/Runner/Locks/Ending.antt =====
-- From every state of the runs of `TryRunGroup`, all can return, and then no lock is held.
use borgmatic_manager.Prelude.{
  ℕ, zero, suc, ◌+◌, ◌*◌, ◌<◌, String, ◌≡◌, refl, true, false, List, [], ◌∷◌, ◌++◌, nat_eq, ltb,
  if◌then◌else◌, arith, Bool-cases, inl, inr, length, AllDifferent,
}
use borgmatic_manager.Runner.Locks.{
  Lock, semaphore, lock_file, holds, Table, put, GroupRun, lock_plan, group_semaphore, Stage,
  arrived, acquiring, running, releasing, returned, held, Signal, go, exited, acquire, run_step,
  System, set_at, initial, turn, play, busy, locked_by_another_process,
}
use borgmatic_manager.Runner.Locks.Holding.{HasOwners, HasOwners-play, HasOwners-turn}
use borgmatic_manager.Runner.Locks.Planned.{FollowsPlans, FollowsPlans-play}
use borgmatic_manager.Runner.Locks.Progress.{waits_for, has_returned, can_move, some_run_moves}

total : ℕ → (ℕ → ℕ) → ℕ
total zero w = 0
total (suc n) w = total n w + w n

total_eq : (n : ℕ) (v w : ℕ → ℕ) → ((j : ℕ) → j < n → v j ≡ w j) → total n v ≡ total n w
unfolding total
total_eq zero v w e = refl
total_eq (suc n) v w e =
    omega (arith, total_eq n v w (λ j lt. e j (omega arith)), e n (omega arith))

total_lt :
    (n : ℕ) (v w : ℕ → ℕ) (i : ℕ)
    → i < n
    → v i < w i
    → ((j : ℕ) → nat_eq i j ≡ false → v j ≡ w j)
    → total n v < total n w
unfolding total
total_lt zero v w i lt less same = absurd (omega arith)
total_lt (suc n) v w i lt less same = elim (Bool-cases (nat_eq i n)) [
  | inl last ↦ ground (arith, total_eq n v w (λ j below. same j (ground arith)))
  | inr earlier ↦ ground (arith, total_lt n v w i (ground arith) less same, same n earlier)
]

-- The steps that a run has before it.
weight : (String → String) → GroupRun → Stage → ℕ
weight digest r arrived = 2 * length (lock_plan digest r) + 5
weight digest r (acquiring todo h) = 2 * length todo + length h + 3
weight digest r (running h) = length h + 2
weight digest r (releasing h o) = length h + 1
weight digest r (returned o) = 0

-- borgmatic exits with success; every other stage takes its next step.
drive : Stage → Signal
drive (running h) = exited true
drive g = go

claim_weight :
    (digest : String → String) (r : GroupRun) (l : Lock) (t : Table) (stuck : Stage)
    (todo h : List Lock) (w : ℕ)
    → weight digest r stuck < w
    → weight digest r (acquiring todo (l ∷ h)) < w
    → (moved : Table × Stage)
    → moved ≡ (if t l then (t, stuck) else (put t l true, acquiring todo (l ∷ h)))
    → weight digest r moved.1 < w
claim_weight digest r l t stuck todo h w p q moved e = elim (Bool-cases (t l)) [
  | inl taken ↦ rw (e, taken) p
  | inr free ↦ rw (e, free) q
]

run_step-weight :
    (digest : String → String) (r : GroupRun) (t : Table) (g : Stage)
    → can_move t g ≡ true
    → weight digest r (run_step digest r (drive g) t g).1 < weight digest r g
unfolding weight run_step acquire drive can_move has_returned waits_for
run_step-weight digest r t arrived m =
    claim_weight digest r (group_semaphore r) t (returned busy) (lock_plan digest r) [] _
      (omega arith) (omega arith) _ refl
run_step-weight digest r t (acquiring [] h) m = omega arith
run_step-weight digest r t (acquiring (semaphore p k ∷ todo) h) m =
    elim (Bool-cases (t (semaphore p k))) [
      | inl taken ↦ absurd (ground arith)
      | inr free ↦ rw free (omega arith)
    ]
run_step-weight digest r t (acquiring (lock_file f ∷ todo) h) m =
    claim_weight digest r (lock_file f) t (releasing h locked_by_another_process) todo h _
      (omega arith) (omega arith) _ refl
run_step-weight digest r t (running h) m = omega arith
run_step-weight digest r t (releasing (l ∷ h) o) m = omega arith
run_step-weight digest r t (releasing [] o) m = omega arith
run_step-weight digest r t (returned o) m = cc

module _ (digest : String → String) (n : ℕ) (runs : ℕ → GroupRun)
    (distinct : (i : ℕ) → AllDifferent (runs i).repos) where
  remaining : System → ℕ
  remaining s = total n (λ i. weight digest (runs i) (s.at i))

  turn-remaining :
      (s : System) (i : ℕ)
      → i < n
      → can_move s.taken (s.at i) ≡ true
      → remaining (turn digest n runs i (drive (s.at i)) s) < remaining s
  unfolding remaining turn
  turn-remaining s i lt m =
      let moved = run_step digest (runs i) (drive (s.at i)) s.taken (s.at i) in
      let below : ltb i n ≡ true = ground arith in
      rw below (
        total_lt n (λ j. weight digest (runs j) (set_at s.at i moved.1 j))
          (λ j. weight digest (runs j) (s.at j)) i lt
          (ground (arith, run_step-weight digest (runs i) s.taken (s.at i) m))
          (λ j other. ground arith))

  abbrev AllReturn : System → Type 0
  AllReturn s = (i : ℕ) → i < n → has_returned (s.at i) ≡ true

  finish_from :
      (fuel : ℕ) (s : System)
      → remaining s < fuel
      → HasOwners digest n runs s
      → FollowsPlans digest n runs s
      → (more : List (ℕ × Signal)) × AllReturn (play digest n runs more s)
  unfolding play
  finish_from zero s b owners plans = absurd (omega arith)
  finish_from (suc fuel) s b owners plans =
      elim (some_run_moves digest n runs distinct s owners plans) [
        | inr done ↦ ([], done)
        | inl (i, lt, m) ↦
            let sig = drive (s.at i) in
            let s' = turn digest n runs i sig s in
            let (more, done) =
              finish_from fuel s' (omega (arith, turn-remaining s i lt m))
                (HasOwners-turn digest n runs s i sig owners)
                (FollowsPlans-play digest n runs ((i, sig) ∷ []) s plans) in
            ((i, sig) ∷ more, done)
      ]

play-append :
    (digest : String → String) (n : ℕ) (runs : ℕ → GroupRun) (turns more : List (ℕ × Signal))
    (s : System)
    → play digest n runs (turns ++ more) s ≡ play digest n runs more (play digest n runs turns s)
unfolding play
play-append digest n runs [] more s = refl
play-append digest n runs ((i, sig) ∷ turns) more s =
    play-append digest n runs turns more (turn digest n runs i sig s)

nothing_held : (g : Stage) (l : Lock) → has_returned g ≡ true → holds (held g) l ≡ false
unfolding has_returned held holds
nothing_held (returned o) l e = refl
nothing_held g l e = cc

-- Whatever turns the runs have taken, cancelled or not, some turns more let every run return, and
-- then no semaphore and no lock file is held, if no run lists a repository twice.
pub all_locks_released :
    (digest : String → String) (n : ℕ) (runs : ℕ → GroupRun)
    → ((i : ℕ) → AllDifferent (runs i).repos)
    → (turns : List (ℕ × Signal))
    → (more : List (ℕ × Signal)) × ((i : ℕ)
        → i < n
        → has_returned ((play digest n runs (turns ++ more) initial).at i) ≡ true)
      × ((l : Lock) → (play digest n runs (turns ++ more) initial).taken l ≡ false)
all_locks_released digest n runs distinct turns =
    let s = play digest n runs turns initial in
    let (more, done) =
      finish_from digest n runs distinct (suc (remaining digest n runs distinct s)) s (omega arith)
        (HasOwners-play digest n runs turns)
        (FollowsPlans-play digest n runs turns initial (λ i. tt)) in
    let all : (i : ℕ)
        → i < n
        → has_returned ((play digest n runs (turns ++ more) initial).at i) ≡ true =
      λ i lt. rw (play-append digest n runs turns more initial) (done i lt) in
    (more, all, released (turns ++ more) all)
  where
    released :
        (turns : List (ℕ × Signal))
        → ((i : ℕ) → i < n → has_returned ((play digest n runs turns initial).at i) ≡ true)
        → (l : Lock) → (play digest n runs turns initial).taken l ≡ false
    released turns all l = elim (Bool-cases ((play digest n runs turns initial).taken l)) [
      | inr free ↦ free
      | inl taken ↦
          let (i, lt, mine) = (HasOwners-play digest n runs turns).owned l taken in
          absurd
            (ground (arith, nothing_held ((play digest n runs turns initial).at i) l (all i lt)))
    ]
