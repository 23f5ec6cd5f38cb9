-- ===== src/Runner/Locks/Progress.antt =====
-- The runs of `TryRunGroup` never wait for each other in a circle, and all of them return.
use borgmatic_manager.Prelude.{
  ◌∙◌, ℕ, zero, suc, ◌<◌, String, ◌≡◌, refl, Bool, true, false, ◌&&◌, not, List, [], ◌∷◌,
  if◌then◌else◌, arith, Bool-cases, inl, inr, ◌⊎◌, Option, none, some, subst, sym, All, IsChain,
  AllDifferent, Option-cases, is_some,
}
use borgmatic_manager.Runner.Locks.{
  Lock, semaphore, holds, same, Table, GroupRun, Stage, acquiring, returned, held, Signal, System,
  initial, play,
}
use borgmatic_manager.Runner.Locks.Holding.{HasOwners, HasOwners-play, same-eq}
use borgmatic_manager.Runner.Locks.Planned.{in_order, IsPlanned, FollowsPlans, FollowsPlans-play}
use borgmatic_manager.Runner.Locks.Order.{
  before, before_irrefl, before_trans, precedes, lock_plan-IsChain,
}

-- The key of the semaphore that a run waits for.
unfoldable pub waits_for : Table → Stage → Option String
waits_for t (acquiring (semaphore p k ∷ todo) h) = if t (semaphore p k) then some k else none
waits_for t g = none

unfoldable pub has_returned : Stage → Bool
has_returned (returned o) = true
has_returned g = false

-- A number in `below` with the property, or the property of none of them.
find_below :
    (p : ℕ → Bool) (n : ℕ) → ((i : ℕ) × (i < n) × (p i ≡ true)) ⊎ ((i : ℕ) → i < n → p i ≡ false)
find_below p zero = inr (λ i lt. absurd (omega arith))
find_below p (suc n) = elim (find_below p n) [
  | inl (i, lt, e) ↦ inl (i, omega arith, e)
  | inr none_yet ↦ elim (Bool-cases (p n)) [
    | inl e ↦ inl (n, omega arith, e)
    | inr e ↦ inr (λ i lt. ground (arith, none_yet i))
  ]
]

-- Of the keys that runs wait for, one that is before none of the others.
last_key :
    (f : ℕ → Option String) (n : ℕ)
    → ((i : ℕ) → i < n → f i ≡ none)
      ⊎ ((i : ℕ) × (k : String) × (i < n)
          × (f i ≡ some k)
          × ((j : ℕ) (m : String) → j < n → f j ≡ some m → before k m ≡ false))
last_key f zero = inl (λ i lt. absurd (omega arith))
last_key f (suc n) = elim (Option-cases (f n)) [
  | inl idle ↦ elim (last_key f n) [
    | inl quiet ↦ inl (λ i lt. ground (arith, quiet i))
    | inr (i, k, lt, e, last) ↦ inr (i, k, omega arith, e, λ j m below q. ground (arith, last j m))
  ]
  | inr (m, waiting) ↦ elim (last_key f n) [
    | inl quiet ↦
        inr (n, m, omega arith, waiting, λ j m' below q. ground (arith, quiet j, before_irrefl m))
    | inr (i, k, lt, e, last) ↦ elim (Bool-cases (before k m)) [
      | inl less ↦ inr (
        n,
        m,
        omega arith,
        waiting,
        λ j m' below q. ground (arith, last j m', before_irrefl m, before_trans k m m'),
      )
      | inr more ↦ inr (i, k, omega arith, e, λ j m' below q. ground (arith, last j m'))
    ]
  ]
]

in_order-IsChain : (h todo : List Lock) → IsChain precedes (in_order h todo) → IsChain precedes todo
in_order-IsChain [] todo c = c
in_order-IsChain (l ∷ h) todo c = (in_order-IsChain h (l ∷ todo) c).1

held-precedes :
    (h todo : List Lock) (l : Lock)
    → holds h l ≡ true
    → IsChain precedes (in_order h todo)
    → All (λ m. precedes l m ≡ true) todo
unfolding holds
held-precedes [] todo l q c = cc
held-precedes (x ∷ h) todo l q c = elim (Bool-cases (same x l)) [
  | inl here ↦ rw (sym (same-eq x l here)) (in_order-IsChain h (x ∷ todo) c).0
  | inr below ↦ (held-precedes h (x ∷ todo) l (ground arith) c).1
]

-- A run that waits for a key holds only keys that stand before it.
holder-before :
    (digest : String → String) (r : GroupRun) (t : Table) (g : Stage) (p : ℕ) (k m : String)
    → AllDifferent r.repos
    → IsPlanned digest r g
    → holds (held g) (semaphore p k) ≡ true
    → waits_for t g ≡ some m
    → before k m ≡ true
unfolding waits_for held precedes holds
holder-before digest r t (acquiring (semaphore q j ∷ todo) h) p k m d planned mine waits =
    let chain = subst (IsChain precedes) (sym planned) (lock_plan-IsChain digest r d) in
    let first = (held-precedes h (semaphore q j ∷ todo) (semaphore p k) mine chain).0 in
    ground arith
holder-before digest r t g p k m d planned mine waits = ground arith

unfoldable pub can_move : Table → Stage → Bool
can_move t g = not (has_returned g) && not (is_some (waits_for t g))

waits-taken :
    (t : Table) (g : Stage) (k : String)
    → waits_for t g ≡ some k
    → (p : ℕ) × (t (semaphore p k) ≡ true)
unfolding waits_for
waits-taken t (acquiring (semaphore p j ∷ todo) h) k e = (p, ground arith)
waits-taken t g k e = cc

holder-has_returned : (g : Stage) (l : Lock) → holds (held g) l ≡ true → has_returned g ≡ false
unfolding held has_returned holds
holder-has_returned (returned o) l q = cc
holder-has_returned g l q = refl

stuck-waits :
    (t : Table) (g : Stage)
    → can_move t g ≡ false
    → has_returned g ≡ false
    → (k : String) × (waits_for t g ≡ some k)
unfolding can_move
stuck-waits t g stuck there = elim (Option-cases (waits_for t g)) [
  | inl free ↦ absurd (ground arith)
  | inr waiting ↦ waiting
]

module _ (digest : String → String) (n : ℕ) (runs : ℕ → GroupRun)
    (distinct : (i : ℕ) → AllDifferent (runs i).repos) (s : System)
    (owners : HasOwners digest n runs s) (plans : FollowsPlans digest n runs s) where
  abbrev AllStuck : Type 0
  AllStuck = (i : ℕ) → i < n → can_move s.taken (s.at i) ≡ false

  -- The holder of the last key that is waited for does not wait.
  last_is_free :
      AllStuck
      → (i : ℕ) (k : String) → waits_for s.taken (s.at i) ≡ some k
      → ((j : ℕ) (m : String) → j < n → waits_for s.taken (s.at j) ≡ some m → before k m ≡ false)
      → true ≡ false
  last_is_free stuck i k waits last =
      let (p, taken) = waits-taken s.taken (s.at i) k waits in
      let (j, below, mine) = owners.owned (semaphore p k) taken in
      let (m, waits') =
        stuck-waits s.taken (s.at j) (stuck j below)
          (holder-has_returned (s.at j) (semaphore p k) mine) in
      let later =
        holder-before digest (runs j) s.taken (s.at j) p k m (distinct j) (plans j) mine waits' in
      sym later ∙ last j m below waits'

  all_stuck_returned : AllStuck → (i : ℕ) → i < n → has_returned (s.at i) ≡ true
  all_stuck_returned stuck i lt = elim (Bool-cases (has_returned (s.at i))) [
    | inl done ↦ done
    | inr there ↦ elim (last_key (λ j. waits_for s.taken (s.at j)) n) [
      | inl quiet ↦
          let (k, waits) = stuck-waits s.taken (s.at i) (stuck i lt) there in
          absurd (ground (arith, quiet i))
      | inr (j, k, below, waits, last) ↦ absurd (ground (arith, last_is_free stuck j k waits last))
    ]
  ]

  -- Some run can take its next step, unless all have returned.
  pub some_run_moves :
      ((i : ℕ) × (i < n) × (can_move s.taken (s.at i) ≡ true))
      ⊎ ((i : ℕ) → i < n → has_returned (s.at i) ≡ true)
  some_run_moves = elim (find_below (λ i. can_move s.taken (s.at i)) n) [
    | inl found ↦ inl found
    | inr stuck ↦ inr (all_stuck_returned stuck)
  ]

-- Whatever turns the runs have taken, one that has not returned either can take its next step, or
-- waits while another can, if no run lists a repository twice.
pub no_deadlock :
    (digest : String → String) (n : ℕ) (runs : ℕ → GroupRun)
    → ((i : ℕ) → AllDifferent (runs i).repos)
    → (turns : List (ℕ × Signal)) (i : ℕ) → i < n
    → has_returned ((play digest n runs turns initial).at i) ≡ false
    → (j : ℕ) × (j < n)
      × (can_move (play digest n runs turns initial).taken ((play digest n runs turns initial).at j)
          ≡ true)
no_deadlock digest n runs distinct turns i lt there =
    let s = play digest n runs turns initial in
    elim (some_run_moves digest n runs distinct s (HasOwners-play digest n runs turns)
      (FollowsPlans-play digest n runs turns initial (λ k. tt))) [
        | inl found ↦ found
        | inr all ↦ absurd (ground (arith, all i))
      ]
