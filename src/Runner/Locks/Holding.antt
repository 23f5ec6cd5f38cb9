-- ===== src/Runner/Locks/Holding.antt =====
-- Who holds a lock: the table and the runs of `TryRunGroup` agree at every moment.
use mathlib.Core.Path.{fun_ext}
use borgmatic_manager.Prelude.{
  ℕ, String, ◌≡◌, refl, true, false, List, [], ◌∷◌, ltb, if◌then◌else◌, arith, eq_iff, eq_refl, ◌<◌,
  subst, Bool-cases, inl, inr,
}
use borgmatic_manager.Runner.Locks.{
  Lock, semaphore, lock_file, same, holds, Table, put, GroupRun, lock_plan, group_semaphore, Stage,
  arrived, acquiring, running, releasing, returned, locked_by_another_process, busy, held, Signal,
  go, context_done, open_fails, exited, acquire, run_step, System, set_at, initial, placed, turn,
  play,
}

pub same_refl : (l : Lock) → same l l ≡ true
unfolding same
same_refl (semaphore p k) = ground (arith, eq_refl k)
same_refl (lock_file f) = ground (arith, eq_refl f)

pub same-eq : (l m : Lock) → same l m ≡ true → l ≡ m
unfolding same
same-eq (semaphore p k) (semaphore q j) h = ground (arith, eq_iff k j)
same-eq (semaphore p k) (lock_file f) h = cc
same-eq (lock_file f) (semaphore q j) h = cc
same-eq (lock_file f) (lock_file g) h = ground (arith, eq_iff f g)

abbrev pub IsDistinct : List Lock → Type 0
IsDistinct [] = Unit
IsDistinct (l ∷ ls) = (holds ls l ≡ false) × IsDistinct ls

-- A run changes nothing, takes a lock that is free, or gives back the last lock it took.
pub data Shift (t : Table) : List Lock → Table → List Lock → Type 0 where
  stay : {h : List Lock} → Shift t h t h
  take : {h : List Lock} (l : Lock) → t l ≡ false → Shift t h (put t l true) (l ∷ h)
  give : {h : List Lock} (l : Lock) → Shift t (l ∷ h) (put t l false) h

abbrev Shifts : Table → List Lock → Table × Stage → Type 0
Shifts t h moved = Shift t h moved.0 (held moved.1)

-- A lock is taken if it is free, and otherwise the run keeps what it holds.
claim-Shift :
    (l : Lock) (t : Table) (h : List Lock) (stuck : Stage) (todo : List Lock)
    → held stuck ≡ h
    → Shifts t h (if t l then (t, stuck) else (put t l true, acquiring todo (l ∷ h)))
unfolding held
claim-Shift l t h stuck todo e = elim (Bool-cases (t l)) [
  | inl taken ↦ rw (taken, e) stay
  | inr free ↦ rw free (take l free)
]

acquire-Shift :
    (s : Signal) (t : Table) (l : Lock) (todo h : List Lock) → Shifts t h (acquire s t l todo h)
unfolding acquire held
acquire-Shift context_done t (semaphore p k) todo h = stay
acquire-Shift go t (semaphore p k) todo h =
    claim-Shift (semaphore p k) t h (acquiring (semaphore p k ∷ todo) h) todo refl
acquire-Shift open_fails t (semaphore p k) todo h =
    claim-Shift (semaphore p k) t h (acquiring (semaphore p k ∷ todo) h) todo refl
acquire-Shift (exited ok) t (semaphore p k) todo h =
    claim-Shift (semaphore p k) t h (acquiring (semaphore p k ∷ todo) h) todo refl
acquire-Shift open_fails t (lock_file f) todo h = stay
acquire-Shift go t (lock_file f) todo h =
    claim-Shift (lock_file f) t h (releasing h locked_by_another_process) todo refl
acquire-Shift context_done t (lock_file f) todo h =
    claim-Shift (lock_file f) t h (releasing h locked_by_another_process) todo refl
acquire-Shift (exited ok) t (lock_file f) todo h =
    claim-Shift (lock_file f) t h (releasing h locked_by_another_process) todo refl

run_step-Shift :
    (digest : String → String) (r : GroupRun) (s : Signal) (t : Table) (g : Stage)
    → Shifts t (held g) (run_step digest r s t g)
unfolding run_step held
run_step-Shift digest r s t arrived =
    claim-Shift (group_semaphore r) t [] (returned busy) (lock_plan digest r) refl
run_step-Shift digest r s t (acquiring [] h) = stay
run_step-Shift digest r s t (acquiring (l ∷ todo) h) = acquire-Shift s t l todo h
run_step-Shift digest r (exited ok) t (running h) = stay
run_step-Shift digest r go t (running h) = stay
run_step-Shift digest r context_done t (running h) = stay
run_step-Shift digest r open_fails t (running h) = stay
run_step-Shift digest r s t (releasing (l ∷ h) o) = give l
run_step-Shift digest r s t (releasing [] o) = stay
run_step-Shift digest r s t (returned o) = stay

-- The table and the runs agree: a lock of a run is taken, a taken lock has one run.
pub record IsAgreed (n : ℕ) (t : Table) (h : ℕ → List Lock) : Type 0 where
  pub listed : (i : ℕ) (l : Lock) → holds (h i) l ≡ true → t l ≡ true
  pub single : (i j : ℕ) (l : Lock) → holds (h i) l ≡ true → holds (h j) l ≡ true → i ≡ j
  pub owned : (l : Lock) → t l ≡ true → (i : ℕ) × (i < n) × (holds (h i) l ≡ true)
  pub distinct : (i : ℕ) → IsDistinct (h i)

Shift-IsAgreed :
    {n : ℕ} {t t' : Table} (h : ℕ → List Lock) (i : ℕ) {a b : List Lock}
    → i < n
    → h i ≡ a
    → Shift t a t' b
    → IsAgreed n t h
    → IsAgreed n t' (set_at h i b)
unfolding holds
Shift-IsAgreed h i lt e stay v = record {
  listed = λ j l q. ground (arith, v.listed j l);
  single = λ j k l q r. ground (arith, v.single j k l);
  owned = λ l q. let (j, below, mine) = v.owned l q in (j, below, ground arith);
  distinct = λ j. ground (arith, v.distinct j);
}
Shift-IsAgreed h i lt e (take l free) v = record {
  listed = λ j m q. ground (arith, v.listed j m);
  single = λ j k m q r. ground (arith, v.single j k m, v.listed j m, v.listed k m, same-eq l m);
  owned = λ m q. elim (Bool-cases (same l m)) [
    | inl mine ↦ (i, lt, ground arith)
    | inr old ↦ let (j, below, theirs) = v.owned m (ground arith) in (j, below, ground arith)
  ];
  distinct = λ j. ground (arith, v.distinct j, v.listed i l);
}
Shift-IsAgreed h i lt e (give {h = b} l) v = record {
  listed = λ j m q. ground (arith, v.listed j m, v.single i j l, same-eq l m, same_refl l, gone);
  single = λ j k m q r. ground (arith, v.single j k m);
  owned = λ m q. let (j, below, theirs) = v.owned m (ground arith) in (j, below, ground arith);
  distinct = λ j. ground (arith, v.distinct j);
}
  where
    gone : holds b l ≡ false
    gone = (subst IsDistinct e (v.distinct i)).0

-- What holds of the locks in every state that the runs can reach.
module _ (digest : String → String) (n : ℕ) (runs : ℕ → GroupRun) where
  abbrev pub HasOwners : System → Type 0
  HasOwners s = IsAgreed n s.taken (λ i. held (s.at i))

  HasOwners-initial : HasOwners initial
  unfolding held holds
  HasOwners-initial = record {
    listed = λ i l q. cc;
    single = λ i j l q r. cc;
    owned = λ l q. cc;
    distinct = λ i. tt;
  }

  HasOwners-placed :
      (s : System) (i : ℕ) (sig : Signal)
      → i < n
      → HasOwners s
      → HasOwners (placed digest n runs s i (run_step digest (runs i) sig s.taken (s.at i)))
  HasOwners-placed s i sig lt v =
      let moved = run_step digest (runs i) sig s.taken (s.at i) in
      let stages : set_at (λ j. held (s.at j)) i (held moved.1)
          ≡ (λ j. held (set_at s.at i moved.1 j)) =
        fun_ext λ j. ground arith in
      subst (IsAgreed n moved.0) stages (
        Shift-IsAgreed (λ j. held (s.at j)) i lt refl
          (run_step-Shift digest (runs i) sig s.taken (s.at i)) v)

  pub HasOwners-turn :
      (s : System) (i : ℕ) (sig : Signal) → HasOwners s → HasOwners (turn digest n runs i sig s)
  unfolding turn
  HasOwners-turn s i sig v = elim (Bool-cases (ltb i n)) [
    | inl below ↦ rw below (HasOwners-placed s i sig (ground arith) v)
    | inr beyond ↦ rw beyond v
  ]

  pub HasOwners-play_from :
      (turns : List (ℕ × Signal)) (s : System)
      → HasOwners s
      → HasOwners (play digest n runs turns s)
  unfolding play
  HasOwners-play_from [] s v = v
  HasOwners-play_from ((i, sig) ∷ turns) s v =
      HasOwners-play_from turns (turn digest n runs i sig s) (HasOwners-turn s i sig v)

  pub HasOwners-play : (turns : List (ℕ × Signal)) → HasOwners (play digest n runs turns initial)
  HasOwners-play turns = HasOwners-play_from turns initial HasOwners-initial
