-- ===== src/Runner/Locks/Exclusion.antt =====
-- Two runs of `TryRunGroup` that share a group, a repository or the snapshots do not overlap.
use borgmatic_manager.Prelude.{
  ℕ, String, ◌≡◌, refl, true, false, ◌||◌, List, [], ◌∷◌, ◌++◌, map, ◌==◌, arith, eq_iff, contains,
  ◌⊎◌, inl, inr, subst, ap, sym, Bool-cases,
}
use borgmatic_manager.Runner.Locks.{
  Lock, semaphore, lock_file, holds, GroupRun, lock_keys, lock_files, lock_path, lock_plan,
  group_lock_key, group_semaphore, Signal, running, held, initial, play,
}
use borgmatic_manager.Runner.Locks.Holding.{HasOwners-play, same_refl}
use borgmatic_manager.Runner.Locks.Planned.{in_order, IsPlanned, FollowsPlans-play}

holds-append : (a b : List Lock) (l : Lock) → holds (a ++ b) l ≡ (holds a l || holds b l)
unfolding holds
holds-append [] b l = refl
holds-append (x ∷ a) b l = ground (arith, holds-append a b l)

pub holds-in_order :
    (h todo : List Lock) (l : Lock) → holds (in_order h todo) l ≡ (holds h l || holds todo l)
unfolding holds
holds-in_order [] todo l = refl
holds-in_order (x ∷ h) todo l = ground (arith, holds-in_order h (x ∷ todo) l)

holds-map :
    (f : String → Lock) (ks : List String) (k : String)
    → contains ks k ≡ true
    → holds (map f ks) (f k) ≡ true
unfolding holds
holds-map f [] k h = cc
holds-map f (x ∷ ks) k h = elim (Bool-cases (x == k)) [
  | inl here ↦ let e : x ≡ k = ground (arith, eq_iff x k) in rw e (ground (arith, same_refl (f k)))
  | inr later ↦ ground (arith, holds-map f ks k)
]

-- The keys of a run: that of its group, and those of the snapshots and the repositories.
unfoldable pub run_keys : GroupRun → List String
run_keys r = group_lock_key r.group ∷ lock_keys r

module _ (digest : String → String) (r : GroupRun) (h : List Lock)
    (p : IsPlanned digest r (running h)) where
  holds_all :
      (l : Lock) → holds (group_semaphore r ∷ lock_plan digest r) l ≡ true → holds h l ≡ true
  unfolding holds
  holds_all l q = ground (arith, holds-in_order h [] l, ap (λ ls. holds ls l) p)

  holds_semaphore :
      (key : String) → contains (run_keys r) key ≡ true → holds h (semaphore r.process key) ≡ true
  unfolding holds run_keys lock_plan
  holds_semaphore key c = holds_all (semaphore r.process key) (
      ground (
        arith,
        holds-map (semaphore r.process) (group_lock_key r.group ∷ lock_keys r) key c,
        holds-append (map (semaphore r.process) (lock_keys r)) (lock_files digest r)
            (semaphore r.process key),
      ))

  holds_lock_file :
      (key : String)
      → contains (run_keys r) key ≡ true
      → (r.lock_dir == "") ≡ false
      → holds h (lock_file (lock_path digest r.lock_dir key)) ≡ true
  unfolding holds run_keys lock_plan lock_files
  holds_lock_file key c set =
      let file = lock_file (lock_path digest r.lock_dir key) in
      holds_all file (
        ground (
          arith,
          holds-map (λ k. lock_file (lock_path digest r.lock_dir k)) (run_keys r) key c,
          holds-append (map (semaphore r.process) (lock_keys r)) (lock_files digest r) file,
        ))

-- At no moment, whatever the turns before it, are two runs that share a key, of a group, of a
-- repository or of the snapshots, both past their locks, if they are in one process, or if their
-- runners have the same lock directory and it is not empty.
pub one_run_per_key :
    (digest : String → String) (n : ℕ) (runs : ℕ → GroupRun) (turns : List (ℕ × Signal)) (i j : ℕ)
    {h h' : List Lock} (key : String)
    → (play digest n runs turns initial).at i ≡ running h
    → (play digest n runs turns initial).at j ≡ running h'
    → contains (run_keys (runs i)) key ≡ true
    → contains (run_keys (runs j)) key ≡ true
    → ((runs i).process ≡ (runs j).process)
      ⊎ (((runs i).lock_dir ≡ (runs j).lock_dir) × (((runs i).lock_dir == "") ≡ false))
    → i ≡ j
unfolding held
one_run_per_key digest n runs turns i j {h} {h'} key ei ej ci cj shared =
    let all = HasOwners-play digest n runs turns in
    let plans = FollowsPlans-play digest n runs turns initial (λ k. tt) in
    let pi = subst (IsPlanned digest (runs i)) ei (plans i) in
    let pj = subst (IsPlanned digest (runs j)) ej (plans j) in
    elim shared [
      | inl process ↦
          all.single i j (semaphore (runs i).process key)
            (rw ei (holds_semaphore digest (runs i) h pi key ci))
            (rw (ej, process) (holds_semaphore digest (runs j) h' pj key cj))
      | inr (dir, set) ↦
          all.single i j (lock_file (lock_path digest (runs i).lock_dir key))
            (rw ei (holds_lock_file digest (runs i) h pi key ci set))
            (rw (ej, dir) (holds_lock_file digest (runs j) h' pj key cj (rw (sym dir) set)))
    ]
