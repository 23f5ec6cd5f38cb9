-- ===== src/Runner/Locks/Order.antt =====
-- The order in which `TryRunGroup` takes its locks: semaphores of groups, then of snapshots, then of
-- repositories by name, then lock files.
use Prim.Native.Char.{Char, code}
use text.Mathlib.TextLemmas.{cons-append, nil-append}
use borgmatic_manager.Prelude.{
  ℕ, String, ◌≡◌, refl, Bool, true, false, ◌&&◌, ◌||◌, List, [], ◌∷◌, ◌++◌, map, ltb, nat_eq, ◌==◌,
  if◌then◌else◌, arith, All, All-impl, All-map, All-append, All-any, IsChain, AllDifferent, if_both,
}
use borgmatic_manager.GoStrings.{plus}
use borgmatic_manager.Scheduler.Fingerprint.{less, sort_strings}
use borgmatic_manager.Scheduler.Fingerprint.Sorted.{sort-IsChain}
use borgmatic_manager.Scheduler.Fingerprint.Order.{less_trans, less_asym}
use borgmatic_manager.Runner.Locks.{
  Lock, semaphore, lock_file, GroupRun, snapshot_lock_key, group_lock_key, repo_lock_key, lock_path,
  lock_keys, lock_files, lock_plan, group_semaphore,
}

-- Keys of snapshots, which begin with `s`, stand before keys of repositories, which begin with `r`,
-- and after those of groups.
unfoldable pub key_class : String → ℕ
key_class String.[] = 0
key_class (String.◌∷◌ c s) =
    if nat_eq (code c) (code "g") then 0 else if nat_eq (code c) (code "s") then 1 else 2

unfoldable pub before : String → String → Bool
before a b = ltb (key_class a) (key_class b) || (nat_eq (key_class a) (key_class b) && less a b)

pub before_irrefl : (a : String) → before a a ≡ false
unfolding before
before_irrefl a = ground (arith, less_asym a a)

pub before_trans : (a b c : String) → before a b ≡ true → before b c ≡ true → before a c ≡ true
unfolding before
before_trans a b c p q = ground (arith, less_trans a b c)

key_class-plus :
    (c : Char) (p s : String) → key_class (plus (String.◌∷◌ c p) s) ≡ key_class (String.◌∷◌ c p)
unfolding key_class
key_class-plus c p s = rw (cons-append c p s) refl

less-plus : (p s t : String) → less (plus p s) (plus p t) ≡ less s t
unfolding less
less-plus String.[] s t = rw (nil-append s, nil-append t) refl
less-plus (String.◌∷◌ c p) s t =
    rw (cons-append c p s, cons-append c p t) (ground (arith, less-plus p s t))

repo_class : (r : String) → key_class (repo_lock_key r) ≡ 2
unfolding repo_lock_key key_class
repo_class r = key_class-plus "r" "epo:" r

before-repo : (a b : String) → less a b ≡ true → before (repo_lock_key a) (repo_lock_key b) ≡ true
unfolding before repo_lock_key
before-repo a b h = ground (arith, less-plus "repo:" a b, repo_class a, repo_class b)

snapshot_class : key_class snapshot_lock_key ≡ 1
unfolding key_class
snapshot_class = refl

snapshots-before-repo : (r : String) → before snapshot_lock_key (repo_lock_key r) ≡ true
unfolding before key_class
snapshots-before-repo r = ground (arith, repo_class r)

repos-IsChain : (ss : List String) → IsChain less ss → IsChain before (map repo_lock_key ss)
repos-IsChain [] c = tt
repos-IsChain (s ∷ ss) c = (
  All-map (λ k. before (repo_lock_key s) k ≡ true) repo_lock_key ss
      (All-impl ss (before-repo s) c.0),
  repos-IsChain ss c.1,
)

lock_keys-IsChain : (r : GroupRun) → AllDifferent r.repos → IsChain before (lock_keys r)
unfolding lock_keys
lock_keys-IsChain r d =
    let repos = repos-IsChain (sort_strings r.repos) (sort-IsChain r.repos d) in
    let first =
      All-map (λ k. before snapshot_lock_key k ≡ true) repo_lock_key (sort_strings r.repos)
        (All-any snapshots-before-repo (sort_strings r.repos)) in
    if_both (IsChain before) r.snapshot_hooks _ _ (first, repos) repos

group_class : (g : String) → key_class (group_lock_key g) ≡ 0
unfolding group_lock_key key_class
group_class g = key_class-plus "g" "roup:" g

group-before-keys :
    (g : String) (r : GroupRun) → All (λ k. before (group_lock_key g) k ≡ true) (lock_keys r)
unfolding lock_keys before
group-before-keys g r =
    let P = λ (k : String). before (group_lock_key g) k ≡ true in
    let repos =
      All-map P repo_lock_key (sort_strings r.repos)
        (All-any (λ k. ground (arith, repo_class k, group_class g)) (sort_strings r.repos)) in
    if_both (All P) r.snapshot_hooks _ _ (first, repos) repos
  where
    first : before (group_lock_key g) snapshot_lock_key ≡ true
    first = ground (arith, group_class g, snapshot_class)

-- Lock `l` is taken before lock `m`, by every run that takes both.
unfoldable pub precedes : Lock → Lock → Bool
precedes (semaphore p k) (semaphore q j) = before k j
precedes (lock_file f) (semaphore q j) = false
precedes l (lock_file f) = true

semaphores-IsChain :
    (p : ℕ) (ks : List String) → IsChain before ks → IsChain precedes (map (semaphore p) ks)
unfolding precedes
semaphores-IsChain p [] c = tt
semaphores-IsChain p (k ∷ ks) c = (
  All-map (λ l. precedes (semaphore p k) l ≡ true) (semaphore p) ks c.0,
  semaphores-IsChain p ks c.1,
)

-- Only lock files stand in the list.
abbrev AllFiles : List Lock → Type 0
AllFiles ls = All (λ l. (m : Lock) → precedes m l ≡ true) ls

AllFiles-IsChain : (ls : List Lock) → AllFiles ls → IsChain precedes ls
AllFiles-IsChain [] f = tt
AllFiles-IsChain (l ∷ ls) f = (All-impl ls (λ m g. g l) f.1, AllFiles-IsChain ls f.1)

lock_files-AllFiles : (digest : String → String) (r : GroupRun) → AllFiles (lock_files digest r)
unfolding lock_files precedes
lock_files-AllFiles digest r =
    let P = λ (l : Lock). (m : Lock) → precedes m l ≡ true in
    let path = λ (k : String). lock_file (lock_path digest r.lock_dir k) in
    let keys = group_lock_key r.group ∷ lock_keys r in
    if_both (All P) (r.lock_dir == "") _ _ tt (All-map P path keys (All-any (λ k. file k) keys))
  where
    file : (k : String) (m : Lock) → precedes m (lock_file (lock_path digest r.lock_dir k)) ≡ true
    file k (semaphore p j) = refl
    file k (lock_file f) = refl

append-IsChain :
    (ls ms : List Lock) → IsChain precedes ls → AllFiles ms → IsChain precedes (ls ++ ms)
append-IsChain [] ms c f = AllFiles-IsChain ms f
append-IsChain (l ∷ ls) ms c f = (
  All-append (λ m. precedes l m ≡ true) ls ms c.0 (All-impl ms (λ m g. g l) f),
  append-IsChain ls ms c.1 f,
)

-- A run takes its locks in the order that all runs keep to, if no repository is listed twice.
pub lock_plan-IsChain :
    (digest : String → String) (r : GroupRun)
    → AllDifferent r.repos
    → IsChain precedes (group_semaphore r ∷ lock_plan digest r)
unfolding lock_plan precedes
lock_plan-IsChain digest r d =
    let files = lock_files-AllFiles digest r in
    let group = group_semaphore r in
    (
      All-append (λ l. precedes group l ≡ true) (map (semaphore r.process) (lock_keys r))
          (lock_files digest r)
          (All-map (λ l. precedes group l ≡ true) (semaphore r.process) (lock_keys r)
            (group-before-keys r.group r))
          (All-impl (lock_files digest r) (λ m g. g group) files),
      append-IsChain (map (semaphore r.process) (lock_keys r)) (lock_files digest r)
          (semaphores-IsChain r.process (lock_keys r) (lock_keys-IsChain r d)) files,
    )
