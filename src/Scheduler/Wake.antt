-- ===== src/Scheduler/Wake.antt =====
-- How long the scheduler sleeps.
use borgmatic_manager.Prelude.{
  String, ◌≡◌, refl, ◌∙◌, false, ◌⊎◌, inl, inr, Option, none, some, [], ◌∷◌, foldl, arith, ◌==◌,
  eq_iff, if◌then◌else◌, get_or, Bool-cases,
}
use borgmatic_manager.Prelude.Int.{pos, ◌≤ℤ◌, ◌<ℤ◌, ltb_ℤ}
use borgmatic_manager.GoTime.{Time, Duration, is_zero, after, add, sub}
use borgmatic_manager.GoMap.{GoMap, IsMap, get, get-put}
use borgmatic_manager.State.Outcome.{GroupRecord, zero_group_record}
use borgmatic_manager.State.Store.{ScheduleStore}
use borgmatic_manager.Scheduler.{
  Scheduler, min_wake, not_positive, sooner, note_attempt, wake_for_group, wake_for_retries,
  at_least, wake_with, next_wake,
}

sooner-le : (now : Time) (wake : Duration) (t : Time) → sooner now wake t ≤ℤ wake
unfolding sooner
sooner-le now wake t = ground arith

sooner-le_deadline : (now : Time) (wake : Duration) (t : Time) → sooner now wake t ≤ℤ sub t now
unfolding sooner
sooner-le_deadline now wake t = ground arith

-- A loop over a map that only ever shortens a duration.
module _ {V : Type 0} (f : Duration → String × V → Duration)
    (shrinks : (w : Duration) (e : String × V) → f w e ≤ℤ w) where
  loop-le : (w : Duration) (m : GoMap V) → foldl f w m ≤ℤ w
  loop-le w [] = omega arith
  loop-le w (e ∷ m) = omega (arith, loop-le (f w e) m, shrinks w e)

  loop-le_entry :
      (w bound : Duration) (m : GoMap V) (k : String) (v : V)
      → ((w' : Duration) → f w' (k, v) ≤ℤ bound)
      → get m k ≡ some v
      → foldl f w m ≤ℤ bound
  unfolding get
  loop-le_entry w bound [] k v hits h = cc
  loop-le_entry w bound ((j, u) ∷ m) k v hits h = elim (Bool-cases (j == k)) [
    | inl same ↦
        let value : u ≡ v = ground arith in
        let hit : f w (j, u) ≤ℤ bound = rw ((eq_iff j k).0 same, value) (hits w) in
        omega (arith, loop-le (f w (j, u)) m, hit)
    | inr other ↦ loop-le_entry (f w (j, u)) bound m k v hits (ground arith)
  ]

wake_for_group-le :
    (s : Scheduler) (now : Time) (w : Duration) (e : String × GroupRecord)
    → wake_for_group s now w e ≤ℤ w
unfolding wake_for_group
wake_for_group-le s now w e =
    ground
      (arith, sooner-le now w (add e.1.last_success (get_or s.period (get s.group_periods e.0))))

-- The record of a group as the loop over the attempts leaves it.
abbrev pub noted : Option GroupRecord → Option Time → Option GroupRecord
noted o none = o
noted o (some attempt) =
    let rec = get_or zero_group_record o in
    if after attempt rec.last_success then some (record rec { last_success = attempt }) else o

get-note_once :
    (records : GoMap GroupRecord) (j : String) (t : Time) (name : String)
    → get (note_attempt records (j, t)) name
      ≡ (if j == name then noted (get records name) (some t) else get records name)
unfolding note_attempt
get-note_once records j t name =
    let rec = get_or zero_group_record (get records j) in
    ground (arith, eq_iff j name, get-put records j name (record rec { last_success = t }))

get-note_attempt :
    (records : GoMap GroupRecord) (attempts : GoMap Time) (name : String)
    → IsMap attempts
    → get (foldl note_attempt records attempts) name ≡ noted (get records name) (get attempts name)
unfolding get
get-note_attempt records [] name m = refl
get-note_attempt records ((j, t) ∷ attempts) name m =
    get-note_attempt (note_attempt records (j, t)) attempts name m.1
    ∙ rw (get-note_once records j t name) (elim (Bool-cases (j == name)) [
      | inl same ↦
          let only : get attempts name ≡ none = rw (← ((eq_iff j name).0 same)) m.0 in
          rw (same, only) refl
      | inr other ↦ rw other refl
    ])

-- No longer than the bound, but for the floor.
abbrev pub NoLater : Duration → Duration → Type 0
NoLater wake bound = (wake ≤ℤ bound) ⊎ (wake ≡ min_wake)

at_least-NoLater : (w bound : Duration) → w ≤ℤ bound → NoLater (at_least w) bound
unfolding at_least
at_least-NoLater w bound h = elim (Bool-cases (ltb_ℤ w min_wake)) [
  | inl short ↦ rw short (inr refl)
  | inr long ↦ rw long (inl h)
]

le-at_least : (w : Duration) → min_wake ≤ℤ at_least w
unfolding at_least
le-at_least w = elim (Bool-cases (ltb_ℤ w min_wake)) [
  | inl short ↦ rw short (omega arith)
  | inr long ↦ rw long (ground arith)
]

module _ (s : Scheduler) (now : Time) where
  abbrev locked_wake : Duration
  locked_wake = foldl (λ wake e. sooner now wake e.1) s.period s.locked_retry

  locked_wake-le : locked_wake ≤ℤ s.period
  locked_wake-le =
      loop-le (λ wake e. sooner now wake e.1) (λ w e. sooner-le now w e.1) s.period s.locked_retry

  retries-le_locked : wake_for_retries s now ≤ℤ locked_wake
  unfolding wake_for_retries
  retries-le_locked = elim (Bool-cases (is_zero s.pre_run_retry)) [
    | inl unset ↦ rw unset (omega arith)
    | inr set ↦ rw set (sooner-le now locked_wake s.pre_run_retry)
  ]

  retries-le_pre_run :
      is_zero s.pre_run_retry ≡ false → wake_for_retries s now ≤ℤ sub s.pre_run_retry now
  unfolding wake_for_retries
  retries-le_pre_run set = rw set (sooner-le_deadline now locked_wake s.pre_run_retry)

  retries-le_retry :
      (name : String) (t : Time)
      → get s.locked_retry name ≡ some t
      → wake_for_retries s now ≤ℤ sub t now
  retries-le_retry name t h = omega (
    arith,
    retries-le_locked,
    loop-le_entry (λ wake e. sooner now wake e.1) (λ w e. sooner-le now w e.1) s.period (sub t now)
        s.locked_retry name t (λ w. sooner-le_deadline now w t) h,
  )

  module _ (store : ScheduleStore) (known : s.store ≡ some store)
      (timed : not_positive s.period ≡ false) where
    abbrev records : GoMap GroupRecord
    records = foldl note_attempt store.groups s.last_attempt

    loop : Duration
    loop = foldl (wake_for_group s now) (wake_for_retries s now) records

    next_wake-loop : next_wake s now ≡ at_least loop
    unfolding next_wake wake_with loop
    next_wake-loop = rw known (rw timed refl)

    loop-le_retries : loop ≤ℤ wake_for_retries s now
    unfolding loop
    loop-le_retries =
        loop-le (wake_for_group s now) (wake_for_group-le s now) (wake_for_retries s now) records

    NoLater-bound : (bound : Duration) → loop ≤ℤ bound → NoLater (next_wake s now) bound
    NoLater-bound bound h = rw next_wake-loop (at_least-NoLater loop bound h)

    -- With a store and a positive global period, the sleep is at least the floor, and no longer
    -- than the period unless it is the floor.
    pub next_wake_range : (min_wake ≤ℤ next_wake s now) × NoLater (next_wake s now) s.period
    next_wake_range = (
      rw next_wake-loop (le-at_least loop),
      NoLater-bound s.period (omega (arith, loop-le_retries, retries-le_locked, locked_wake-le)),
    )

    -- With a store and a positive global period, the scheduler does not sleep past the retry of a
    -- group that another process had locked, unless that retry is nearer than the floor and the
    -- sleep is the floor.
    pub next_wake_locked :
        (name : String) (t : Time)
        → get s.locked_retry name ≡ some t
        → NoLater (next_wake s now) (sub t now)
    next_wake_locked name t h =
        NoLater-bound (sub t now) (omega (arith, loop-le_retries, retries-le_retry name t h))

    -- With a store and a positive global period, the scheduler does not sleep past a pending retry
    -- of a cycle that the pre-run check stopped, unless the sleep is the floor.
    pub next_wake_pre_run :
        is_zero s.pre_run_retry ≡ false → NoLater (next_wake s now) (sub s.pre_run_retry now)
    next_wake_pre_run set =
        NoLater-bound (sub s.pre_run_retry now)
          (omega (arith, loop-le_retries, retries-le_pre_run set))

    -- With a store and a positive global period, the scheduler does not sleep past the end of the
    -- period of a recorded or attempted group that is present, counted from its last success or its
    -- newer attempt and with its own period if it has one, unless the sleep is the floor.
    pub next_wake_group :
        (name : String) (rec : GroupRecord)
        → IsMap s.last_attempt
        → noted (get store.groups name) (get s.last_attempt name) ≡ some rec
        → ltb_ℤ (pos 0) rec.missing_cycles ≡ false
        → NoLater
            (next_wake s now)
            (sub (add rec.last_success (get_or s.period (get s.group_periods name))) now)
    unfolding loop wake_for_group
    next_wake_group name rec d h present = NoLater-bound _ (
        loop-le_entry (wake_for_group s now) (wake_for_group-le s now) (wake_for_retries s now) _
          records name rec (λ w. rw present (sooner-le_deadline now w _))
          (get-note_attempt store.groups s.last_attempt name d ∙ h))

    -- With a store and a positive global period under the floor, the scheduler sleeps longer than
    -- the period.
    pub next_wake_over_period : s.period <ℤ min_wake → s.period <ℤ next_wake s now
    next_wake_over_period short = omega (arith, next_wake_range)
