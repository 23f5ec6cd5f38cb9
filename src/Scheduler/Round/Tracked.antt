-- ===== src/Scheduler/Round/Tracked.antt =====
-- What is tracked of the groups and marks of a round.
use borgmatic_manager.Prelude.{
  String, ◌≡◌, refl, sym, ap, ◌∙◌, Bool, true, false, Option, none, some, List, [], ◌∷◌, ◌++◌,
  arith, if◌then◌else◌, bind, is_some, contains, all, Bool-cases, inl, inr,
}
use borgmatic_manager.GoMap.{GoMap, IsMap, get, get-update_each, update_each-IsMap}
use mathlib.Core.Bool.{false≢true}
use borgmatic_manager.Scheduler.Round.{
  Launch, Round, only_live, Chosen, RoundStage, planning, retained, pruned, returned,
}

-- Every key of the map is a live group.
abbrev pub Covered : {V : Type 0} → List String → GoMap V → Type 0
Covered live m = (j : String) → is_some (get m j) ≡ true → contains live j ≡ true

pub bind-none : {V : Type 0} (o : Option V) → bind {B = V} o (λ v. none) ≡ none
bind-none none = refl
bind-none (some v) = refl

pub only_live-Covered :
    {V : Type 0} (live : List String) (m : GoMap V) → IsMap m → Covered live (only_live live m)
unfolding only_live
only_live-Covered live m d j h = elim (Bool-cases (contains live j)) [
  | inl here ↦ here
  | inr gone ↦
      let law = get-update_each (λ name v. if contains live name then some v else none) m j d in
      let dropped : get (only_live live m) j ≡ none = law ∙ rw gone (bind-none (get m j)) in
      absurd (ground (arith, dropped))
]

pub only_live-IsMap :
    {V : Type 0} (live : List String) (m : GoMap V) → IsMap m → IsMap (only_live live m)
unfolding only_live
only_live-IsMap live m d = update_each-IsMap _ m d

unfoldable pub all_live : List String → List Launch → Bool
all_live live = all (λ g. contains live g.group)

pub all_live-more :
    (live : List String) (name : String) (gs : List Launch)
    → all_live live gs ≡ true
    → all_live (name ∷ live) gs ≡ true
unfolding all_live
all_live-more live name [] h = refl
all_live-more live name (g ∷ gs) h = ground (arith, all_live-more live name gs)

pub all_live-split :
    (live : List String) (early late : List Launch) (g : Launch)
    → all_live live (early ++ g ∷ late) ≡ true
    → (all_live live (early ++ late) ≡ true) × (contains live g.group ≡ true)
unfolding all_live
all_live-split live [] late g h = ground arith
all_live-split live (x ∷ early) late g h = ground (arith, all_live-split live early late g)

-- The clean-up is done.
abbrev pub is_pruned : RoundStage → Bool
is_pruned pruned = true
is_pruned returned = true
is_pruned _ = false

abbrev pub is_planning : RoundStage → Bool
is_planning planning = true
is_planning _ = false

-- The loop is done, and after the clean-up only live groups have marks.
abbrev pub IsDone : Round → Type 0
IsDone r =
    (r.todo ≡ [])
    × (r.chosen ≡ none)
    × (is_pruned r.stage ≡ true
        → is_some r.scheduler.store ≡ true
        → Covered r.live r.scheduler.last_attempt × Covered r.live r.scheduler.locked_retry)

abbrev pub chosen_live : List String → Option Chosen → Bool
chosen_live live none = true
chosen_live live (some c) = contains live c.name

-- Only live groups are chosen, run and end.
pub record IsTracked (r : Round) : Type 0 where
  pub attempts_distinct : IsMap r.scheduler.last_attempt
  pub retries_distinct : IsMap r.scheduler.locked_retry
  pub choice_live : chosen_live r.live r.chosen ≡ true
  pub running_live : all_live r.live r.running ≡ true
  pub noted_live : all_live r.live r.noted ≡ true
  pub done : is_planning r.stage ≡ false → IsDone r

pub early-IsTracked :
    (r : Round)
    → r.stage ≡ planning
    → IsMap r.scheduler.last_attempt
    → IsMap r.scheduler.locked_retry
    → chosen_live r.live r.chosen ≡ true
    → all_live r.live r.running ≡ true
    → all_live r.live r.noted ≡ true
    → IsTracked r
early-IsTracked r early a l c v w = record {
  attempts_distinct = a;
  retries_distinct = l;
  choice_live = c;
  running_live = v;
  noted_live = w;
  done = λ (q : is_planning r.stage ≡ false). absurd (false≢true (sym q ∙ ap is_planning early));
}

-- While the loop is at a group, the function is in its loop.
pub still_planning :
    (r : Round) → IsTracked r → (r.todo ≡ [] → r.chosen ≡ none → ⊥) → r.stage ≡ planning
still_planning r t busy = at r.stage refl
  where
    late : is_planning r.stage ≡ false → ⊥
    late q = busy (t.done q).0 (t.done q).1

    at : (st : RoundStage) → r.stage ≡ st → st ≡ planning
    at planning e = refl
    at retained e = absurd (late (ap is_planning e))
    at pruned e = absurd (late (ap is_planning e))
    at returned e = absurd (late (ap is_planning e))
