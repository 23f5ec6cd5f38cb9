-- ===== src/Events/Bursts.antt =====
-- How long a burst of events can hold its trigger back.
use borgmatic_manager.Prelude.{
  ◌≡◌, refl, sym, ap, ◌∙◌, get_or, false, none, some, arith, if◌then◌else◌,
}
use borgmatic_manager.Prelude.Int.{pos, ◌≤ℤ◌, ◌-ℤ◌, ltb_ℤ, int_laws}
use borgmatic_manager.GoTime.{Time, Duration, max_duration, min_duration, add, sub}
use borgmatic_manager.Events.{
  Listener, Pending, Stream, wait_for, extended, on_event, new_listener_with_debounce, times,
}

-- A listener whose durations are not negative and fit, with a cap of at least one debounce.
pub record IsListener (l : Listener) : Type 0 where
  pub positive : pos 0 ≤ℤ l.debounce_duration
  pub capped : l.debounce_duration ≤ℤ l.max_debounce_wait
  pub fits : l.max_debounce_wait ≤ℤ max_duration

pub new_listener_with_debounce-IsListener :
    (debounce : Duration)
    → pos 0 ≤ℤ debounce
    → times 6 debounce ≤ℤ max_duration
    → IsListener (new_listener_with_debounce debounce)
unfolding new_listener_with_debounce times
new_listener_with_debounce-IsListener debounce p f = record {
  positive = p;
  capped = omega int_laws;
  fits = f;
}

not_ltb : (a b : Duration) → b ≤ℤ a → ltb_ℤ a b ≡ false
not_ltb a b h = ground arith

-- A time in the cap of a burst is so near that its distance fits a duration.
sub_near :
    (first now : Time) (w : Duration)
    → first ≤ℤ now
    → now ≤ℤ add first w
    → w ≤ℤ max_duration
    → sub now first ≡ now -ℤ first
unfolding sub
sub_near first now w a b fits =
    rw
      (
        not_ltb max_duration (now -ℤ first) (omega int_laws),
        not_ltb (now -ℤ first) min_duration (omega int_laws),
      )
      refl

abbrev clamp : Duration → Duration → Duration
clamp r d = if ltb_ℤ r d then (if ltb_ℤ r (pos 0) then pos 0 else r) else d

clamp_range :
    (r d : Duration)
    → pos 0 ≤ℤ r
    → pos 0 ≤ℤ d
    → (pos 0 ≤ℤ clamp r d) × (clamp r d ≤ℤ d) × (clamp r d ≤ℤ r)
clamp_range r d a b = ground arith

module _ (l : Listener) (v : IsListener l) where
  -- The pending trigger after an event at `now`: not before it, at most a debounce after it, and at
  -- most the cap after the first event of the burst.
  abbrev pub Timely : Time → Time → Pending → Type 0
  Timely first now p =
      (p.burst_start ≡ first)
      × (now ≤ℤ p.fires)
      × (p.fires ≤ℤ add now l.debounce_duration)
      × (p.fires ≤ℤ add first l.max_debounce_wait)

  wait_for_range :
      (first now : Time)
      → first ≤ℤ now
      → now ≤ℤ add first l.max_debounce_wait
      → (pos 0 ≤ℤ wait_for l now first)
        × (wait_for l now first ≤ℤ l.debounce_duration)
        × (wait_for l now first ≤ℤ l.max_debounce_wait -ℤ (now -ℤ first))
  unfolding wait_for
  wait_for_range first now a b = rw (sub_near first now l.max_debounce_wait a b v.fits) (
      clamp_range (l.max_debounce_wait -ℤ (now -ℤ first)) l.debounce_duration (omega int_laws)
        v.positive)

  timed-Timely :
      (first now : Time)
      → first ≤ℤ now
      → now ≤ℤ add first l.max_debounce_wait
      → Timely first now (record { burst_start = first; fires = add now (wait_for l now first) })
  timed-Timely first now a b =
      let (low, short, capped) = wait_for_range first now a b in
      (refl, omega (int_laws, low), omega (int_laws, short), omega (int_laws, capped))

  extended-none-Timely : (now : Time) → Timely now now (extended l now none)
  unfolding extended
  extended-none-Timely now =
      timed-Timely now now (omega arith) (omega (int_laws, v.positive, v.capped))

  extended-some-Timely :
      (first last now : Time) (p : Pending)
      → Timely first last p
      → first ≤ℤ last
      → last ≤ℤ now
      → now ≤ℤ p.fires
      → Timely first now (extended l now (some p))
  unfolding extended
  extended-some-Timely first last now p (start, _, _, capped) a b c =
      rw start (timed-Timely first now (omega arith) (omega (arith, capped)))

  -- The stream after the events of a burst, and when the first and the last came: each comes no
  -- later than the timer that the one before it set.
  pub data Burst (first : Time) : Time → Stream → Type 0 where
    opens : (st : Stream) → st.pending ≡ none → Burst first first (on_event l first st)
    goes_on :
        {last : Time} {st : Stream}
        → Burst first last st
        → (now : Time) (p : Pending) → st.pending ≡ some p
        → last ≤ℤ now
        → now ≤ℤ p.fires
        → Burst first now (on_event l now st)

  burst_ordered : {first last : Time} {st : Stream} → Burst first last st → first ≤ℤ last
  burst_ordered (opens st idle) = omega arith
  burst_ordered (goes_on b now p set later prompt) = omega (arith, burst_ordered b, later)

  -- A burst of events of any length, each handled no later than the timer of the one before it,
  -- leaves one trigger pending: not before its last event, at most one debounce after it, and at
  -- most the cap after its first event, for a listener whose durations are in order.
  pub Burst-bounded :
      {first last : Time} {st : Stream}
      → Burst first last st
      → (p : Pending) × (st.pending ≡ some p) × Timely first last p
  unfolding on_event
  Burst-bounded {first} (opens st idle) =
      (extended l first none, rw idle refl, extended-none-Timely first)
  Burst-bounded {first} (goes_on {last} {st} b now q set later prompt) =
      let (p, had, timely) = Burst-bounded b in
      let soon : now ≤ℤ p.fires = rw (ap (get_or q) (sym set ∙ had)) at prompt in
      (
        extended l now (some p),
        rw had refl,
        extended-some-Timely first last now p timely (burst_ordered b) later soon,
      )
