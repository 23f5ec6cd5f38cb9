-- ===== src/Events.antt =====
-- The event listener of internal/events/listener.go: the debounce of bursts of container events
-- (`processStream`), and the channel of triggers (`triggerSender`). The streams of the container
-- runtime are inputs of the steps. One step is one case of the `select` in the loop.
pub mod Sending
pub mod Bursts
pub mod Owed
use borgmatic_manager.Prelude.{
  ℕ, zero, suc, ◌*◌, Bool, true, false, not, Option, none, some, List, [], ◌∷◌, foldl,
  if◌then◌else◌, is_some,
}
use borgmatic_manager.Prelude.Int.{ℤ, pos, ◌+ℤ◌, ◌-ℤ◌, ltb_ℤ}
use borgmatic_manager.GoTime.{Time, Duration, second, add, sub}

-- `n * d` for a constant `n`.
unfoldable pub times : ℕ → Duration → Duration
times zero d = pos 0
times (suc n) d = d +ℤ times n d

abbrev pub default_debounce : Duration
default_debounce = pos (5 * second)

abbrev pub max_debounce_ratio : ℕ
max_debounce_ratio = 6

pub record Listener : Type 0 where
  pub debounce_duration : Duration
  pub max_debounce_wait : Duration
  pub backoff_duration : Duration

unfoldable pub new_listener_with_debounce : Duration → Listener
new_listener_with_debounce debounce = record {
  debounce_duration = debounce;
  max_debounce_wait = times max_debounce_ratio debounce;
  backoff_duration = pos (5 * second);
}

-- A channel with one place. A send on a closed channel and a second close panic.
pub record Channel : Type 0 where
  pub full : Bool
  pub closed : Bool
  pub panicked : Bool

-- `select { case ch <- struct{}{}: default: }`.
unfoldable pub offer : Channel → Channel
offer c = if c.closed then record c { panicked = true } else record c { full = true }

-- `close(ch)`.
unfoldable pub close_channel : Channel → Channel
close_channel c = if c.closed then record c { panicked = true } else record c { closed = true }

pub record TriggerSender : Type 0 where
  pub ch : Channel
  pub closed : Bool

abbrev pub new_sender : TriggerSender
new_sender = record {
  ch = record { full = false; closed = false; panicked = false };
  closed = false;
}

unfoldable pub send : TriggerSender → TriggerSender
send t = if t.closed then t else record t { ch = offer t.ch }

unfoldable pub close_sender : TriggerSender → TriggerSender
close_sender t = record { ch = close_channel t.ch; closed = true }

-- A pending debounce: `burstStart`, and when the timer fires.
pub record Pending : Type 0 where
  pub burst_start : Time
  pub fires : Time

-- The variables of `processStream`, and the sender. `timer` and `fire` are nil exactly when
-- nothing is pending.
pub record Stream : Type 0 where
  pub pending : Option Pending
  pub sender : TriggerSender

-- How long an event at `now` of a burst makes the trigger wait.
unfoldable pub wait_for : Listener → Time → Time → Duration
wait_for l now burst_start =
    let remaining = l.max_debounce_wait -ℤ sub now burst_start in
    if ltb_ℤ remaining l.debounce_duration
    then (if ltb_ℤ remaining (pos 0) then pos 0 else remaining)
    else l.debounce_duration

unfoldable pub extended : Listener → Time → Option Pending → Pending
extended l now none = record { burst_start = now; fires = add now (wait_for l now now) }
extended l now (some p) = record {
  burst_start = p.burst_start;
  fires = add now (wait_for l now p.burst_start);
}

-- `case evt := <-eventCh`.
unfoldable pub on_event : Listener → Time → Stream → Stream
on_event l now st = record st { pending = some (extended l now st.pending) }

-- `case <-fire`.
unfoldable pub on_fire : Stream → Stream
on_fire st = record { pending = none; sender = send st.sender }

-- The return of `processStream`: with its deferred function, and whether the context is cancelled.
unfoldable pub on_return : Bool → Stream → Stream
on_return cancelled st = elim st.pending [
  | none ↦ st
  | some p ↦ record { pending = none; sender = if cancelled then st.sender else send st.sender }
]

-- `reconnectLoop` opens the stream again.
unfoldable pub on_reconnect : Stream → Stream
on_reconnect st = record { pending = none; sender = send st.sender }

-- The receiver takes a trigger.
unfoldable pub on_take : Stream → Stream
on_take st = record st { sender = record st.sender { ch = record st.sender.ch { full = false } } }
