-- ===== src/Tests/Triggers.antt =====
-- Bursts of events and their triggers (internal/events/listener.go).
use borgmatic_manager.Prelude.{◌≡◌, refl, ◌*◌, true, false, some, [], ◌∷◌, arith}
use borgmatic_manager.Prelude.Int.{pos, ◌+ℤ◌, ◌-ℤ◌}
use borgmatic_manager.GoTime.{second, sub}
use borgmatic_manager.Events.{
  Listener, new_listener_with_debounce, default_debounce, times, Stream, wait_for, extended,
  on_event, on_fire, on_return, on_take, send, offer, close_sender, close_channel,
}
use borgmatic_manager.Events.Sending.{
  SendCall, CloseCall, Shared, test_closed, arrives, locks, tests, offers, unlocks, close_locks,
  close_flags, close_closes, close_unlocks, Interleaved, begin, then_turn,
}
use borgmatic_manager.Events.Sending.Calm.{sends_never_panic}
use borgmatic_manager.Events.Bursts.{IsListener, new_listener_with_debounce-IsListener}
use borgmatic_manager.Events.Owed.{starts, sees, idle, is_owed, event_owed}

program : Unit {0}
unfolding new_listener_with_debounce times wait_for extended on_event on_fire on_return on_take send
    offer close_sender close_channel sub ◌+ℤ◌ ◌-ℤ◌
program = tt

abbrev listener : Listener
listener = new_listener_with_debounce default_debounce

-- The second event sets the timer anew; an event 28 seconds into the burst waits for 2 more.
abbrev two_events : Stream
two_events = on_event listener (pos (3 * second)) (on_event listener (pos 0) idle)

timer_moved : two_events.pending ≡ some (record { burst_start = pos 0; fires = pos (8 * second) })
unfolding program
timer_moved = refl

cap_nears : wait_for listener (pos (28 * second)) (pos 0) ≡ pos (2 * second)
unfolding program
cap_nears = refl

default-IsListener : IsListener listener
unfolding times ◌+ℤ◌
default-IsListener =
    new_listener_with_debounce-IsListener default_debounce (omega arith) (omega arith)

first_timer :
    (on_event listener (pos 0) idle).pending
    ≡ some (record { burst_start = pos 0; fires = pos (5 * second) })
unfolding program
first_timer = refl

event_owed_example :
    (is_owed two_events ≡ true) × ((on_return false two_events).sender.ch.full ≡ true)
event_owed_example = event_owed (sees (sees starts (pos 0)) (pos (3 * second))) refl

-- A goroutine has the mutex when `close` begins: it sends, the channel is closed, and a call that
-- comes later finds the flag.
abbrev interleaving : Shared
interleaving = record {
  sender = record { ch = record { full = true; closed = true; panicked = false }; closed = true };
  locked = true;
  sends = SendCall.leaving ∷ SendCall.gone ∷ [];
  closing = CloseCall.gone;
}

interleaved : Interleaved interleaving
unfolding program test_closed
interleaved =
    let first_send =
      then_turn
        (then_turn
          (then_turn (then_turn (then_turn begin arrives) (locks [] [] refl refl))
            (tests [] [] refl))
          (offers [] [] refl))
        (unlocks [] [] refl) in
    let closed =
      then_turn
        (then_turn
          (then_turn (then_turn (then_turn first_send arrives) (close_locks refl refl))
            (close_flags refl))
          (close_closes refl))
        (close_unlocks refl) in
    then_turn (then_turn closed (locks [] (SendCall.gone ∷ []) refl refl))
      (tests [] (SendCall.gone ∷ []) refl)

sends_never_panic_example : interleaving.sender.ch.panicked ≡ false
sends_never_panic_example = sends_never_panic interleaving interleaved
