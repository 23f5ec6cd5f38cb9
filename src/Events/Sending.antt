-- ===== src/Events/Sending.antt =====
-- `triggerSender` of internal/events/listener.go used by any number of goroutines at once: `send` and
-- the one deferred `close` of `Start`, action by action, under the mutex.
pub mod Calm
use borgmatic_manager.Prelude.{Bool, true, false, List, [], ◌∷◌, ◌++◌, if◌then◌else◌, ◌≡◌}
use borgmatic_manager.Events.{Channel, offer, close_channel, TriggerSender, new_sender}

-- A call of `send`: before the mutex, past it, past the test of the flag, past the channel, and past
-- the deferred unlock.
pub data SendCall : Type 0 where
  arriving entered tested leaving gone : SendCall

-- The call of `close`.
pub data CloseCall : Type 0 where
  awaited entered flagged leaving gone : CloseCall

pub record Shared : Type 0 where
  pub sender : TriggerSender
  -- `mu`.
  pub locked : Bool
  pub sends : List SendCall
  pub closing : CloseCall

-- `if t.closed { return }`.
unfoldable pub test_closed : TriggerSender → SendCall
test_closed t = if t.closed then SendCall.leaving else tested

pub data Turn (w : Shared) : Shared → Type 0 where
  -- A goroutine calls `send`.
  arrives : Turn w (record w { sends = arriving ∷ w.sends })
  locks :
      (early late : List SendCall)
      → w.sends ≡ early ++ arriving ∷ late
      → w.locked ≡ false
      → Turn w (record w { locked = true; sends = early ++ SendCall.entered ∷ late })
  tests :
      (early late : List SendCall)
      → w.sends ≡ early ++ SendCall.entered ∷ late
      → Turn w (record w { sends = early ++ test_closed w.sender ∷ late })
  offers :
      (early late : List SendCall)
      → w.sends ≡ early ++ tested ∷ late
      → Turn w (record w {
        sender = record w.sender { ch = offer w.sender.ch };
        sends = early ++ SendCall.leaving ∷ late;
      })
  unlocks :
      (early late : List SendCall)
      → w.sends ≡ early ++ SendCall.leaving ∷ late
      → Turn w (record w { locked = false; sends = early ++ SendCall.gone ∷ late })
  close_locks :
      w.closing ≡ awaited
      → w.locked ≡ false
      → Turn w (record w { locked = true; closing = CloseCall.entered })
  close_flags :
      w.closing ≡ CloseCall.entered
      → Turn w (record w { sender = record w.sender { closed = true }; closing = flagged })
  close_closes :
      w.closing ≡ flagged
      → Turn w (record w {
        sender = record w.sender { ch = close_channel w.sender.ch };
        closing = CloseCall.leaving;
      })
  close_unlocks :
      w.closing ≡ CloseCall.leaving → Turn w (record w { locked = false; closing = CloseCall.gone })
  -- The receiver takes a trigger.
  takes :
      Turn w (record w { sender = record w.sender { ch = record w.sender.ch { full = false } } })

abbrev pub at_first : Shared
at_first = record { sender = new_sender; locked = false; sends = []; closing = awaited }

-- What the goroutines can come to.
pub data Interleaved : Shared → Type 0 where
  begin : Interleaved at_first
  then_turn : {w w' : Shared} → Interleaved w → Turn w w' → Interleaved w'
