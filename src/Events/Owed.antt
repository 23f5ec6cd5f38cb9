-- ===== src/Events/Owed.antt =====
-- No event that the listener saw goes without a re-discovery after it.
use borgmatic_manager.Prelude.{
  ◌≡◌, refl, Bool, true, false, ◌||◌, none, arith, is_some, Option-cases, inl, inr,
}
use borgmatic_manager.GoTime.{Time}
use borgmatic_manager.Events.{
  Listener, Stream, TriggerSender, new_sender, offer, send, on_event, on_fire, on_return,
  on_reconnect, on_take,
}

abbrev pub idle : Stream
idle = record { pending = none; sender = new_sender }

-- A listener that is not shut down, from its start, with the flag that it saw an event since the
-- receiver last took a trigger. A stream that ends is opened again; a timer may fire at any time.
pub data Run (l : Listener) : Stream → Bool → Type 0 where
  starts : Run l idle false
  sees :
      {st : Stream} {unseen : Bool}
      → Run l st unseen
      → (now : Time) → Run l (on_event l now st) true
  fires :
      {st : Stream} {unseen : Bool}
      → Run l st unseen
      → is_some st.pending ≡ true
      → Run l (on_fire st) unseen
  breaks : {st : Stream} {unseen : Bool} → Run l st unseen → Run l (on_return false st) unseen
  reopens :
      {st : Stream} {unseen : Bool}
      → Run l st unseen
      → is_some st.pending ≡ false
      → Run l (on_reconnect st) unseen
  takes :
      {st : Stream} {unseen : Bool}
      → Run l st unseen
      → st.sender.ch.full ≡ true
      → Run l (on_take st) false

-- A trigger is in the channel, or a timer that will send one is set.
abbrev pub is_owed : Stream → Bool
is_owed st = st.sender.ch.full || is_some st.pending

record IsOpen (t : TriggerSender) : Type 0 where
  flag : t.closed ≡ false
  channel : t.ch.closed ≡ false

send-full : (t : TriggerSender) → IsOpen t → (send t).ch.full ≡ true
unfolding send offer
send-full t o = rw (o.flag, o.channel) refl

send-IsOpen : (t : TriggerSender) → IsOpen t → IsOpen (send t)
unfolding send offer
send-IsOpen t o = rw (o.flag, o.channel) (record { flag = refl; channel = refl })

return-IsOpen : (st : Stream) → IsOpen st.sender → IsOpen (on_return false st).sender
unfolding on_return
return-IsOpen st o = elim (Option-cases st.pending) [
  | inl quiet ↦ rw quiet o
  | inr (p, set) ↦ rw set (send-IsOpen st.sender o)
]

Run-IsOpen : {l : Listener} {st : Stream} {unseen : Bool} → Run l st unseen → IsOpen st.sender
unfolding on_event on_fire on_reconnect on_take
Run-IsOpen starts = record { flag = refl; channel = refl }
Run-IsOpen (sees r now) = Run-IsOpen r
Run-IsOpen (fires {st} r set) = send-IsOpen st.sender (Run-IsOpen r)
Run-IsOpen (breaks {st} r) = return-IsOpen st (Run-IsOpen r)
Run-IsOpen (reopens {st} r quiet) = send-IsOpen st.sender (Run-IsOpen r)
Run-IsOpen (takes r full) = let o = Run-IsOpen r in record { flag = o.flag; channel = o.channel }

return-full :
    (st : Stream)
    → IsOpen st.sender
    → is_owed st ≡ true
    → (on_return false st).sender.ch.full ≡ true
unfolding on_return
return-full st o owed = elim (Option-cases st.pending) [
  | inl quiet ↦ rw quiet (ground arith)
  | inr (p, set) ↦ rw set (send-full st.sender o)
]

Run-owed :
    {l : Listener} {st : Stream} {unseen : Bool}
    → Run l st unseen
    → unseen ≡ true
    → is_owed st ≡ true
unfolding on_event on_fire on_reconnect on_take
Run-owed starts u = cc
Run-owed (sees r now) u = ground arith
Run-owed (fires {st} r set) u = rw (send-full st.sender (Run-IsOpen r)) refl
Run-owed (breaks {st} r) u = rw (return-full st (Run-IsOpen r) (Run-owed r u)) refl
Run-owed (reopens {st} r quiet) u = rw (send-full st.sender (Run-IsOpen r)) refl
Run-owed (takes r full) u = cc

-- While the listener is not shut down, an event that came after the receiver last took a trigger is
-- owed one: it is in the channel, or a timer is set that sends it. If the stream breaks then, the
-- trigger is in the channel at once.
pub event_owed :
    {l : Listener} {st : Stream} {unseen : Bool}
    → Run l st unseen
    → unseen ≡ true
    → (is_owed st ≡ true) × ((on_return false st).sender.ch.full ≡ true)
event_owed r u = let owed = Run-owed r u in (owed, return-full _ (Run-IsOpen r) owed)
