-- ===== src/Events/Sending/Calm.antt =====
-- No use of the trigger channel panics.
use borgmatic_manager.Prelude.{
  ℕ, ◌+◌, ◌≤◌, ◌≡◌, refl, sym, ap, ◌∙◌, Bool, true, false, List, [], ◌∷◌, ◌++◌, arith,
  if◌then◌else◌, Bool-cases, inl, inr,
}
use mathlib.Core.Bool.{false≢true}
use borgmatic_manager.Events.{offer, close_channel}
use borgmatic_manager.Events.Sending.{
  SendCall, arriving, tested, CloseCall, awaited, flagged, Shared, test_closed, Turn, arrives,
  locks, tests, offers, unlocks, close_locks, close_flags, close_closes, close_unlocks, takes,
  Interleaved, begin, then_turn,
}

-- Between lock and unlock.
abbrev holds : SendCall → ℕ
holds arriving = 0
holds SendCall.entered = 1
holds tested = 1
holds SendCall.leaving = 1
holds SendCall.gone = 0

abbrev close_holds : CloseCall → ℕ
close_holds awaited = 0
close_holds CloseCall.entered = 1
close_holds flagged = 1
close_holds CloseCall.leaving = 1
close_holds CloseCall.gone = 0

abbrev may_offer : SendCall → ℕ
may_offer tested = 1
may_offer _ = 0

-- Whether `close` has set the flag, and whether it has closed the channel.
abbrev has_flagged : CloseCall → Bool
has_flagged awaited = false
has_flagged CloseCall.entered = false
has_flagged _ = true

abbrev has_closed : CloseCall → Bool
has_closed CloseCall.leaving = true
has_closed CloseCall.gone = true
has_closed _ = false

abbrev total : (SendCall → ℕ) → List SendCall → ℕ
total f [] = 0
total f (x ∷ xs) = f x + total f xs

total-split :
    (f : SendCall → ℕ) (early late : List SendCall) (x : SendCall)
    → total f (early ++ x ∷ late) ≡ total f early + f x + total f late
total-split f [] late x = omega arith
total-split f (y ∷ early) late x = omega (arith, total-split f early late x)

-- Who may offer holds the mutex.
total-less : (xs : List SendCall) → total may_offer xs ≤ total holds xs
total-less [] = omega arith
total-less (arriving ∷ xs) = omega (arith, total-less xs)
total-less (SendCall.entered ∷ xs) = omega (arith, total-less xs)
total-less (tested ∷ xs) = omega (arith, total-less xs)
total-less (SendCall.leaving ∷ xs) = omega (arith, total-less xs)
total-less (SendCall.gone ∷ xs) = omega (arith, total-less xs)

abbrev held_by : Bool → ℕ
held_by b = if b then 1 else 0

-- The mutex has one holder; the flag and the channel are as `close` left them; nobody who saw an open
-- channel is there once the flag is set.
record IsGuarded (w : Shared) : Type 0 where
  one : total holds w.sends + close_holds w.closing ≡ held_by w.locked
  flag : w.sender.closed ≡ has_flagged w.closing
  channel : w.sender.ch.closed ≡ has_closed w.closing
  fresh : has_flagged w.closing ≡ true → total may_offer w.sends ≡ 0
  calm : w.sender.ch.panicked ≡ false

-- One call of `send` goes on.
total-moved :
    (f : SendCall → ℕ) {xs : List SendCall} (early late : List SendCall) (x y : SendCall)
    → xs ≡ early ++ x ∷ late
    → total f (early ++ y ∷ late) + f x ≡ total f xs + f y
total-moved f early late x y e =
    omega (arith, ap (total f) e, total-split f early late x, total-split f early late y)

closed-flagged : (c : CloseCall) → has_closed c ≡ true → has_flagged c ≡ true
closed-flagged awaited e = cc
closed-flagged CloseCall.entered e = cc
closed-flagged flagged e = cc
closed-flagged CloseCall.leaving e = refl
closed-flagged CloseCall.gone e = refl

-- A call of `send` that is about to send finds the channel open.
still_open :
    (w : Shared) (early late : List SendCall)
    → w.sends ≡ early ++ tested ∷ late
    → IsGuarded w
    → w.sender.ch.closed ≡ false
still_open w early late e g = elim (Bool-cases w.sender.ch.closed) [
  | inr opened ↦ opened
  | inl shut ↦
      let none_left = g.fresh (closed-flagged w.closing (sym g.channel ∙ shut)) in
      absurd
        (omega (arith, none_left, ap (total may_offer) e, total-split may_offer early late tested))
]

Turn-IsGuarded : {w w' : Shared} → Turn w w' → IsGuarded w → IsGuarded w'
unfolding test_closed offer close_channel
Turn-IsGuarded arrives g = record {
  one = omega (arith, g.one);
  flag = g.flag;
  channel = g.channel;
  fresh = λ q. omega (arith, g.fresh q);
  calm = g.calm;
}
Turn-IsGuarded {w} (locks early late e free) g =
    let moved = total-moved holds early late arriving SendCall.entered e in
    let unseen = total-moved may_offer early late arriving SendCall.entered e in
    record {
      one = ground (arith, g.one, moved, free);
      flag = g.flag;
      channel = g.channel;
      fresh = λ q. omega (arith, unseen, g.fresh q);
      calm = g.calm;
    }
Turn-IsGuarded {w} (tests early late e) g = elim (Bool-cases w.sender.closed) [
  | inl shut ↦
      let moved = total-moved holds early late SendCall.entered SendCall.leaving e in
      let unseen = total-moved may_offer early late SendCall.entered SendCall.leaving e in
      rw shut (record {
        one = omega (arith, g.one, moved);
        flag = sym shut ∙ g.flag;
        channel = g.channel;
        fresh = λ q. omega (arith, unseen, g.fresh q);
        calm = g.calm;
      })
  | inr opened ↦
      let moved = total-moved holds early late SendCall.entered tested e in
      rw opened (record {
        one = omega (arith, g.one, moved);
        flag = sym opened ∙ g.flag;
        channel = g.channel;
        fresh = λ q. absurd (false≢true (sym opened ∙ g.flag ∙ q));
        calm = g.calm;
      })
]
Turn-IsGuarded {w} (offers early late e) g =
    let moved = total-moved holds early late tested SendCall.leaving e in
    let unseen = total-moved may_offer early late tested SendCall.leaving e in
    let opened = still_open w early late e g in
    record {
      one = omega (arith, g.one, moved);
      flag = g.flag;
      channel = rw opened (sym opened ∙ g.channel);
      fresh = λ q. omega (arith, unseen, g.fresh q);
      calm = rw opened g.calm;
    }
Turn-IsGuarded {w} (unlocks early late e) g =
    let moved = total-moved holds early late SendCall.leaving SendCall.gone e in
    let unseen = total-moved may_offer early late SendCall.leaving SendCall.gone e in
    record {
      one = ground (arith, g.one, moved);
      flag = g.flag;
      channel = g.channel;
      fresh = λ q. omega (arith, unseen, g.fresh q);
      calm = g.calm;
    }
Turn-IsGuarded {w} (close_locks early free) g = record {
  one = ground (arith, g.one, ap close_holds early, free);
  flag = g.flag ∙ ap has_flagged early;
  channel = g.channel ∙ ap has_closed early;
  fresh = λ q. absurd (false≢true q);
  calm = g.calm;
}
Turn-IsGuarded {w} (close_flags inside) g = record {
  one = ground (arith, g.one, ap close_holds inside);
  flag = refl;
  channel = g.channel ∙ ap has_closed inside;
  fresh = λ q. ground (arith, g.one, ap close_holds inside, total-less w.sends);
  calm = g.calm;
}
Turn-IsGuarded {w} (close_closes inside) g =
    let opened : w.sender.ch.closed ≡ false = g.channel ∙ ap has_closed inside in
    record {
      one = ground (arith, g.one, ap close_holds inside);
      flag = g.flag ∙ ap has_flagged inside;
      channel = rw opened refl;
      fresh = λ q. g.fresh (ap has_flagged inside);
      calm = rw opened g.calm;
    }
Turn-IsGuarded {w} (close_unlocks inside) g = record {
  one = ground (arith, g.one, ap close_holds inside);
  flag = g.flag ∙ ap has_flagged inside;
  channel = g.channel ∙ ap has_closed inside;
  fresh = λ q. g.fresh (ap has_flagged inside);
  calm = g.calm;
}
Turn-IsGuarded takes g = record {
  one = g.one;
  flag = g.flag;
  channel = g.channel;
  fresh = g.fresh;
  calm = g.calm;
}

Interleaved-IsGuarded : {w : Shared} → Interleaved w → IsGuarded w
Interleaved-IsGuarded begin = record {
  one = refl;
  flag = refl;
  channel = refl;
  fresh = λ q. refl;
  calm = refl;
}
Interleaved-IsGuarded (then_turn r t) = Turn-IsGuarded t (Interleaved-IsGuarded r)

-- However many goroutines call `send`, and however their actions and those of the one `close`
-- interleave, nothing is sent on the closed channel and it is not closed twice.
pub sends_never_panic : (w : Shared) → Interleaved w → w.sender.ch.panicked ≡ false
sends_never_panic w r = (Interleaved-IsGuarded r).calm
