-- ===== src/Config/ArchivePatterns/Live.antt =====
-- The search through a pattern follows each name that the pattern matches.
use borgmatic_manager.Prelude.{
  ℕ, zero, suc, ◌+◌, ◌≤◌, ◌<◌, ◌≡◌, refl, subst, Bool, true, List, [], ◌∷◌, ◌++◌, arith, nat_eq,
  ltb, length, All, Bool-cases, inl, inr,
}
use borgmatic_manager.Config.ArchivePatterns.{
  Position, past_stars, star_closure, step_from, step_states, consume, takes_from, some_digit,
  consume_digits, consume_alts, at_end,
}
use borgmatic_manager.Config.ArchivePatterns.Positions.{
  Among, first, later, Among-append_left, Among-append_right, Among-flat,
}
use borgmatic_manager.Config.ArchivePatterns.Names.{
  Matches, nothing, star_over, star_more, element, is_digit, IsOneOf, this_alt, later_alt,
}

-- A position from which the name matches is among the positions, with those past its stars.
pub record Live (states : List Position) (name : List ℕ) : Type 0 where
  pub at : Position
  pub whole : (x : Position) → Among x (past_stars at) → Among x states
  pub matches : Matches at name

-- The closure of a set has a live position if the set has one to begin with.
pub closure-Live :
    {q : Position} {states : List Position} {name : List ℕ}
    → Among q states
    → Matches q name
    → Live (star_closure states) name
unfolding star_closure
closure-Live {q} a m = record { at = q; whole = λ x b. Among-flat past_stars a b; matches = m }

pub self_past : (q : Position) → Among q (past_stars q)
unfolding past_stars
self_past [] = first []
self_past (c ∷ rest) = first _

pub past_star :
    (c : ℕ) (rest : Position)
    → nat_eq c b'*' ≡ true
    → (x : Position) → Among x (past_stars rest)
    → Among x (past_stars (c ∷ rest))
unfolding past_stars
past_star c rest star x a = rw star (later (c ∷ rest) (past_stars rest) a)

pub at_end-Among : {states : List Position} → Among [] states → at_end states ≡ true
unfolding at_end
at_end-Among (first qs) = refl
at_end-Among (later p qs a) = ground (arith, at_end-Among a)

pub matches_end : {q : Position} → Matches q [] → Among [] (past_stars q)
unfolding past_stars
matches_end nothing = first []
matches_end (star_over c rest name star m) = past_star c rest star [] (matches_end m)

-- One character.
pub step_states-Live :
    (offer : (ℕ → Bool) → Bool) (q : Position) (r : ℕ) (name : List ℕ) (states : List Position)
    → ((accepts : ℕ → Bool) → accepts r ≡ true → offer accepts ≡ true)
    → ((x : Position) → Among x (past_stars q) → Among x states)
    → Matches q (r ∷ name)
    → Live (step_states offer states) name
unfolding step_states step_from
step_states-Live offer q r name states k sub (star_over c rest _ star m) =
    step_states-Live offer rest r name states k (λ x a. sub x (past_star c rest star x a)) m
step_states-Live offer q r name states k sub (star_more c rest _ _ star m) =
    closure-Live
      (Among-flat (step_from offer) (sub (c ∷ rest) (self_past (c ∷ rest))) (rw star (first []))) m
step_states-Live offer q r name states k sub (element c rest _ _ plain takes m) =
    closure-Live
      (Among-flat (step_from offer) (sub (c ∷ rest) (self_past (c ∷ rest)))
        (rw plain (rw (k _ takes) (first []))))
      m

pub consume-Live :
    (text name : List ℕ) (states : List Position)
    → Live states (text ++ name)
    → Live (consume states text) name
unfolding consume
consume-Live [] name states v = v
consume-Live (r ∷ text) name states v = consume-Live text name _ (
    step_states-Live (λ accepts. accepts r) v.at r (text ++ name) states (λ a t. t) v.whole
      v.matches)

pub same_char : (r d : ℕ) → nat_eq r d ≡ true → r ≡ d
same_char r d e = ground arith

pub ltb-true : (n : ℕ) → 0 < n → ltb 0 n ≡ true
ltb-true n lt = ground arith

pub takes_some :
    (n d r : ℕ) (accepts : ℕ → Bool)
    → d ≤ r
    → r < d + n
    → accepts r ≡ true
    → takes_from n d accepts ≡ true
unfolding takes_from
takes_some zero d r accepts le lt a = absurd (omega (arith, le, lt))
takes_some (suc n) d r accepts le lt a = elim (Bool-cases (nat_eq r d)) [
  | inl same ↦ ground (arith, subst (λ x. accepts x ≡ true) (same_char r d same) a)
  | inr different ↦
      ground (arith, takes_some n (suc d) r accepts (ground arith) (omega (arith, lt)) a)
]

pub a_digit :
    (r : ℕ)
    → is_digit r ≡ true
    → (accepts : ℕ → Bool) → accepts r ≡ true
    → some_digit accepts ≡ true
unfolding some_digit
a_digit r d accepts a = takes_some 10 b'0' r accepts (ground arith) (ground arith) a

pub consume_digits-Live :
    (n : ℕ) (text name : List ℕ) (states : List Position)
    → length text ≡ n
    → All (λ r. is_digit r ≡ true) text
    → Live states (text ++ name)
    → Live (consume_digits states n) name
unfolding consume_digits
consume_digits-Live zero [] name states e ds v = v
consume_digits-Live zero (r ∷ text) name states e ds v = absurd (omega (arith, e))
consume_digits-Live (suc n) [] name states e ds v = absurd (omega (arith, e))
consume_digits-Live (suc n) (r ∷ text) name states e ds v =
    consume_digits-Live n text name _ (omega (arith, e)) ds.1
      (step_states-Live some_digit v.at r (text ++ name) states (a_digit r ds.0) v.whole v.matches)

pub Live-more :
    {s t : List Position} {name : List ℕ}
    → ((x : Position) → Among x s → Among x t)
    → Live s name
    → Live t name
Live-more k v = record { at = v.at; whole = λ x a. k x (v.whole x a); matches = v.matches }

pub consume_alts-Live :
    (text name : List ℕ) (alts : List (List ℕ)) (states : List Position)
    → IsOneOf text alts
    → Live states (text ++ name)
    → Live (consume_alts states alts) name
unfolding consume_alts
consume_alts-Live text name _ states (this_alt alts) v =
    Live-more (λ x a. Among-append_left (consume_alts states alts) a)
      (consume-Live text name states v)
consume_alts-Live text name _ states (later_alt alt alts o) v =
    Live-more (λ x a. Among-append_right (consume states alt) a)
      (consume_alts-Live text name alts states o v)
