-- ===== src/Config/ArchivePatterns/Positions.antt =====
-- All positions that are reached in a pattern stand on its chain of elements.
use borgmatic_manager.Prelude.{
  ℕ, zero, suc, ◌≤◌, ◌≡◌, subst, Bool, true, List, [], ◌∷◌, ◌++◌, arith, nat_eq, ltb, if_both,
  length, All, All-append, Bool-cases, inl, inr,
}
use borgmatic_manager.Config.ArchivePatterns.{
  Position, pattern_element, flat, past_stars, star_closure, step_from, step_states, consume,
  consume_digits, earliest, boundaries, consume_alts,
}
use borgmatic_manager.Config.ArchivePatterns.Chain.{
  Onward, here, ahead, Onward-trans, star_after, pattern_element-shorter,
}

pub All-flat :
    (P Q : Position → Type 0) (f : Position → List Position) (states : List Position)
    → ((q : Position) → P q → All Q (f q))
    → All P states
    → All Q (flat f states)
All-flat P Q f [] k ps = tt
All-flat P Q f (q ∷ qs) k ps = All-append Q (f q) (flat f qs) (k q ps.0) (All-flat P Q f qs k ps.1)

-- The element that a position starts with leads to a position on the same chain.
pub Onward-next :
    {p : Position} (c : ℕ) (rest : Position)
    → Onward (c ∷ rest) p
    → Onward (pattern_element c rest).1 p
Onward-next c rest o = Onward-trans (ahead c rest here) o

module _ (p : Position) where
  abbrev pub OnChain : Position → Type 0
  OnChain q = Onward q p

  past_stars-OnChain : (q : Position) → OnChain q → All OnChain (past_stars q)
  unfolding past_stars
  past_stars-OnChain [] o = (o, tt)
  past_stars-OnChain (c ∷ rest) o = elim (Bool-cases (nat_eq c b'*')) [
    | inl star ↦
        rw star (
          o,
          past_stars-OnChain rest (subst OnChain (star_after c rest star) (Onward-next c rest o)),
        )
    | inr other ↦ rw other (o, tt)
  ]

  pub star_closure-OnChain :
      (states : List Position) → All OnChain states → All OnChain (star_closure states)
  unfolding star_closure
  star_closure-OnChain states = All-flat OnChain OnChain past_stars states past_stars-OnChain

  step_from-OnChain :
      (offer : (ℕ → Bool) → Bool) (q : Position) → OnChain q → All OnChain (step_from offer q)
  unfolding step_from
  step_from-OnChain offer [] o = tt
  step_from-OnChain offer (c ∷ rest) o =
      if_both (All OnChain) (nat_eq c b'*') _ _ (o, tt)
        (if_both (All OnChain) (offer (pattern_element c rest).0) _ _ (Onward-next c rest o, tt) tt)

  pub step_states-OnChain :
      (offer : (ℕ → Bool) → Bool) (states : List Position)
      → All OnChain states
      → All OnChain (step_states offer states)
  unfolding step_states
  step_states-OnChain offer states ps =
      star_closure-OnChain _
        (All-flat OnChain OnChain (step_from offer) states (step_from-OnChain offer) ps)

  pub consume-OnChain :
      (text : List ℕ) (states : List Position)
      → All OnChain states
      → All OnChain (consume states text)
  unfolding consume
  consume-OnChain [] states ps = ps
  consume-OnChain (r ∷ text) states ps = consume-OnChain text _ (step_states-OnChain _ states ps)

  pub consume_digits-OnChain :
      (n : ℕ) (states : List Position) → All OnChain states → All OnChain (consume_digits states n)
  unfolding consume_digits
  consume_digits-OnChain zero states ps = ps
  consume_digits-OnChain (suc n) states ps =
      consume_digits-OnChain n _ (step_states-OnChain _ states ps)

  pub consume_alts-OnChain :
      (alts : List (List ℕ)) (states : List Position)
      → All OnChain states
      → All OnChain (consume_alts states alts)
  unfolding consume_alts
  consume_alts-OnChain [] states ps = tt
  consume_alts-OnChain (alt ∷ alts) states ps =
      All-append OnChain (consume states alt) (consume_alts states alts)
        (consume-OnChain alt states ps) (consume_alts-OnChain alts states ps)

  pub boundaries-OnChain :
      (n : ℕ) (lo : Position) → length lo ≤ n → OnChain lo → All OnChain (boundaries n lo)
  unfolding boundaries
  boundaries-OnChain zero [] le o = (o, tt)
  boundaries-OnChain zero (c ∷ rest) le o = absurd (omega (arith, le))
  boundaries-OnChain (suc n) [] le o = (o, tt)
  boundaries-OnChain (suc n) (c ∷ rest) le o = (
    o,
    boundaries-OnChain n (pattern_element c rest).1 (omega (arith, pattern_element-shorter c rest))
        (Onward-next c rest o),
  )

-- A position of a set.
pub data Among (q : Position) : List Position → Type 0 where
  first : (qs : List Position) → Among q (q ∷ qs)
  later : (p : Position) (qs : List Position) → Among q qs → Among q (p ∷ qs)

pub Among-append_left :
    {q : Position} {s : List Position} (t : List Position) → Among q s → Among q (s ++ t)
Among-append_left t (first qs) = first (qs ++ t)
Among-append_left t (later p qs a) = later p (qs ++ t) (Among-append_left t a)

pub Among-append_right :
    {q : Position} (s : List Position) {t : List Position} → Among q t → Among q (s ++ t)
Among-append_right [] a = a
Among-append_right (p ∷ s) {t} a = later p (s ++ t) (Among-append_right s a)

pub Among-flat :
    {q x : Position} {s : List Position} (f : Position → List Position)
    → Among q s
    → Among x (f q)
    → Among x (flat f s)
Among-flat {q} f (first qs) a = Among-append_left (flat f qs) a
Among-flat f (later p qs m) a = Among-append_right (f p) (Among-flat f m a)

-- The earliest position is one of the set, and none is longer.
pub earliest-bounds :
    {q : Position} {s : List Position} → Among q s → length q ≤ length (earliest s)
unfolding earliest
earliest-bounds {q} (first qs) = ground arith
earliest-bounds {q} (later p qs a) = ground (arith, earliest-bounds a)

ltb-suc : (n : ℕ) → ltb 0 (suc n) ≡ true
ltb-suc n = ground arith

pub earliest-OnChain :
    (p : Position) (q : Position) (qs : List Position)
    → All (OnChain p) (q ∷ qs)
    → OnChain p (earliest (q ∷ qs))
unfolding earliest
earliest-OnChain p [] [] ps = ps.0
earliest-OnChain p (c ∷ q) [] ps = rw (ltb-suc (length q)) ps.0
earliest-OnChain p q (r ∷ qs) ps =
    if_both (OnChain p) (ltb (length (earliest (r ∷ qs))) (length q)) q _ ps.0
      (earliest-OnChain p r qs ps.1)
