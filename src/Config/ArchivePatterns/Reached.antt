-- ===== src/Config/ArchivePatterns/Reached.antt =====
-- Every position that the search reaches is reached by a text that the format so far can make.
use mathlib.Core.Bool.{false≢true}
use borgmatic_manager.Prelude.{
  ℕ, zero, suc, ◌+◌, ◌≤◌, ◌<◌, ◌≡◌, refl, subst, sym, Bool, true, false, List, [], ◌∷◌, ◌++◌, arith,
  nat_eq, ltb, length, All, All-impl, All-append, Bool-cases, inl, inr,
}
use borgmatic_manager.Config.ArchivePatterns.{
  Position, FormatSegment, pattern_element, flat, past_stars, star_closure, step_from, step_states,
  consume, takes_from, some_digit, consume_digits, consume_alts, consume_segment,
}
use borgmatic_manager.Config.ArchivePatterns.Names.{
  Matches, star_over, star_more, element, is_digit, IsOneOf, this_alt, later_alt, Fills, number,
  one_of,
}
use borgmatic_manager.Config.ArchivePatterns.Positions.{All-flat}
use mathlib.Core.List.{append_assoc, append-nil}

takes-digit :
    (n d : ℕ) (accepts : ℕ → Bool)
    → takes_from n d accepts ≡ true
    → (r : ℕ) × ((d ≤ r) × (r < d + n)) × (accepts r ≡ true)
unfolding takes_from
takes-digit zero d accepts e = absurd (false≢true e)
takes-digit (suc n) d accepts e = elim (Bool-cases (accepts d)) [
  | inl takes ↦ (d, (omega arith, omega arith), takes)
  | inr refuses ↦
      let (r, (l, h), a) = takes-digit n (suc d) accepts (ground (arith, e, refuses)) in
      (r, (omega (arith, l), omega (arith, h)), a)
]

digit_taken :
    (accepts : ℕ → Bool)
    → some_digit accepts ≡ true
    → (r : ℕ) × (is_digit r ≡ true) × (accepts r ≡ true)
unfolding some_digit
digit_taken accepts e =
    let (r, (l, h), a) = takes-digit 10 b'0' accepts e in (r, ground (arith, l, h), a)

module _ (pattern : Position) where
  -- A text of this kind leads to position `x`.
  pub record LeadsTo (IsText : List ℕ → Type 0) (x : Position) : Type 0 where
    pub text : List ℕ
    pub is_text : IsText text
    pub leads : (name : List ℕ) → Matches x name → Matches pattern (text ++ name)

  pub past_stars-LeadsTo :
      (G : List ℕ → Type 0) (q : Position) → LeadsTo G q → All (LeadsTo G) (past_stars q)
  unfolding past_stars
  past_stars-LeadsTo G [] v = (v, tt)
  past_stars-LeadsTo G (c ∷ rest) v = elim (Bool-cases (nat_eq c b'*')) [
    | inl star ↦ rw star (
      v,
      past_stars-LeadsTo G rest (record {
        text = v.text;
        is_text = v.is_text;
        leads = λ name m. v.leads name (star_over c rest name star m);
      }),
    )
    | inr plain ↦ rw plain (v, tt)
  ]

  -- One more character, of a kind that `offer` tests for.
  module _ (G G' : List ℕ → Type 0) (R : ℕ → Type 0) (offer : (ℕ → Bool) → Bool) (r₀ : ℕ)
      (ok : R r₀)
      (found : (accepts : ℕ → Bool) → offer accepts ≡ true → (r : ℕ) × R r × (accepts r ≡ true))
      (more : (u : List ℕ) (r : ℕ) → G u → R r → G' (u ++ (r ∷ []))) where
    one_more :
        (q x : Position) (r : ℕ)
        → R r
        → LeadsTo G q
        → ((name : List ℕ) → Matches x name → Matches q (r ∷ name))
        → LeadsTo G' x
    one_more q x r d v k = record {
      text = v.text ++ (r ∷ []);
      is_text = more v.text r v.is_text d;
      leads = λ name m.
          subst (Matches pattern) (sym (append_assoc v.text (r ∷ []) name))
            (v.leads (r ∷ name) (k name m));
    }

    step_from-LeadsTo : (q : Position) → LeadsTo G q → All (LeadsTo G') (step_from offer q)
    unfolding step_from
    step_from-LeadsTo [] v = tt
    step_from-LeadsTo (c ∷ rest) v = elim (Bool-cases (nat_eq c b'*')) [
      | inl star ↦
          rw star
            (one_more (c ∷ rest) (c ∷ rest) r₀ ok v (λ name m. star_more c rest r₀ name star m), tt)
      | inr plain ↦ rw plain (elim (Bool-cases (offer (pattern_element c rest).0)) [
        | inl takes ↦
            let (r, d, a) = found (pattern_element c rest).0 takes in
            rw takes (
              one_more (c ∷ rest) (pattern_element c rest).1 r d v
                  (λ name m. element c rest r name plain a m),
              tt,
            )
        | inr refuses ↦ rw refuses tt
      ])
    ]

    step_states-LeadsTo :
        (states : List Position)
        → All (LeadsTo G) states
        → All (LeadsTo G') (step_states offer states)
    unfolding step_states star_closure
    step_states-LeadsTo states ps =
        All-flat (LeadsTo G') (LeadsTo G') past_stars (flat (step_from offer) states)
          (past_stars-LeadsTo G')
          (All-flat (LeadsTo G) (LeadsTo G') (step_from offer) states step_from-LeadsTo ps)

  consume-LeadsTo :
      (G G' : List ℕ → Type 0) (text : List ℕ) (states : List Position)
      → ((u : List ℕ) → G u → G' (u ++ text))
      → All (LeadsTo G) states
      → All (LeadsTo G') (consume states text)
  unfolding consume
  consume-LeadsTo G G' [] states k ps =
      All-impl states
        (λ x v. record {
          text = v.text;
          is_text = subst G' (append-nil v.text) (k v.text v.is_text);
          leads = v.leads;
        })
        ps
  consume-LeadsTo G G' (r ∷ text) states k ps =
      consume-LeadsTo (λ v. G' (v ++ text)) G' text _ (λ u g. g)
        (step_states-LeadsTo G (λ v. G' (v ++ text)) (λ x. x ≡ r) (λ accepts. accepts r) r refl
          (λ accepts a. (r, refl, a))
          (λ u x g e.
            subst G' (sym (append_assoc u (x ∷ []) text))
              (subst (λ y. G' (u ++ (y ∷ text))) (sym e) (k u g)))
          states ps)

  consume_digits-LeadsTo :
      (G G' : List ℕ → Type 0) (n : ℕ) (states : List Position)
      → ((u text : List ℕ)
          → G u
          → length text ≡ n
          → All (λ r. is_digit r ≡ true) text
          → G' (u ++ text))
      → All (LeadsTo G) states
      → All (LeadsTo G') (consume_digits states n)
  unfolding consume_digits
  consume_digits-LeadsTo G G' zero states k ps =
      All-impl states
        (λ x v. record {
          text = v.text;
          is_text = subst G' (append-nil v.text) (k v.text [] v.is_text refl tt);
          leads = v.leads;
        })
        ps
  consume_digits-LeadsTo G G' (suc n) states k ps =
      consume_digits-LeadsTo (AfterDigit n) G' n _ (λ u text g e ds. g text e ds)
        (step_states-LeadsTo G (AfterDigit n) (λ r. is_digit r ≡ true) some_digit b'0'
          (ground arith) digit_taken
          (λ u r g d text e ds.
            subst G' (sym (append_assoc u (r ∷ []) text))
              (k u (r ∷ text) g (omega (arith, e)) (d, ds)))
          states ps)
    where
      AfterDigit : ℕ → List ℕ → Type 0
      AfterDigit m v =
          (text : List ℕ) → length text ≡ m → All (λ r. is_digit r ≡ true) text → G' (v ++ text)

  consume_alts-LeadsTo :
      (G G' : List ℕ → Type 0) (alts : List (List ℕ)) (states : List Position)
      → ((u text : List ℕ) → G u → IsOneOf text alts → G' (u ++ text))
      → All (LeadsTo G) states
      → All (LeadsTo G') (consume_alts states alts)
  unfolding consume_alts
  consume_alts-LeadsTo G G' [] states k ps = tt
  consume_alts-LeadsTo G G' (alt ∷ alts) states k ps =
      All-append (LeadsTo G') (consume states alt) (consume_alts states alts)
        (consume-LeadsTo G G' alt states (λ u g. k u alt g (this_alt alts)) ps)
        (consume_alts-LeadsTo G G' alts states (λ u text g o. k u text g (later_alt alt alts o)) ps)

  pub segment-LeadsTo :
      (G G' : List ℕ → Type 0) (seg : FormatSegment) (states : List Position)
      → seg.any ≡ false
      → ((u text : List ℕ) → G u → Fills seg text → G' (u ++ text))
      → All (LeadsTo G) states
      → All (LeadsTo G') (consume_segment seg states)
  unfolding consume_segment
  segment-LeadsTo G G' seg states a k ps = rw a (elim (Bool-cases (ltb 0 seg.digits)) [
    | inl some_digits ↦ rw some_digits (
        consume_digits-LeadsTo G G' seg.digits states
          (λ u text g e ds. k u text g (number text a (ground arith) e ds)) ps)
    | inr no_digits ↦ rw no_digits (
        consume_alts-LeadsTo G G' seg.alts states
          (λ u text g o. k u text g (one_of text a (ground arith) o)) ps)
  ])
