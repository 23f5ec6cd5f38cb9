-- ===== src/Config/ArchivePatterns/Claims.antt =====
-- A format that can make a name that a pattern claims is never missed.
use borgmatic_manager.Prelude.{
  ℕ, zero, suc, ◌≤◌, ◌≡◌, refl, subst, sym, true, false, ◌||◌, List, [], ◌∷◌, ◌++◌, arith, ltb,
  if_both, length, is_empty, All,
}
use borgmatic_manager.Config.ArchivePatterns.{
  Position, FormatSegment, pattern_element, star_closure, earliest, boundaries, consume_segment,
  match_segments, pattern_matches_format, pattern_overmatches,
}
use borgmatic_manager.Config.ArchivePatterns.Chain.{
  Onward, here, ahead, Onward-trans, Onward-linear, star_after, pattern_element-shorter,
}
use borgmatic_manager.Config.ArchivePatterns.Positions.{
  OnChain, star_closure-OnChain, consume_digits-OnChain, consume_alts-OnChain, boundaries-OnChain,
  Among, first, later, earliest-bounds, earliest-OnChain,
}
use borgmatic_manager.Config.ArchivePatterns.Names.{
  Matches, star_over, star_more, element, Fills, anything, number, one_of, Makes, ended, filled,
}
use borgmatic_manager.Config.ArchivePatterns.Live.{
  Live, closure-Live, self_past, at_end-Among, matches_end, ltb-true, consume_digits-Live,
  consume_alts-Live,
}

-- After any text, the rest of the name matches from a position further on.
record Further (q : Position) (name : List ℕ) : Type 0 where
  at : Position
  onward : Onward at q
  matches : Matches at name

-- The name is what some text leaves of the whole.
data Leaves (name : List ℕ) : List ℕ → Type 0 where
  nothing_read : Leaves name name
  one_read : (r : ℕ) (whole : List ℕ) → Leaves name whole → Leaves name (r ∷ whole)

text-Leaves : (text name : List ℕ) → Leaves name (text ++ name)
text-Leaves [] name = nothing_read
text-Leaves (r ∷ text) name = one_read r (text ++ name) (text-Leaves text name)

Further-ahead :
    {name : List ℕ} (c : ℕ) (rest : Position)
    → Further (pattern_element c rest).1 name
    → Further (c ∷ rest) name
Further-ahead c rest f = record { at = f.at; onward = ahead c rest f.onward; matches = f.matches }

further :
    {name whole : List ℕ} {q : Position} → Leaves name whole → Matches q whole → Further q name
further {q = q} nothing_read m = record { at = q; onward = here; matches = m }
further {name} (one_read r whole l) (star_over c rest _ star m) =
    Further-ahead c rest
      (subst (λ x. Further x name) (sym (star_after c rest star)) (further (one_read r whole l) m))
further (one_read r whole l) (star_more c rest _ _ star m) = further l m
further (one_read r whole l) (element c rest _ _ o t m) = Further-ahead c rest (further l m)

-- The loop over the boundaries finds every position further on.
Onward-Among : (n : ℕ) (lo q : Position) → length lo ≤ n → Onward q lo → Among q (boundaries n lo)
unfolding boundaries
Onward-Among zero [] q le here = first []
Onward-Among zero (c ∷ rest) q le o = absurd (omega (arith, le))
Onward-Among (suc n) [] q le here = first []
Onward-Among (suc n) (c ∷ rest) q le here = first _
Onward-Among (suc n) (c ∷ rest) q le (ahead _ _ o) = later _ _ (
    Onward-Among n (pattern_element c rest).1 q (omega (arith, le, pattern_element-shorter c rest))
      o)

All-Among : (P : Position → Type 0) {q : Position} {s : List Position} → Among q s → All P s → P q
All-Among P (first qs) ps = ps.0
All-Among P (later p qs a) ps = All-Among P a ps.1

Among-nonempty : {q : Position} {s : List Position} → Among q s → is_empty s ≡ false
Among-nonempty (first qs) = refl
Among-nonempty (later p qs a) = refl

module _ (p : Position) where
  earliest_on :
      {q : Position} (s : List Position) → Among q s → All (OnChain p) s → OnChain p (earliest s)
  earliest_on [] a ps = elim a [ ]
  earliest_on (x ∷ s) a ps = earliest-OnChain p x s ps

  -- A segment that can be anything.
  any-Live :
      (states : List Position) (text name : List ℕ)
      → All (OnChain p) states
      → Live states (text ++ name)
      → Live (star_closure (boundaries (length (earliest states)) (earliest states))) name
  any-Live states text name ps v =
      let found = v.whole v.at (self_past v.at) in
      let f = further (text-Leaves text name) v.matches in
      closure-Live
        (Onward-Among (length (earliest states)) (earliest states) f.at (omega arith) (
          Onward-trans f.onward (
            Onward-linear (earliest_on states found ps) (All-Among (OnChain p) found ps)
              (earliest-bounds found))))
        f.matches

  segment-Live :
      (seg : FormatSegment) (states : List Position) (text name : List ℕ)
      → Fills seg text
      → All (OnChain p) states
      → Live states (text ++ name)
      → Live (consume_segment seg states) name
  unfolding consume_segment
  segment-Live seg states _ name (anything text e) ps v = rw e (any-Live states text name ps v)
  segment-Live seg states _ name (number text a d e ds) ps v =
      rw a (rw (ltb-true seg.digits d) (consume_digits-Live seg.digits text name states e ds v))
  segment-Live seg states _ name (one_of text a d o) ps v =
      rw a (rw d (consume_alts-Live text name seg.alts states o v))

  segment-OnChain :
      (seg : FormatSegment) {q : Position} (states : List Position)
      → Among q states
      → All (OnChain p) states
      → All (OnChain p) (consume_segment seg states)
  unfolding consume_segment
  segment-OnChain seg states a ps =
      if_both (All (OnChain p)) seg.any _ _
        (star_closure-OnChain p _ (
          boundaries-OnChain p (length (earliest states)) (earliest states) (omega arith)
            (earliest_on states a ps)))
        (if_both (All (OnChain p)) (ltb 0 seg.digits) _ _
          (consume_digits-OnChain p seg.digits states ps)
          (consume_alts-OnChain p seg.alts states ps))

  match_segments-Live :
      (segs : List FormatSegment) (states : List Position) (name : List ℕ)
      → Makes segs name
      → All (OnChain p) states
      → Live states name
      → match_segments segs states ≡ true
  unfolding match_segments
  match_segments-Live _ states _ ended ps v = at_end-Among (v.whole [] (matches_end v.matches))
  match_segments-Live _ states _ (filled seg segs text name f g) ps v =
      let next = segment-Live seg states text name f ps v in
      rw
        (match_segments-Live segs (consume_segment seg states) name g
          (segment-OnChain seg states (v.whole v.at (self_past v.at)) ps) next)
        (rw (Among-nonempty (next.whole next.at (self_past next.at))) (ground arith))

-- If a pattern matches a name that a format can make, `patternOvermatches` says so.
pub pattern_overmatches-Matches :
    (pattern : Position) (format : List FormatSegment) (name : List ℕ)
    → Makes format name
    → Matches pattern name
    → pattern_overmatches pattern format ≡ true
unfolding pattern_overmatches pattern_matches_format
pattern_overmatches-Matches pattern format name g m =
    if_both (λ b. b ≡ true) (is_empty pattern || is_empty format) true _ refl
      (match_segments-Live pattern format (star_closure (pattern ∷ [])) name g
        (star_closure-OnChain pattern (pattern ∷ []) (here, tt)) (closure-Live (first []) m))
