-- ===== src/Config/ArchivePatterns/Exact.antt =====
-- For formats without a segment that can be anything, the search of `patternOvermatches` is exact.
use mathlib.Core.Bool.{false≢true}
use borgmatic_manager.Prelude.{
  ℕ, ◌≡◌, ◌↔◌, refl, subst, sym, true, false, List, [], ◌∷◌, ◌++◌, arith, is_empty, All,
}
use borgmatic_manager.Config.ArchivePatterns.{
  Position, FormatSegment, flat, past_stars, star_closure, consume_segment, at_end, match_segments,
  pattern_matches_format, pattern_overmatches,
}
use borgmatic_manager.Config.ArchivePatterns.Names.{Matches, nothing, Makes, ended, filled}
use borgmatic_manager.Config.ArchivePatterns.Positions.{All-flat}
use mathlib.Core.List.{append_assoc, append-nil}
use borgmatic_manager.Config.ArchivePatterns.Claims.{pattern_overmatches-Matches}
use borgmatic_manager.Config.ArchivePatterns.Reached.{LeadsTo, past_stars-LeadsTo, segment-LeadsTo}

module _ (pattern : Position) where
  at_end-LeadsTo :
      (G : List ℕ → Type 0) (states : List Position)
      → All (LeadsTo pattern G) states
      → at_end states ≡ true
      → (name : List ℕ) × G name × Matches pattern name
  unfolding at_end
  at_end-LeadsTo G [] ps e = absurd (false≢true e)
  at_end-LeadsTo G ([] ∷ qs) ps e = (
    ps.0.text,
    ps.0.is_text,
    subst (Matches pattern) (append-nil ps.0.text) (ps.0.leads [] nothing),
  )
  at_end-LeadsTo G ((c ∷ q) ∷ qs) ps e = at_end-LeadsTo G qs ps.1 e

  match_segments-LeadsTo :
      (G G' : List ℕ → Type 0) (segs : List FormatSegment) (states : List Position)
      → All (λ seg. seg.any ≡ false) segs
      → ((u rest : List ℕ) → G u → Makes segs rest → G' (u ++ rest))
      → All (LeadsTo pattern G) states
      → match_segments segs states ≡ true
      → (name : List ℕ) × G' name × Matches pattern name
  unfolding match_segments
  match_segments-LeadsTo G G' [] states cs k ps e =
      let (name, g, m) = at_end-LeadsTo G states ps e in
      (name, subst G' (append-nil name) (k name [] g ended), m)
  match_segments-LeadsTo G G' (seg ∷ segs) states cs k ps e =
      match_segments-LeadsTo (λ v. (rest : List ℕ) → Makes segs rest → G' (v ++ rest)) G' segs
        (consume_segment seg states) cs.1 (λ u rest g. g rest)
        (segment-LeadsTo pattern G _ seg states cs.0
          (λ u text g f rest m.
            subst G' (sym (append_assoc u text rest))
              (k u (text ++ rest) g (filled seg segs text rest f m)))
          ps)
        (ground arith)

overmatched :
    (pattern : Position) (format : List FormatSegment)
    → is_empty pattern ≡ false
    → is_empty format ≡ false
    → All (λ seg. seg.any ≡ false) format
    → pattern_overmatches pattern format ≡ true
    → (name : List ℕ) × Makes format name × Matches pattern name
unfolding pattern_overmatches pattern_matches_format star_closure
overmatched pattern format p f cs e =
    match_segments-LeadsTo pattern (λ u. u ≡ []) (Makes format) format
      (flat past_stars (pattern ∷ [])) cs
      (λ u rest e m. subst (λ v. Makes format (v ++ rest)) (sym e) m)
      (All-flat (LeadsTo pattern (λ u. u ≡ [])) (LeadsTo pattern (λ u. u ≡ [])) past_stars
        (pattern ∷ []) (past_stars-LeadsTo pattern (λ u. u ≡ []))
        (record { text = []; is_text = refl; leads = λ name m. m }, tt))
      (ground (arith, e))

-- For a format that is not empty and has no segment that can be anything, and a pattern that is not
-- empty, `patternOvermatches` is exact: it reports a claim if and only if the pattern matches some
-- name that the format makes.
pub pattern_overmatches-Makes :
    (pattern : Position) (format : List FormatSegment)
    → is_empty pattern ≡ false
    → is_empty format ≡ false
    → All (λ seg. seg.any ≡ false) format
    → (pattern_overmatches pattern format ≡ true)
      ↔ ((name : List ℕ) × Makes format name × Matches pattern name)
pattern_overmatches-Makes pattern format p f cs = (
  overmatched pattern format p f cs,
  λ (name, g, m). pattern_overmatches-Matches pattern format name g m,
)
