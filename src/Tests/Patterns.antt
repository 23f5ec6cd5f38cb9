-- ===== src/Tests/Patterns.antt =====
-- A pattern with a star, against a format of alternatives and digits (internal/config/generate.go).
use borgmatic_manager.Prelude.{ℕ, ◌≡◌, ◌↔◌, refl, true, false, List, [], ◌∷◌, arith}
use borgmatic_manager.Config.ArchivePatterns.{
  Position, FormatSegment, in_spans, add_span, class_from, class_set, parse_char_class,
  pattern_element, past_stars, star_closure, step_from, step_states, consume, takes_from,
  some_digit, consume_digits, earliest, boundaries, consume_alts, consume_segment, at_end,
  match_segments, pattern_matches_format, pattern_overmatches,
}
use borgmatic_manager.Config.ArchivePatterns.Names.{
  Matches, nothing, star_over, star_more, element, this_alt, later_alt, anything, number, one_of,
  Makes, ended, filled,
}
use borgmatic_manager.Config.ArchivePatterns.Exact.{pattern_overmatches-Makes}
use borgmatic_manager.Config.ArchivePatterns.Claims.{pattern_overmatches-Matches}

program : Unit {0}
unfolding in_spans add_span class_from class_set parse_char_class pattern_element past_stars
    star_closure step_from step_states consume takes_from some_digit consume_digits earliest
    boundaries consume_alts consume_segment at_end match_segments pattern_matches_format
    pattern_overmatches
program = tt

-- `[a-c]*7`.
abbrev pattern : Position
pattern = b'[' ∷ b'a' ∷ b'-' ∷ b'c' ∷ b']' ∷ b'*' ∷ b'7' ∷ []

-- One of two letters; anything; one digit.
abbrev letter : FormatSegment
letter = record { alts = (b'x' ∷ []) ∷ (b'b' ∷ []) ∷ []; digits = 0; any = false }

abbrev free : FormatSegment
free = record { alts = []; digits = 0; any = true }

abbrev digit : FormatSegment
digit = record { alts = []; digits = 1; any = false }

abbrev format : List FormatSegment
format = letter ∷ free ∷ digit ∷ []

-- `b-7`.
abbrev name : List ℕ
name = b'b' ∷ b'-' ∷ b'7' ∷ []

name_made : Makes format name
name_made =
    filled letter (free ∷ digit ∷ []) (b'b' ∷ []) (b'-' ∷ b'7' ∷ [])
      (one_of (b'b' ∷ []) refl refl (later_alt (b'x' ∷ []) _ (this_alt [])))
      (filled free (digit ∷ []) (b'-' ∷ []) (b'7' ∷ []) (anything (b'-' ∷ []) refl) (
        filled digit [] (b'7' ∷ []) [] (number (b'7' ∷ []) refl (omega arith) refl (refl, tt))
          ended))

name_matched : Matches pattern name
unfolding program
name_matched = element b'[' _ b'b' _ refl refl (
    star_more b'*' _ b'-' _ refl
      (star_over b'*' _ _ refl (element b'7' [] b'7' [] refl refl nothing)))

pattern_overmatches-Matches_example : pattern_overmatches pattern format ≡ true
pattern_overmatches-Matches_example =
    pattern_overmatches-Matches pattern format name name_made name_matched

-- `[a-c]*7` claims some name of a letter and a digit.
pattern_overmatches-Makes_example :
    (pattern_overmatches pattern (letter ∷ digit ∷ []) ≡ true)
    ↔ ((name : List ℕ) × Makes (letter ∷ digit ∷ []) name × Matches pattern name)
pattern_overmatches-Makes_example =
    pattern_overmatches-Makes pattern (letter ∷ digit ∷ []) refl refl (refl, (refl, tt))

-- No name that begins with `x` is claimed.
never_overmatches :
    pattern_overmatches pattern ((record letter { alts = (b'x' ∷ []) ∷ [] }) ∷ digit ∷ []) ≡ false
unfolding program
never_overmatches = refl
