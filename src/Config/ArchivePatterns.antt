-- ===== src/Config/ArchivePatterns.antt =====
-- The shell patterns of archive names in internal/config/generate.go: whether a group's pattern claims
-- an archive name that another group's format can make. A text is its list of characters, and a
-- position in a pattern is what stands there and after it; a set of positions is a list.
pub mod Chain
pub mod Positions
pub mod Names
pub mod Live
pub mod Reached
pub mod Exact
pub mod Claims
use borgmatic_manager.Prelude.{
  ℕ, zero, suc, Bool, true, false, not, ◌&&◌, ◌||◌, Option, none, some, List, [], ◌∷◌, ◌++◌, foldl,
  nat_eq, ltb, leb, if◌then◌else◌, length, is_empty, bind, contains,
}

-- A pattern from one position on.
abbrev pub Position : Type 0
Position = List ℕ

pub record Span : Type 0 where
  pub lo : ℕ
  pub hi : ℕ

-- One position in a format.
pub record FormatSegment : Type 0 where
  pub alts : List (List ℕ)
  pub digits : ℕ
  pub any : Bool

unfoldable pub in_spans : List Span → ℕ → Bool
in_spans [] r = false
in_spans (sp ∷ sps) r = leb sp.lo r && leb r sp.hi || in_spans sps r

unfoldable pub add_span : ℕ → ℕ → Option (List Span × Position) → Option (List Span × Position)
add_span lo hi none = none
add_span lo hi (some (spans, after)) =
    some (if leb lo hi then record { lo = lo; hi = hi } ∷ spans else spans, after)

-- The loop of `parseCharClass` from its next character on; the flag is `first`.
unfoldable pub class_from : Bool → Position → Option (List Span × Position)
unfolding add_span
class_from first [] = none
class_from first (c ∷ []) = if nat_eq c b']' && not first then some ([], []) else none
class_from first (c ∷ d ∷ []) =
    let rest = add_span c c (class_from false (d ∷ [])) in
    if nat_eq c b']' && not first then some ([], d ∷ []) else rest
class_from first (c ∷ d ∷ hi ∷ after) =
    let single = add_span c c (class_from false (d ∷ hi ∷ after)) in
    let range = add_span c hi (class_from false after) in
    if nat_eq c b']' && not first
    then some ([], d ∷ hi ∷ after)
    else if nat_eq d b'-' && not (nat_eq hi b']')
    then range
    else single

unfoldable pub class_set : Bool → List Span → ℕ → Bool
unfolding in_spans
class_set negated spans r = if in_spans spans r then not negated else negated

abbrev pub with_set : Bool → Option (List Span × Position) → Option ((ℕ → Bool) × Position)
with_set negated none = none
with_set negated (some (spans, after)) = some (class_set negated spans, after)

-- `parseCharClass`, after its bracket.
unfoldable pub parse_char_class : Position → Option ((ℕ → Bool) × Position)
unfolding class_from class_set
parse_char_class [] = none
parse_char_class (c ∷ rest) =
    if nat_eq c b'!' || nat_eq c b'^'
    then with_set true (class_from true rest)
    else with_set false (class_from true (c ∷ rest))

-- An unterminated bracket is a literal one.
abbrev pub bracket : Position → Option ((ℕ → Bool) × Position) → (ℕ → Bool) × Position
bracket rest none = (nat_eq b'[', rest)
bracket rest (some e) = e

-- `patternElement` at a character and what follows it.
unfoldable pub pattern_element : ℕ → Position → (ℕ → Bool) × Position
unfolding parse_char_class
pattern_element c rest =
    if nat_eq c b'?'
    then ((λ r. true), rest)
    else if nat_eq c b'['
    then bracket rest (parse_char_class rest)
    else (nat_eq c, rest)

-- The union of the sets that the positions give.
abbrev pub flat : (Position → List Position) → List Position → List Position
flat f [] = []
flat f (p ∷ ps) = f p ++ flat f ps

-- A position, and those that stars reach by matching nothing.
unfoldable pub past_stars : Position → List Position
past_stars [] = [] ∷ []
past_stars (c ∷ rest) = (c ∷ rest) ∷ (if nat_eq c b'*' then past_stars rest else [])

unfoldable pub star_closure : List Position → List Position
star_closure states = flat past_stars states

-- The loop body of `step`; `offer` is the caller's test.
unfoldable pub step_from : ((ℕ → Bool) → Bool) → Position → List Position
unfolding pattern_element
step_from offer [] = []
step_from offer (c ∷ rest) =
    if nat_eq c b'*'
    then (c ∷ rest) ∷ []
    else let (accepts, after) = pattern_element c rest in if offer accepts then after ∷ [] else []

unfoldable pub step_states : ((ℕ → Bool) → Bool) → List Position → List Position
step_states offer states = star_closure (flat (step_from offer) states)

-- `consume`; each step is `stepRune`.
unfoldable pub consume : List Position → List ℕ → List Position
unfolding step_states
consume states [] = states
consume states (r ∷ text) = consume (step_states (λ accepts. accepts r) states) text

-- The loop of `stepDigit` over the digits: one from `d` on, of so many, that the element takes.
unfoldable pub takes_from : ℕ → ℕ → (ℕ → Bool) → Bool
takes_from zero d accepts = false
takes_from (suc n) d accepts = accepts d || takes_from n (suc d) accepts

unfoldable pub some_digit : (ℕ → Bool) → Bool
some_digit = takes_from 10 b'0'

-- `consumeDigits`; each step is `stepDigit`.
unfoldable pub consume_digits : List Position → ℕ → List Position
unfolding step_states some_digit
consume_digits states zero = states
consume_digits states (suc n) = consume_digits (step_states some_digit states) n

-- The earliest of the positions, from the end of the pattern.
unfoldable pub earliest : List Position → Position
earliest [] = []
earliest (p ∷ ps) = let rest = earliest ps in if ltb (length rest) (length p) then p else rest

-- The loop from `lo` over the boundaries of elements; the fuel is the length of what is left.
unfoldable pub boundaries : ℕ → Position → List Position
boundaries zero p = [] ∷ []
boundaries (suc n) [] = [] ∷ []
boundaries (suc n) (c ∷ rest) = (c ∷ rest) ∷ boundaries n (pattern_element c rest).1

unfoldable pub consume_alts : List Position → List (List ℕ) → List Position
unfolding consume
consume_alts states [] = []
consume_alts states (alt ∷ alts) = consume states alt ++ consume_alts states alts

-- The positions after one segment of the format.
unfoldable pub consume_segment : FormatSegment → List Position → List Position
consume_segment seg states =
    if seg.any
    then (let lo = earliest states in star_closure (boundaries (length lo) lo))
    else if ltb 0 seg.digits
    then consume_digits states seg.digits
    else consume_alts states seg.alts

unfoldable pub at_end : List Position → Bool
at_end [] = false
at_end (p ∷ ps) = is_empty p || at_end ps

unfoldable pub match_segments : List FormatSegment → List Position → Bool
match_segments [] states = at_end states
match_segments (seg ∷ segs) states =
    let next = consume_segment seg states in
    let rest = match_segments segs next in if not seg.any && is_empty next then false else rest

unfoldable pub pattern_matches_format : Position → List FormatSegment → Bool
pattern_matches_format pattern segs = match_segments segs (star_closure (pattern ∷ []))

unfoldable pub pattern_overmatches : Position → List FormatSegment → Bool
pattern_overmatches pattern format =
    if is_empty pattern || is_empty format then true else pattern_matches_format pattern format
