-- ===== src/Config/ArchivePatterns/Names.antt =====
-- What a pattern matches and what a format makes, apart from the search for a name that is both.
use borgmatic_manager.Prelude.{
  ℕ, ◌<◌, ◌≡◌, Bool, true, false, ◌&&◌, List, [], ◌∷◌, ◌++◌, nat_eq, leb, length, All,
}
use borgmatic_manager.Config.ArchivePatterns.{Position, FormatSegment, pattern_element}

-- The pattern matches the name: a star stands for any text, and every other element for one
-- character that it takes.
pub data Matches : Position → List ℕ → Type 0 where
  nothing : Matches [] []
  star_over :
      (c : ℕ) (rest : Position) (name : List ℕ)
      → nat_eq c b'*' ≡ true
      → Matches rest name
      → Matches (c ∷ rest) name
  star_more :
      (c : ℕ) (rest : Position) (r : ℕ) (name : List ℕ)
      → nat_eq c b'*' ≡ true
      → Matches (c ∷ rest) name
      → Matches (c ∷ rest) (r ∷ name)
  element :
      (c : ℕ) (rest : Position) (r : ℕ) (name : List ℕ)
      → nat_eq c b'*' ≡ false
      → (pattern_element c rest).0 r ≡ true
      → Matches (pattern_element c rest).1 name
      → Matches (c ∷ rest) (r ∷ name)

abbrev pub is_digit : ℕ → Bool
is_digit r = leb b'0' r && leb r b'9'

pub data IsOneOf (text : List ℕ) : List (List ℕ) → Type 0 where
  this_alt : (alts : List (List ℕ)) → IsOneOf text (text ∷ alts)
  later_alt : (alt : List ℕ) (alts : List (List ℕ)) → IsOneOf text alts → IsOneOf text (alt ∷ alts)

-- The segment can stand for the text.
pub data Fills (seg : FormatSegment) : List ℕ → Type 0 where
  anything : (text : List ℕ) → seg.any ≡ true → Fills seg text
  number :
      (text : List ℕ)
      → seg.any ≡ false
      → 0 < seg.digits
      → length text ≡ seg.digits
      → All (λ r. is_digit r ≡ true) text
      → Fills seg text
  one_of :
      (text : List ℕ) → seg.any ≡ false → seg.digits ≡ 0 → IsOneOf text seg.alts → Fills seg text

-- The format can make the name.
pub data Makes : List FormatSegment → List ℕ → Type 0 where
  ended : Makes [] []
  filled :
      (seg : FormatSegment) (segs : List FormatSegment) (text name : List ℕ)
      → Fills seg text
      → Makes segs name
      → Makes (seg ∷ segs) (text ++ name)
