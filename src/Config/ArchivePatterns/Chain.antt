-- ===== src/Config/ArchivePatterns/Chain.antt =====
-- The positions that a pattern is read from stand on one chain, from element to element.
use borgmatic_manager.Prelude.{
  ℕ, suc, ◌≤◌, ◌≡◌, Bool, true, false, not, ◌&&◌, ◌||◌, Option, none, some, List, [], ◌∷◌, arith,
  nat_eq, if_both, length,
}
use borgmatic_manager.Config.ArchivePatterns.{
  with_set, bracket, Position, Span, add_span, class_from, parse_char_class, pattern_element,
}

-- What an element leaves is no longer than this.
abbrev Within : {A : Type 0} → ℕ → Option (A × Position) → Type 0
Within n none = Unit
Within n (some (x, after)) = length after ≤ n

add_span-Within :
    (lo hi n k : ℕ) (o : Option (List Span × Position))
    → k ≤ n
    → Within k o
    → Within n (add_span lo hi o)
unfolding add_span
add_span-Within lo hi n k none le w = tt
add_span-Within lo hi n k (some (s, after)) le w = omega arith

class_from-Within : (first : Bool) (p : Position) → Within (length p) (class_from first p)
unfolding class_from
class_from-Within first [] = tt
class_from-Within first (c ∷ []) =
    if_both (Within 1) (nat_eq c b']' && not first) (some ([], [])) none (omega arith) tt
class_from-Within first (c ∷ d ∷ []) =
    if_both (Within 2) (nat_eq c b']' && not first) (some ([], d ∷ [])) _ (omega arith) (
      add_span-Within c c 2 1 (class_from false (d ∷ [])) (omega arith)
        (class_from-Within false (d ∷ [])))
class_from-Within first (c ∷ d ∷ hi ∷ after) =
    if_both (Within (suc (suc (suc (length after))))) (nat_eq c b']' && not first) _ _ (omega arith)
      (if_both (Within (suc (suc (suc (length after))))) (nat_eq d b'-' && not (nat_eq hi b']')) _ _
        (add_span-Within c hi _ (length after) (class_from false after) (omega arith)
          (class_from-Within false after))
        (add_span-Within c c _ (suc (suc (length after))) (class_from false (d ∷ hi ∷ after))
          (omega arith) (class_from-Within false (d ∷ hi ∷ after))))

class-Within :
    (negated : Bool) (n k : ℕ) (o : Option (List Span × Position))
    → k ≤ n
    → Within k o
    → Within n (with_set negated o)
class-Within negated n k none le w = tt
class-Within negated n k (some (s, after)) le w = omega arith

parse_char_class-Within : (rest : Position) → Within (length rest) (parse_char_class rest)
unfolding parse_char_class
parse_char_class-Within [] = tt
parse_char_class-Within (c ∷ rest) =
    if_both (Within (suc (length rest))) (nat_eq c b'!' || nat_eq c b'^') _ _
      (class-Within true _ (length rest) _ (omega arith) (class_from-Within true rest))
      (class-Within false _ (suc (length rest)) _ (omega arith) (class_from-Within true (c ∷ rest)))

bracket-shorter :
    (rest : Position) (o : Option ((ℕ → Bool) × Position))
    → Within (length rest) o
    → length (bracket rest o).1 ≤ length rest
bracket-shorter rest none w = omega arith
bracket-shorter rest (some (s, after)) w = w

pub pattern_element-shorter :
    (c : ℕ) (rest : Position) → length (pattern_element c rest).1 ≤ length rest
unfolding pattern_element
pattern_element-shorter c rest =
    if_both (λ (e : (ℕ → Bool) × Position). length e.1 ≤ length rest) (nat_eq c b'?') _ _
      (omega arith)
      (if_both (λ (e : (ℕ → Bool) × Position). length e.1 ≤ length rest) (nat_eq c b'[') _ _
        (bracket-shorter rest (parse_char_class rest) (parse_char_class-Within rest)) (omega arith))

-- `q` is reached from `p` element by element.
pub data Onward (q : Position) : Position → Type 0 where
  here : Onward q q
  ahead : (c : ℕ) (rest : Position) → Onward q (pattern_element c rest).1 → Onward q (c ∷ rest)

pub Onward-trans : {x y p : Position} → Onward x y → Onward y p → Onward x p
Onward-trans o here = o
Onward-trans o (ahead c rest o') = ahead c rest (Onward-trans o o')

pub Onward-shorter : {q p : Position} → Onward q p → length q ≤ length p
Onward-shorter here = omega arith
Onward-shorter (ahead c rest o) = omega (arith, Onward-shorter o, pattern_element-shorter c rest)

-- Of two positions on one chain, the shorter is ahead.
pub Onward-linear :
    {lo q p : Position} → Onward lo p → Onward q p → length q ≤ length lo → Onward q lo
Onward-linear here o le = o
Onward-linear (ahead c rest o) here le =
    absurd (omega (arith, Onward-shorter o, pattern_element-shorter c rest, le))
Onward-linear (ahead c rest o) (ahead _ _ o') le = Onward-linear o o' le

-- A star leaves what follows it.
pub star_after :
    (c : ℕ) (rest : Position) → nat_eq c b'*' ≡ true → (pattern_element c rest).1 ≡ rest
unfolding pattern_element
star_after c rest e = ground arith
