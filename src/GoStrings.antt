-- ===== src/GoStrings.antt =====
-- The functions of Go's `strings` and `path/filepath` that the program uses, over texts read
-- character by character.
use Prim.Native.Char.{Char, code}
use Prim.Native.String.{◌++◌ as cat}
use borgmatic_manager.Prelude.{
  ℕ, String, Bool, true, false, ◌&&◌, ◌||◌, Option, none, some, List, [], ◌∷◌, nat_eq, ◌==◌,
  if◌then◌else◌, bind,
}

-- `s + t`.
abbrev pub plus : String → String → String
plus s t = cat s t

-- `strings.HasPrefix(s, p)`.
unfoldable pub has_prefix : String → String → Bool
has_prefix s String.[] = true
has_prefix String.[] (String.◌∷◌ c p) = false
has_prefix (String.◌∷◌ d s) (String.◌∷◌ c p) = nat_eq (code d) (code c) && has_prefix s p

-- `strings.Contains(s, t)`.
unfoldable pub contains_text : String → String → Bool
unfolding has_prefix
contains_text String.[] t = has_prefix String.[] t
contains_text (String.◌∷◌ c s) t = has_prefix (String.◌∷◌ c s) t || contains_text s t

-- `strings.HasSuffix(s, t)` for a `t` of one character.
unfoldable pub ends_with : String → ℕ → Bool
ends_with String.[] c = false
ends_with (String.◌∷◌ d s) c =
    let rest = ends_with s c in if s == "" then nat_eq (code d) c else rest

-- `strings.TrimRight(s, t)` for a `t` of one character.
unfoldable pub trim_right : String → ℕ → String
trim_right String.[] c = ""
trim_right (String.◌∷◌ d s) c =
    let rest = trim_right s c in if rest == "" && nat_eq (code d) c then "" else String.◌∷◌ d rest

-- `s[:i]` for `i` the index of the first character `c`, if there is one.
unfoldable pub before_char : String → ℕ → Option String
before_char String.[] c = none
before_char (String.◌∷◌ d s) c =
    let rest = before_char s c in
    if nat_eq (code d) c then some "" else bind rest (λ r. some (String.◌∷◌ d r))

abbrev on_head : Char → List String → List String
on_head d [] = String.◌∷◌ d "" ∷ []
on_head d (p ∷ ps) = String.◌∷◌ d p ∷ ps

-- `strings.Split(s, t)` for a `t` of one character: the last part is held apart.
unfoldable pub split_char : String → ℕ → List String
split_char String.[] c = "" ∷ []
split_char (String.◌∷◌ d s) c =
    let rest = split_char s c in if nat_eq (code d) c then "" ∷ rest else on_head d rest
