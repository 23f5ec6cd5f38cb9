-- ===== src/Config/Merge/Paths.antt =====
-- Precedence of layered fragments, option path by option path.
use mathlib.Core.Bool.{false≢true}
use borgmatic_manager.Prelude.{
  String, ◌≡◌, refl, sym, ◌∙◌, Bool, true, false, Option, none, some, List, [], ◌∷◌, bind,
}
use borgmatic_manager.Config.Value.{Value, Fields, obj, lookup, IsTrees, IsTreeAt, lookup-IsTree}
use borgmatic_manager.Config.Merge.{deep_merge, over, lookup-deep_merge}

abbrev pub child : String → Value → Option Value
child k (obj m) = lookup m k
child k _ = none

-- The value at a path of option names below an option, which may be missing.
abbrev pub value_at : List String → Option Value → Option Value
value_at [] o = o
value_at (k ∷ rest) o = value_at rest (bind o (child k))

abbrev pub is_plain : Option Value → Bool
is_plain none = false
is_plain (some (obj m)) = false
is_plain (some _) = true

-- The fragment sets the option at the path, or replaces one of the maps above it by a plain value.
abbrev pub overrides : List String → Option Value → Bool
overrides p none = false
overrides [] (some v) = true
overrides (k ∷ rest) (some (obj m)) = overrides rest (lookup m k)
overrides (k ∷ rest) (some _) = true

value_at-none : (p : List String) → value_at p none ≡ none
value_at-none [] = refl
value_at-none (k ∷ rest) = value_at-none rest

value_at_untouched :
    (p : List String) (o : Option Value) → overrides p o ≡ false → value_at p o ≡ none
value_at_untouched p none h = value_at-none p
value_at_untouched [] (some v) h = cc
value_at_untouched (k ∷ rest) (some (obj m)) h = value_at_untouched rest (lookup m k) h
value_at_untouched (k ∷ rest) (some v) h = cc

plain_won :
    (p : List String) (old new : Option Value)
    → IsTreeAt new
    → is_plain (value_at p new) ≡ true
    → value_at p (over old new) ≡ value_at p new
unfolding deep_merge
plain_won p old none t h = absurd (false≢true (rw (value_at-none p) at h))
plain_won p none (some v) t h = refl
plain_won [] (some (obj n)) (some (obj m)) t h = cc
plain_won (k ∷ rest) (some (obj n)) (some (obj m)) t h =
    rw (lookup-deep_merge n m k t)
      (plain_won rest (lookup n k) (lookup m k) (lookup-IsTree m k t) h)
plain_won p (some d) (some v) t h = refl

untouched_kept :
    (p : List String) (old new : Option Value)
    → IsTreeAt new
    → overrides p new ≡ false
    → value_at p (over old new) ≡ value_at p old
unfolding deep_merge
untouched_kept p old none t h = refl
untouched_kept p none (some v) t h = value_at_untouched p (some v) h ∙ sym (value_at-none p)
untouched_kept [] (some d) (some v) t h = cc
untouched_kept (k ∷ rest) (some (obj n)) (some (obj m)) t h =
    rw (lookup-deep_merge n m k t)
      (untouched_kept rest (lookup n k) (lookup m k) (lookup-IsTree m k t) h)
untouched_kept (k ∷ rest) (some d) (some (obj m)) t h =
    value_at_untouched rest (lookup m k) h ∙ sym (value_at-none rest)
untouched_kept (k ∷ rest) (some d) (some v) t h = cc

module _ (dst src : Fields) (k : String) (rest : List String) where
  -- Where the upper fragment, whose keys do not repeat, sets a value that is no map at an option
  -- path, the merged fragment has that value there, whatever the lower fragment holds.
  pub deep_merge_upper_wins :
      IsTrees src
      → is_plain (value_at (k ∷ rest) (some (obj src))) ≡ true
      → value_at (k ∷ rest) (some (obj (deep_merge dst src))) ≡ value_at (k ∷ rest) (some (obj src))
  unfolding deep_merge
  deep_merge_upper_wins t h = plain_won (k ∷ rest) (some (obj dst)) (some (obj src)) t h

  -- Where the upper fragment, whose keys do not repeat, neither sets an option path nor puts a
  -- value that is no map above it, the merged fragment has there what the lower fragment has.
  pub deep_merge_lower_kept :
      IsTrees src
      → overrides (k ∷ rest) (some (obj src)) ≡ false
      → value_at (k ∷ rest) (some (obj (deep_merge dst src))) ≡ value_at (k ∷ rest) (some (obj dst))
  unfolding deep_merge
  deep_merge_lower_kept t h = untouched_kept (k ∷ rest) (some (obj dst)) (some (obj src)) t h
