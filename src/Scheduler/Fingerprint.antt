-- ===== src/Scheduler/Fingerprint.antt =====
-- `GroupFingerprint` of internal/scheduler/scheduler.go: what identifies a group's content set. The
-- hash of the standard library is a parameter.
pub mod Order
pub mod Sorted
use Prim.Native.Char.{code}
use borgmatic_manager.Prelude.{
  String, ◌≡◌, refl, Bool, true, false, ◌||◌, ◌&&◌, List, [], ◌∷◌, ◌++◌, map, ltb, nat_eq,
  if◌then◌else◌,
}
use borgmatic_manager.GoStrings.{plus}
use borgmatic_manager.Models.{VolumeGroup, DatabaseConfig}

-- `s < t`, by code points, which is Go's order by bytes of UTF-8.
unfoldable pub less : String → String → Bool
less s String.[] = false
less String.[] (String.◌∷◌ d t) = true
less (String.◌∷◌ c s) (String.◌∷◌ d t) =
    ltb (code c) (code d) || (nat_eq (code c) (code d) && less s t)

unfoldable pub insert_sorted : String → List String → List String
insert_sorted s [] = s ∷ []
insert_sorted s (t ∷ ts) =
    let rest = insert_sorted s ts in if less t s then t ∷ rest else s ∷ t ∷ ts

-- `sort.Strings`.
unfoldable pub sort_strings : List String → List String
sort_strings [] = []
sort_strings (s ∷ ss) = insert_sorted s (sort_strings ss)

-- `strings.Join`.
unfoldable pub join : List String → String → String
join [] sep = ""
join (s ∷ []) sep = s
join (s ∷ t ∷ ss) sep = plus s (plus sep (join (t ∷ ss) sep))

unfoldable pub database_line : DatabaseConfig → String
database_line db = join ("db" ∷ db.type_ ∷ db.name ∷ db.container ∷ db.hostname ∷ db.path ∷ []) "\0"

unfoldable pub fingerprint_lines : VolumeGroup → List String
fingerprint_lines g = map (λ v. plus "volume\0" v.name) g.volumes ++ map database_line g.databases

unfoldable pub group_fingerprint : (String → String) → VolumeGroup → String
group_fingerprint digest g = digest (join (sort_strings (fingerprint_lines g)) "\n")

sorted_words : sort_strings ("b" ∷ "ab" ∷ "" ∷ "a" ∷ []) ≡ "" ∷ "a" ∷ "ab" ∷ "b" ∷ []
unfolding sort_strings insert_sorted less
sorted_words = refl
