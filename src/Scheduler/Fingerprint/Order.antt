-- ===== src/Scheduler/Fingerprint/Order.antt =====
-- The fingerprint does not depend on the order of a group's members.
use mathlib.Core.Path.{ap₂}
use mathlib.Core.Logic.{∥∥₁_elim}
use mathlib.Core.List.{Perm, Permᴰ}
use mathlib.Core.List.Perm
use text.Mathlib.TextEquality.{Char-path, IsScalar-prop}
use borgmatic_manager.Prelude.{
  String, ◌≡◌, refl, true, false, List, [], ◌∷◌, arith, ap, ◌∙◌, sym, Bool-cases, inl, inr,
}
use borgmatic_manager.GoStrings.{plus}
use borgmatic_manager.Models.{VolumeInfo, VolumeGroup}
use borgmatic_manager.Scheduler.Fingerprint.{
  join, database_line, less, insert_sorted, sort_strings, fingerprint_lines, group_fingerprint,
}

pub less_trans : (s t u : String) → less s t ≡ true → less t u ≡ true → less s u ≡ true
unfolding less
less_trans s String.[] u h k = cc
less_trans s (String.◌∷◌ d t) String.[] h k = cc
less_trans String.[] (String.◌∷◌ d t) (String.◌∷◌ e u) h k = refl
less_trans (String.◌∷◌ c s) (String.◌∷◌ d t) (String.◌∷◌ e u) h k = ground (arith, less_trans s t u)

pub less_asym : (s t : String) → less s t ≡ true → less t s ≡ false
unfolding less
less_asym s String.[] h = cc
less_asym String.[] (String.◌∷◌ d t) h = refl
less_asym (String.◌∷◌ c s) (String.◌∷◌ d t) h = ground (arith, less_asym s t)

pub less_total : (s t : String) → less s t ≡ false → less t s ≡ false → s ≡ t
unfolding less
less_total String.[] String.[] h k = refl
less_total String.[] (String.◌∷◌ d t) h k = cc
less_total (String.◌∷◌ c s) String.[] h k = cc
less_total (String.◌∷◌ c s) (String.◌∷◌ d t) h k =
    let same : c ≡ d = Char-path c d (ground arith) in
    let rest : s ≡ t = less_total s t (ground arith) (ground arith) in rw (same, rest) refl

insert_swap :
    (a b : String) (l : List String)
    → less a b ≡ true
    → insert_sorted a (insert_sorted b l) ≡ insert_sorted b (insert_sorted a l)
unfolding insert_sorted
insert_swap a b [] h = ground (arith, less_asym a b)
insert_swap a b (t ∷ ts) h = ground (arith, less_asym a b, less_trans t a b, insert_swap a b ts h)

insert_comm :
    (a b : String) (l : List String)
    → insert_sorted a (insert_sorted b l) ≡ insert_sorted b (insert_sorted a l)
insert_comm a b l = elim (Bool-cases (less a b)) [
  | inl before ↦ insert_swap a b l before
  | inr not_before ↦ elim (Bool-cases (less b a)) [
    | inl after ↦ sym (insert_swap b a l after)
    | inr not_after ↦ rw (less_total a b not_before not_after) refl
  ]
]

sort_strings-Permᴰ : {l m : List String} → Permᴰ l m → sort_strings l ≡ sort_strings m
unfolding sort_strings
sort_strings-Permᴰ Permᴰ.nil = refl
sort_strings-Permᴰ (Permᴰ.cons e p) = ap₂ insert_sorted e (sort_strings-Permᴰ p)
sort_strings-Permᴰ (Permᴰ.swap {a} {b} {l = l} e f) =
    insert_comm a b (sort_strings l)
    ∙ ap₂ (λ x y. insert_sorted x (insert_sorted y (sort_strings l))) f e
sort_strings-Permᴰ (Permᴰ.trans p q) = sort_strings-Permᴰ p ∙ sort_strings-Permᴰ q

-- Two groups with the same volumes and the same databases, in any order, have the same fingerprint,
-- whatever the hash: the order of containers and labels does not make a group due.
pub fingerprint_unordered :
    (digest : String → String) (g g' : VolumeGroup)
    → Perm g.volumes g'.volumes
    → Perm g.databases g'.databases
    → group_fingerprint digest g ≡ group_fingerprint digest g'
unfolding group_fingerprint fingerprint_lines
fingerprint_unordered digest g g' vs ds =
    let lines =
      Perm.append (Perm.map (λ (v : VolumeInfo). plus "volume\0" v.name) vs)
        (Perm.map database_line ds) in
    ∥∥₁_elim {P = group_fingerprint digest g ≡ group_fingerprint digest g'} lines
      (hlevel (IsScalar-prop)) (λ p. ap (λ l. digest (join l "\n")) (sort_strings-Permᴰ p))
