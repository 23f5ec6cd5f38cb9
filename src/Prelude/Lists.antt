-- ===== src/Prelude/Lists.antt =====
-- Slices: lists measured by native numbers, membership of texts, and predicates on all elements.
use Prim.Native.Nat.{ℕ, zero, suc, ◌+◌, ◌-◌, ◌≤◌}
use Prim.Native.String.{String}
use mathlib.Core.Path.{◌≡◌, refl, ap, subst}
use mathlib.Core.Logic.{inl, inr}
use mathlib.Core.Bool.{Bool, true, false, ◌&&◌, ◌||◌}
use mathlib.Core.List.{List, [], ◌∷◌, ◌++◌, map}
use native.Mathlib.Omega.{arith}
use native.Mathlib.Nat.{zero-add, add-zero, suc-add}
use mathlib.Core.Option.{Option, none, some}
use borgmatic_manager.Prelude.Tests.{get_or, Bool-cases, ◌==◌, if◌then◌else◌}

module _ {ℓ} {A : Type ℓ} where
  abbrev pub length : List A → ℕ
  length [] = 0
  length (x ∷ xs) = suc (length xs)

  abbrev pub drop : ℕ → List A → List A
  drop zero xs = xs
  drop (suc n) [] = []
  drop (suc n) (x ∷ xs) = drop n xs

  abbrev pub is_empty : List A → Bool
  is_empty [] = true
  is_empty (x ∷ xs) = false

  -- The elements that pass a test, in order.
  abbrev pub keep : (A → Bool) → List A → List A
  keep p [] = []
  keep p (x ∷ xs) = let rest = keep p xs in if p x then x ∷ rest else rest

  abbrev pub any : (A → Bool) → List A → Bool
  any p [] = false
  any p (x ∷ xs) = p x || any p xs

  abbrev pub all : (A → Bool) → List A → Bool
  all p [] = true
  all p (x ∷ xs) = p x && all p xs

  pub length-append : (xs ys : List A) → length (xs ++ ys) ≡ length xs + length ys
  length-append [] ys = omega arith
  length-append (x ∷ xs) ys = omega (arith, length-append xs ys)

  pub length-drop : (n : ℕ) (xs : List A) → length (drop n xs) ≡ length xs - n
  length-drop zero xs = omega arith
  length-drop (suc n) [] = omega arith
  length-drop (suc n) (x ∷ xs) = omega (arith, length-drop n xs)

  pub drop-append_le :
      (n : ℕ) (xs ys : List A) → n ≤ length xs → drop n (xs ++ ys) ≡ drop n xs ++ ys
  drop-append_le zero xs ys h = refl
  drop-append_le (suc n) [] ys h = absurd (omega arith)
  drop-append_le (suc n) (x ∷ xs) ys h = drop-append_le n xs ys (omega arith)

  pub drop-drop : (b a : ℕ) (xs : List A) → drop a (drop b xs) ≡ drop (b + a) xs
  drop-drop zero a xs = rw zero-add refl
  drop-drop (suc b) zero [] = rw add-zero refl
  drop-drop (suc b) (suc a) [] = rw suc-add refl
  drop-drop (suc b) a (x ∷ xs) = rw suc-add (drop-drop b a xs)

  pub any-append : (p : A → Bool) (xs ys : List A) → any p (xs ++ ys) ≡ (any p xs || any p ys)
  any-append p [] ys = refl
  any-append p (x ∷ xs) ys = ground (arith, any-append p xs ys)

abbrev pub All {ℓ κ} : {A : Type ℓ} → (A → Type κ) → List A → Type κ
All P [] = Unit
All P (x ∷ xs) = P x × All P xs

-- `slices.Contains` on a slice of strings.
abbrev pub contains : List String → String → Bool
contains [] s = false
contains (x ∷ xs) s = x == s || contains xs s

pub All-impl {ℓ κ ι} :
    {A : Type ι} {P : A → Type ℓ} {Q : A → Type κ} (xs : List A)
    → ((x : A) → P x → Q x)
    → All P xs
    → All Q xs
All-impl [] f ps = tt
All-impl (x ∷ xs) f ps = (f x ps.0, All-impl xs f ps.1)

pub All-map {ℓ} :
    {A B : Type 0} (P : B → Type ℓ) (f : A → B) (xs : List A)
    → All (λ x. P (f x)) xs
    → All P (map f xs)
All-map P f [] ps = tt
All-map P f (x ∷ xs) ps = (ps.0, All-map P f xs ps.1)

pub All-append {ℓ} :
    {A : Type 0} (P : A → Type ℓ) (xs ys : List A) → All P xs → All P ys → All P (xs ++ ys)
All-append P [] ys ps qs = qs
All-append P (x ∷ xs) ys ps qs = (ps.0, All-append P xs ys ps.1 qs)

pub All-any {ℓ} : {A : Type 0} {P : A → Type ℓ} → ((x : A) → P x) → (xs : List A) → All P xs
All-any f [] = tt
All-any f (x ∷ xs) = (f x, All-any f xs)

-- No two elements of the list are in the wrong order, or the same.
abbrev pub IsChain : {A : Type 0} → (A → A → Bool) → List A → Type 0
IsChain r [] = Unit
IsChain r (x ∷ xs) = All (λ y. r x y ≡ true) xs × IsChain r xs

-- No text stands twice in the list.
abbrev pub AllDifferent : List String → Type 0
AllDifferent [] = Unit
AllDifferent (x ∷ xs) = All (λ y. (x == y) ≡ false) xs × AllDifferent xs

-- `xs[n]`, where it is in range.
unfoldable pub nth {ℓ} : {A : Type ℓ} → List A → ℕ → Option A
nth [] n = none
nth (x ∷ xs) zero = some x
nth (x ∷ xs) (suc n) = nth xs n

pub any-map {ℓ κ} :
    {A : Type ℓ} {B : Type κ} (f : A → B) (p : B → Bool) (xs : List A)
    → any p (map f xs) ≡ any (λ x. p (f x)) xs
any-map f p [] = refl
any-map f p (x ∷ xs) = ground (arith, any-map f p xs)

pub any-nth {ℓ} :
    {A : Type ℓ} (p : A → Bool) (xs : List A)
    → any p xs ≡ true
    → (d : ℕ) × (x : A) × (nth xs d ≡ some x) × (p x ≡ true)
unfolding nth
any-nth p [] e = cc
any-nth p (x ∷ xs) e = elim (Bool-cases (p x)) [
  | inl here ↦ (0, x, refl, here)
  | inr other ↦ let (d, y, q, r) = any-nth p xs (ground arith) in (suc d, y, q, r)
]

pub nth-any {ℓ} :
    {A : Type ℓ} (p : A → Bool) (xs : List A) (d : ℕ) (x : A)
    → nth xs d ≡ some x
    → p x ≡ true
    → any p xs ≡ true
unfolding nth
nth-any p [] d x e q = cc
nth-any p (y ∷ xs) zero x e q = let same : y ≡ x = ap (get_or y) e in rw same (ground arith)
nth-any p (y ∷ xs) (suc d) x e q = ground (arith, nth-any p xs d x)

pub All-nth {ℓ κ} :
    {A : Type ℓ} (P : A → Type κ) (xs : List A) (d : ℕ) (x : A) → nth xs d ≡ some x → All P xs → P x
unfolding nth
All-nth P [] d x e ps = cc
All-nth P (y ∷ xs) zero x e ps = subst P (ap (get_or y) e) ps.0
All-nth P (y ∷ xs) (suc d) x e ps = All-nth P xs d x e ps.1
