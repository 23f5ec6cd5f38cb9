-- ===== src/GoMap.antt =====
-- Go's `map[string]V` as an association list. The program's results do not depend on the order
-- in which Go walks a map, so every law is stated by lookups.
use borgmatic_manager.Prelude.{
  String, ◌≡◌, refl, Bool, false, Option, none, some, List, [], ◌∷◌, map, arith, ◌==◌, eq_iff,
  if◌then◌else◌, bind, is_some, any, contains, Bool-cases, inl, inr,
}

abbrev pub GoMap {ℓ} : Type ℓ → Type ℓ
GoMap V = List (String × V)

module _ {ℓ} {V : Type ℓ} where
  -- `m[k]`, with `none` for a missing key.
  unfoldable pub get : GoMap V → String → Option V
  get [] k = none
  get ((j, v) ∷ m) k = if j == k then some v else get m k

  -- `m[k] = v`.
  unfoldable pub put : GoMap V → String → V → GoMap V
  put [] k v = (k, v) ∷ []
  put ((j, w) ∷ m) k v = let rest = put m k v in if j == k then (k, v) ∷ m else (j, w) ∷ rest

  -- `delete(m, k)`.
  unfoldable pub remove : GoMap V → String → GoMap V
  remove [] k = []
  remove ((j, v) ∷ m) k = let rest = remove m k in if j == k then rest else (j, v) ∷ rest

  abbrev pub keys : GoMap V → List String
  keys = map (λ e. e.0)

  -- No key stands twice.
  abbrev pub IsMap : GoMap V → Type ℓ
  IsMap [] = Unit
  IsMap ((k, v) ∷ m) = (get m k ≡ none) × IsMap m

  pub get-put :
      (m : GoMap V) (k j : String) (v : V)
      → get (put m k v) j ≡ (if k == j then some v else get m j)
  unfolding get put
  get-put [] k j v = refl
  get-put ((i, w) ∷ m) k j v = ground (arith, eq_iff k j, eq_iff i k, eq_iff i j, get-put m k j v)

  pub get-remove :
      (m : GoMap V) (k j : String) → get (remove m k) j ≡ (if k == j then none else get m j)
  unfolding get remove
  get-remove [] k j = ground arith
  get-remove ((i, w) ∷ m) k j = ground (arith, eq_iff k j, eq_iff i k, eq_iff i j, get-remove m k j)

  pub put-IsMap : (m : GoMap V) (k : String) (v : V) → IsMap m → IsMap (put m k v)
  unfolding get put
  put-IsMap [] k v h = (refl, tt)
  put-IsMap ((i, w) ∷ m) k v h =
      ground (arith, eq_iff i k, eq_iff k i, get-put m k i v, put-IsMap m k v)

  pub remove-IsMap : (m : GoMap V) (k : String) → IsMap m → IsMap (remove m k)
  unfolding get remove
  remove-IsMap [] k h = tt
  remove-IsMap ((i, w) ∷ m) k h = ground (arith, eq_iff i k, get-remove m k i, remove-IsMap m k)

  -- A walk over a map that may change or delete the entry it stands at.
  unfoldable pub update_each : (String → V → Option V) → GoMap V → GoMap V
  update_each f [] = []
  update_each f ((j, v) ∷ m) =
      let rest = update_each f m in elim (f j v) [ none ↦ rest | some w ↦ (j, w) ∷ rest ]

  pub get-update_each_missing :
      (f : String → V → Option V) (m : GoMap V) (k : String)
      → get m k ≡ none
      → get (update_each f m) k ≡ none
  unfolding get update_each
  get-update_each_missing f [] k h = refl
  get-update_each_missing f ((i, w) ∷ m) k h = ground (arith, get-update_each_missing f m k)

  pub get-update_each :
      (f : String → V → Option V) (m : GoMap V) (k : String)
      → IsMap m
      → get (update_each f m) k ≡ bind (get m k) (f k)
  unfolding get update_each
  get-update_each f [] k h = refl
  get-update_each f ((i, w) ∷ m) k h =
      ground (arith, eq_iff i k, get-update_each f m k, get-update_each_missing f m k)

  pub update_each-IsMap :
      (f : String → V → Option V) (m : GoMap V) → IsMap m → IsMap (update_each f m)
  unfolding get update_each
  update_each-IsMap f [] h = tt
  update_each-IsMap f ((i, w) ∷ m) h =
      ground (arith, get-update_each_missing f m i, update_each-IsMap f m)

  pub contains-keys : (m : GoMap V) (k : String) → contains (keys m) k ≡ is_some (get m k)
  unfolding get
  contains-keys [] k = refl
  contains-keys ((i, w) ∷ m) k = ground (arith, contains-keys m k)

  pub any-get :
      (p : String × V → Bool) (m : GoMap V) (k : String) (v : V)
      → any p m ≡ false
      → get m k ≡ some v
      → p (k, v) ≡ false
  unfolding get
  any-get p [] k v h e = cc
  any-get p ((i, w) ∷ m) k v h e = elim (Bool-cases (i == k)) [
    | inl same ↦ rw (← ((eq_iff i k).0 same)) (ground arith)
    | inr other ↦ any-get p m k v (ground arith) (ground arith)
  ]
