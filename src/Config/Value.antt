-- ===== src/Config/Value.antt =====
-- `interface{}` as YAML and JSON decoding fill it, and `map[string]interface{}`.
use borgmatic_manager.Prelude.{
  String, ◌≡◌, refl, Bool, Option, none, some, arith, ◌==◌, eq_iff, if◌then◌else◌, Bool-cases, inl,
  inr,
}
use borgmatic_manager.Prelude.Int.{ℤ}

mutual
  -- The entries of a map.
  pub data Fields : Type 0 where
    no_fields : Fields
    field : String → Value → Fields → Fields

  -- The elements of a sequence.
  pub data Sequence : Type 0 where
    no_elements : Sequence
    element : Value → Sequence → Sequence

  pub data Value : Type 0 where
    obj : Fields → Value
    arr : Sequence → Value
    str : String → Value
    -- a floating-point number, by its text
    float : String → Value
    num : ℤ → Value
    bool : Bool → Value
    null : Value

-- `v, ok := m[k]`.
unfoldable pub lookup : Fields → String → Option Value
lookup no_fields k = none
lookup (field j v m) k = if j == k then some v else lookup m k

-- `m[k] = v`.
unfoldable pub store : Fields → String → Value → Fields
store no_fields k v = field k v no_fields
store (field j w m) k v = let rest = store m k v in if j == k then field k v m else field j w rest

-- No key stands twice, at this level or below.
abbrev mutual
  pub IsTree : Value → Type 0
  IsTree (obj m) = IsTrees m
  IsTree _ = Unit

  pub IsTrees : Fields → Type 0
  IsTrees no_fields = Unit
  IsTrees (field k v m) = (lookup m k ≡ none) × IsTree v × IsTrees m

pub lookup-store :
    (m : Fields) (k j : String) (v : Value)
    → lookup (store m k v) j ≡ (if k == j then some v else lookup m j)
unfolding lookup store
lookup-store no_fields k j v = refl
lookup-store (field i w m) k j v =
    ground (arith, eq_iff k j, eq_iff i k, eq_iff i j, lookup-store m k j v)

pub store-IsTrees :
    (m : Fields) (k : String) (v : Value) → IsTree v → IsTrees m → IsTrees (store m k v)
unfolding lookup store
store-IsTrees no_fields k v t h = (refl, t, tt)
store-IsTrees (field i w m) k v t h =
    ground (arith, eq_iff i k, eq_iff k i, lookup-store m k i v, store-IsTrees m k v t)

abbrev pub IsTreeAt : Option Value → Type 0
IsTreeAt none = Unit
IsTreeAt (some v) = IsTree v

pub lookup-IsTree : (m : Fields) (k : String) → IsTrees m → IsTreeAt (lookup m k)
unfolding lookup
lookup-IsTree no_fields k h = tt
lookup-IsTree (field j v m) k h = elim (Bool-cases (j == k)) [
  | inl same ↦ rw same h.1
  | inr other ↦ rw other (lookup-IsTree m k h.2)
]
