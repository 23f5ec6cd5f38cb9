-- ===== src/Config/Merge.antt =====
-- `DeepMerge` of internal/config/merge.go: layering of configuration fragments.
pub mod Paths
use borgmatic_manager.Prelude.{
  String, ◌≡◌, refl, Bool, true, false, ◌&&◌, Option, none, some, List, [], ◌∷◌, foldl, arith, ◌==◌,
  eq_iff, if◌then◌else◌, bind,
}
use borgmatic_manager.Config.Value.{
  Value, Fields, null, bool, num, float, str, arr, obj, no_fields, field, lookup, store,
  lookup-store, store-IsTrees, lookup-IsTree, IsTreeAt, IsTree, IsTrees,
}

-- The loop over `src` writes into the copy of `dst`; an entry of two maps is merged, and any
-- other entry is that of `src`.
unfoldable mutual
  pub deep_merge : Fields → Fields → Fields
  deep_merge dst no_fields = dst
  deep_merge dst (field k v src) = deep_merge (store dst k (merge_value (lookup dst k) v)) src

  pub merge_value : Option Value → Value → Value
  merge_value (some (obj d)) (obj s) = obj (deep_merge d s)
  merge_value old v = v

-- What the merge holds at one key, from what the two sides hold there.
abbrev pub over : Option Value → Option Value → Option Value
over old none = old
over old (some v) = some (merge_value old v)

pub lookup-deep_merge :
    (dst src : Fields) (k : String)
    → IsTrees src
    → lookup (deep_merge dst src) k ≡ over (lookup dst k) (lookup src k)
unfolding deep_merge lookup
lookup-deep_merge dst no_fields k h = refl
lookup-deep_merge dst (field j v src) k h = ground (
  arith,
  eq_iff j k,
  lookup-deep_merge (store dst j (merge_value (lookup dst j) v)) src k,
  lookup-store dst j k (merge_value (lookup dst j) v),
)

mutual
  unfolding deep_merge

  deep_merge_distinct :
      (dst src : Fields) → IsTrees dst → IsTrees src → IsTrees (deep_merge dst src)
  deep_merge_distinct dst no_fields d s = d
  deep_merge_distinct dst (field j v src) d s =
      deep_merge_distinct (store dst j (merge_value (lookup dst j) v)) src
        (store-IsTrees dst j _ (merge_value_distinct (lookup dst j) v (lookup-IsTree dst j d) s.1)
          d)
        s.2

  merge_value_distinct :
      (old : Option Value) (v : Value) → IsTreeAt old → IsTree v → IsTree (merge_value old v)
  merge_value_distinct (some (obj d)) (obj s) o t = deep_merge_distinct d s o t
  merge_value_distinct _ v o t = t

-- The merge of two trees without doubled keys is one.
pub deep_merge-IsTrees :
    (dst src : Fields) → IsTrees dst → IsTrees src → IsTrees (deep_merge dst src)
deep_merge-IsTrees = deep_merge_distinct
