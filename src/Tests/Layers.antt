-- ===== src/Tests/Layers.antt =====
-- Layered configuration fragments (internal/config/merge.go).
use borgmatic_manager.Prelude.{◌≡◌, refl, some, [], ◌∷◌}
use borgmatic_manager.Prelude.Int.{pos}
use borgmatic_manager.Config.Value.{Fields, num, str, obj, no_fields, field, lookup, store}
use borgmatic_manager.Config.Merge.{deep_merge}
use borgmatic_manager.Config.Merge.Paths.{value_at, deep_merge_upper_wins}

-- The defaults of the manager, and a group's label fragment over them.
abbrev defaults : Fields
defaults = field "keep_daily" (num (pos 7)) (
    field "healthchecks"
      (obj (field "ping_url" (str "https://a") (field "send_logs" (str "yes") no_fields)))
      no_fields)

abbrev labels : Fields
labels =
    field "healthchecks" (obj (field "ping_url" (str "https://b") no_fields))
      (field "keep_weekly" (num (pos 4)) no_fields)

merged :
    deep_merge defaults labels
    ≡ field "keep_daily" (num (pos 7)) (
        field "healthchecks"
          (obj (field "ping_url" (str "https://b") (field "send_logs" (str "yes") no_fields)))
          (field "keep_weekly" (num (pos 4)) no_fields))
unfolding deep_merge lookup store
merged = refl

deep_merge_upper_wins_example :
    value_at ("healthchecks" ∷ "ping_url" ∷ []) (some (obj (deep_merge defaults labels)))
    ≡ value_at ("healthchecks" ∷ "ping_url" ∷ []) (some (obj labels))
unfolding lookup
deep_merge_upper_wins_example =
    deep_merge_upper_wins defaults labels "healthchecks" ("ping_url" ∷ [])
      (refl, (refl, tt, tt), (refl, tt, tt)) refl
