-- ===== src/Tests/Members.antt =====
-- One group, with its volumes in two orders (internal/scheduler/scheduler.go).
use mathlib.Core.List.{Permᴰ}
use mathlib.Core.List.Perm
use borgmatic_manager.Prelude.{◌≡◌, refl, [], ◌∷◌}
use borgmatic_manager.Models.{VolumeGroup}
use borgmatic_manager.Scheduler.Fingerprint.{group_fingerprint}
use borgmatic_manager.Scheduler.Fingerprint.Order.{fingerprint_unordered}
use borgmatic_manager.Tests.Cycles.{live_group, logs_volume, data_volume}

abbrev logs_first : VolumeGroup
logs_first = record live_group { volumes = logs_volume ∷ data_volume ∷ [] }

abbrev data_first : VolumeGroup
data_first = record live_group { volumes = data_volume ∷ logs_volume ∷ [] }

fingerprint_unordered_example :
    group_fingerprint (λ s. s) logs_first ≡ group_fingerprint (λ s. s) data_first
fingerprint_unordered_example =
    fingerprint_unordered (λ s. s) logs_first data_first ∣ Permᴰ.swap refl refl ∣₁ Perm.rfl
