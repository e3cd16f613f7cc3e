-- ===== src/Keys/Tests.antt =====
-- Concrete states and counters.
use amnezia_shared_panel.Base.{◌+◌, ◌≡◌, [], ◌∷◌, ◌++◌}
use amnezia_shared_panel.Keys.{active, failed, count_quota_keys}
use amnezia_shared_panel.Keys.Sets.{count_quota_keys-append}

count_quota_keys-append_example :
    count_quota_keys ((active ∷ failed ∷ []) ++ active ∷ [])
    ≡ count_quota_keys (active ∷ failed ∷ []) + count_quota_keys (active ∷ [])
count_quota_keys-append_example = count_quota_keys-append (active ∷ failed ∷ []) (active ∷ [])
