-- ===== src/Keys.antt =====
-- The states of a VPN key and what each allows: packages/contracts/src/index.ts (revocable and
-- purgeable states), packages/db/src/index.ts (quota and live states, traffic counters),
-- apps/control-api/src/postgresRepository.ts (rotatable states), apps/web/lib/key-states.ts
-- (what an owner sees).
pub mod Sets
mod Tests
use amnezia_shared_panel.Base.{
  ℕ, suc, ◌+◌, ◌-◌, Bool, true, false, List, [], ◌∷◌, Option, none, some, leb, if◌then◌else◌,
  or_else,
}

-- keyStateSchema
pub data KeyState : Type 0 where
  provisioning active disabled revoking revoked failed : KeyState

abbrev pub same_state : KeyState → KeyState → Bool
same_state provisioning provisioning = true
same_state active active = true
same_state disabled disabled = true
same_state revoking revoking = true
same_state revoked revoked = true
same_state failed failed = true
same_state _ _ = false

-- list.includes(state)
abbrev pub includes : List KeyState → KeyState → Bool
includes [] s = false
includes (x ∷ xs) s = if same_state x s then true else includes xs s

-- REVOCABLE_KEY_STATES and isRevocableKeyState
abbrev pub revocable_states : List KeyState
revocable_states = provisioning ∷ active ∷ disabled ∷ revoking ∷ failed ∷ []

unfoldable pub is_revocable : KeyState → Bool
is_revocable s = includes revocable_states s

-- PURGEABLE_KEY_STATES and isPurgeableKeyState
abbrev pub purgeable_states : List KeyState
purgeable_states = revoked ∷ []

unfoldable pub is_purgeable : KeyState → Bool
is_purgeable s = includes purgeable_states s

-- quotaStates
abbrev pub quota_states : List KeyState
quota_states = provisioning ∷ active ∷ disabled ∷ []

unfoldable pub counts_for_quota : KeyState → Bool
counts_for_quota s = includes quota_states s

-- LIVE_KEY_STATES: a peer may be left on a node.
abbrev pub live_states : List KeyState
live_states = provisioning ∷ active ∷ disabled ∷ revoking ∷ failed ∷ []

unfoldable pub is_live : KeyState → Bool
is_live s = includes live_states s

-- rotatableStates of the control API
abbrev pub rotatable_states : List KeyState
rotatable_states = active ∷ failed ∷ []

unfoldable pub is_rotatable : KeyState → Bool
is_rotatable s = includes rotatable_states s

-- HIDDEN_KEY_STATES and isVisibleToOwner
abbrev pub hidden_states : List KeyState
hidden_states = revoking ∷ revoked ∷ []

unfoldable pub is_visible_to_owner : KeyState → Bool
is_visible_to_owner s = if includes hidden_states s then false else true

-- the revocable states of the worker's disableAndRevoke
abbrev pub swept_states : List KeyState
swept_states = provisioning ∷ active ∷ disabled ∷ failed ∷ []

unfoldable pub is_swept : KeyState → Bool
is_swept s = includes swept_states s

unfoldable pub count_quota_keys : List KeyState → ℕ
unfolding counts_for_quota
count_quota_keys [] = 0
count_quota_keys (s ∷ ss) =
    if counts_for_quota s then suc (count_quota_keys ss) else count_quota_keys ss

-- trafficDelta: what a counter moved by, and whether it was reset in between.
unfoldable pub traffic_delta : ℕ → ℕ → ℕ × Bool
traffic_delta previous current =
    if leb previous current then (current - previous, false) else (current, true)
