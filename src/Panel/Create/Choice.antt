-- ===== src/Panel/Create/Choice.antt =====
-- Which server a new key is placed on, and which error says that there is none.
use amnezia_shared_panel.Base.{
  ◌≡◌, refl, Bool, true, false, ◌||◌, List, [], ◌∷◌, Option, none, some, if◌then◌else◌, any, first,
  arith, Option-cases, inl, inr,
}
use amnezia_shared_panel.Panel.{
  Answer, ok, err, ApiError, quota_exceeded, node_at_capacity, protocol_not_allowed,
  node_not_allowed, node_unavailable,
}
use amnezia_shared_panel.Panel.Create.{
  Server, Obstacle, availability, protocol_block, user_quota, node_capacity, Blocked, select, mark,
  explain, select_server,
}

abbrev pub is_clear : Option Obstacle → Bool
is_clear none = true
is_clear (some _) = false

abbrev pub is_obstacle : Obstacle → Option Obstacle → Bool
is_obstacle availability (some availability) = true
is_obstacle protocol_block (some protocol_block) = true
is_obstacle user_quota (some user_quota) = true
is_obstacle node_capacity (some node_capacity) = true
is_obstacle _ _ = false

-- The most telling obstacle that any candidate met.
abbrev pub refusal : (Obstacle → Bool) → ApiError
refusal met =
    if met user_quota
    then quota_exceeded
    else if met node_capacity
    then node_at_capacity
    else if met protocol_block
    then protocol_not_allowed
    else if met availability
    then node_not_allowed
    else node_unavailable

abbrev pub meets : (Server → Option Obstacle) → List Server → Obstacle → Bool
meets f ss o = any (λ s. is_obstacle o (f s)) ss

abbrev flag : Blocked → Obstacle → Bool
flag b availability = b.by_availability
flag b protocol_block = b.by_protocol
flag b user_quota = b.by_quota
flag b node_capacity = b.by_capacity

abbrev pub choice : Option Server → ApiError → Answer Server
choice none e = err e
choice (some s) e = ok s

select_lem :
    (f : Server → Option Obstacle) (ss : List Server) (b : Blocked)
    → select f ss b
      ≡ choice (first (λ s. is_clear (f s)) ss) (refusal (λ o. flag b o || meets f ss o))
unfolding select explain mark
select_lem f [] b = ground arith
select_lem f (s ∷ ss) b = elim (Option-cases (f s)) [
  | inl e ↦ rw (e, select) refl
  | inr (availability, e) ↦
      let later = select_lem f ss (mark availability b) in rw (e, select) (ground (arith, later))
  | inr (protocol_block, e) ↦
      let later = select_lem f ss (mark protocol_block b) in rw (e, select) (ground (arith, later))
  | inr (user_quota, e) ↦
      let later = select_lem f ss (mark user_quota b) in rw (e, select) (ground (arith, later))
  | inr (node_capacity, e) ↦
      let later = select_lem f ss (mark node_capacity b) in rw (e, select) (ground (arith, later))
]

-- The search takes the first candidate without an obstacle. There is an error only if every
-- candidate has one, and it names the user's quota before the node's capacity, that before the
-- protocol, and that before the node's availability.
pub select_server_lem :
    (f : Server → Option Obstacle) (ss : List Server)
    → select_server f ss ≡ choice (first (λ s. is_clear (f s)) ss) (refusal (meets f ss))
unfolding select_server
select_server_lem f ss = select_lem f ss _
