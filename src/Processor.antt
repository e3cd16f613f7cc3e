-- ===== src/Processor.antt =====
-- The job processor of the worker (apps/worker/src/processor.ts): what it does with a claimed job,
-- by the job's type. The node agents are a service of their own: `Agent` is their interface, and
-- `N` is whatever state they keep. A call of an agent is given the row of the key, for the node and
-- the protocol that it names.
pub mod Keys
pub mod Jobs
pub mod Revoked
mod Rows
mod Reached
mod Sync
pub mod Refines
mod Tests
use Prim.Native.String.{[] as empty, ◌∷◌ as char_then}
use Prim.Native.Char.{code}
use text.Mathlib.Text.{◌==◌ as str_eq}
use amnezia_shared_panel.Base.{
  ℕ, Bool, true, false, ◌&&◌, not, List, [], ◌∷◌, ◌++◌, Option, none, some, String, ◌==◌, any,
  first,
}
use amnezia_shared_panel.Panel.{Db, Key, Reason}

-- A `NodeClientRecord`: a user name of the node and the public keys of its peers.
pub record Client : Type 0 where
  pub username : String
  pub peers : List String

-- What an agent's call comes to.
pub data Reply {ℓ} (A : Type ℓ) : Type ℓ where
  answers : A → Reply A
  fails : Reason → Reply A

-- NodeAgent, as far as the processor calls it. An `Option Reason` is the error, if it throws.
pub record Agent (N : Type 0) : Type 0 where
  pub list_clients : ℕ → N → Reply (List Client) × N
  pub create_client : Key → N → Reply String × N
  pub delete_client : Key → String → N → Option Reason × N
  pub set_client_status : Key → String → Bool → N → Option Reason × N
  pub request_agent_update : ℕ → String → N → Option Reason × N
  pub request_capacity : ℕ → ℕ → N → Option Reason × N

-- What a handler leaves: its error if it threw, the rows, and the nodes.
pub record Handled (A N : Type 0) : Type 0 where
  pub error : Option Reason
  pub rows : A
  pub node : N

abbrev pub handled : {A N : Type 0} → A → N → Handled A N
handled rows node = record { error = none; rows = rows; node = node }

abbrev pub throws_with : {A N : Type 0} → Reason → A → N → Handled A N
throws_with reason rows node = record { error = some reason; rows = rows; node = node }

-- The characters of a message.
abbrev pub chars : String → Reason
chars empty = []
chars (char_then c s) = code c ∷ chars s

-- A string that is there and is not empty.
abbrev pub truthy : Option String → Option String
truthy none = none
truthy (some empty) = none
truthy (some (char_then c s)) = some (char_then c s)

-- findPeer
abbrev pub find_peer : List Client → String → Option String
find_peer clients label = elim (first (λ c. str_eq c.username label) clients) [
  | none ↦ none
  | some c ↦ first (λ _. true) c.peers
]

-- loadKeyContext: the row of the key, joined with that of its node.
unfoldable pub load_key_context : ℕ → Db → Option Key
load_key_context key_id db =
    first (λ k. k.id == key_id && any (λ n. n.id == k.node_id) db.nodes) db.keys
