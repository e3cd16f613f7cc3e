-- ===== src/Reconcile.antt =====
-- The reconciliation of a node: the `node.reconcile` branch of apps/worker/src/processor.ts, which
-- matches the peers that a node reports to the panel's keys of that node, by public key first and
-- then by label. The set of unmatched indexes is the list of the unmatched peers, in the node's
-- order. An observation's telemetry is not modelled.
pub mod Laws
pub mod Own
mod Tests
use amnezia_shared_panel.Base.{
  ℕ, Bool, true, false, not, ◌&&◌, List, [], ◌∷◌, ◌++◌, Option, none, some, String, if◌then◌else◌,
  ◌==◌, any, keep, length,
}
use text.Mathlib.Text.{◌==◌ as str_eq}
use amnezia_shared_panel.Keys.{KeyState, revoking, same_state}

pub record ManagedKey : Type 0 where
  pub key_id : ℕ
  pub node_label : String
  pub public_key : Option String
  pub state : KeyState

pub record Peer : Type 0 where
  pub node_label : String
  pub id : String

-- An entry of `matchedPeerByKeyId`.
pub record Match : Type 0 where
  pub key : ManagedKey
  pub peer : Peer

-- findIndex with the deletion of what it finds: the first unmatched peer that passes.
unfoldable pub take_first : (Peer → Bool) → List Peer → Option (Peer × List Peer)
take_first p [] = none
take_first p (x ∷ xs) =
    if p x
    then some (x, xs)
    else elim (take_first p xs) [ none ↦ none | some (y, ys) ↦ some (y, x ∷ ys) ]

abbrev pub by_key : ManagedKey → Peer → Bool
by_key k p = elim k.public_key [ none ↦ false | some key ↦ str_eq p.id key ]

abbrev pub by_label : ManagedKey → Peer → Bool
by_label k p = str_eq p.node_label k.node_label

abbrev pub is_matched : ManagedKey → List Match → Bool
is_matched k ms = any (λ m. m.key.key_id == k.key_id) ms

pub record Matching : Type 0 where
  pub matched : List Match
  pub unmatched : List Peer

-- One key against the peers that are left.
unfoldable pub claim_peer : (Peer → Bool) → ManagedKey → Matching → Matching
unfolding take_first
claim_peer p k m = elim (take_first p m.unmatched) [
  | none ↦ m
  | some (peer, left) ↦ record {
    matched = m.matched ++ record { key = k; peer = peer } ∷ [];
    unmatched = left;
  }
]

unfoldable pub first_pass : List ManagedKey → Matching → Matching
unfolding claim_peer
first_pass [] m = m
first_pass (k ∷ ks) m = first_pass ks (claim_peer (by_key k) k m)

unfoldable pub second_pass : List ManagedKey → Matching → Matching
unfolding claim_peer
second_pass [] m = m
second_pass (k ∷ ks) m =
    second_pass ks (if is_matched k m.matched then m else claim_peer (by_label k) k m)

unfoldable pub match_peers : List ManagedKey → List Peer → Matching
unfolding first_pass second_pass
match_peers keys peers =
    second_pass keys (first_pass keys (record { matched = []; unmatched = peers }))

pub record Summary : Type 0 where
  pub managed_key_count : ℕ
  pub observed_peer_count : ℕ
  pub matched_peer_count : ℕ
  pub missing_managed_peer_count : ℕ
  pub orphan_node_peer_count : ℕ
  pub revoking_key_count : ℕ
  pub stranded_revoking_peer_count : ℕ

abbrev pub is_revoking : ManagedKey → Bool
is_revoking k = same_state k.state revoking

unfoldable pub summarize : List ManagedKey → List Peer → Summary
unfolding match_peers
summarize keys peers =
    let m = match_peers keys peers in
    record {
      managed_key_count = length keys;
      observed_peer_count = length peers;
      matched_peer_count = length (keep (λ k. is_matched k m.matched) keys);
      missing_managed_peer_count =
          length (keep (λ k. not (is_revoking k) && not (is_matched k m.matched)) keys);
      orphan_node_peer_count = length m.unmatched;
      revoking_key_count = length (keep is_revoking keys);
      stranded_revoking_peer_count =
          length (keep (λ k. is_matched k m.matched) (keep is_revoking keys));
    }
