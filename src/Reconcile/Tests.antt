-- ===== src/Reconcile/Tests.antt =====
-- A node that carries a stale peer and the current one under one label.
use amnezia_shared_panel.Base.{◌+◌, ◌≡◌, refl, [], ◌∷◌, some, All}
use text.Mathlib.Text.{◌==◌ as str_eq}
use amnezia_shared_panel.Keys.{active}
use amnezia_shared_panel.Reconcile.{ManagedKey, Peer, match_peers}
use amnezia_shared_panel.Reconcile.Laws.{matched_with, peers_with, match_peers-total}
use amnezia_shared_panel.Reconcile.Own.{IsOwn, match_peers-IsOwn}

abbrev phone : ManagedKey
phone = record { key_id = 1; node_label = "ap_1"; public_key = some "new"; state = active }

abbrev stale : Peer
stale = record { node_label = "ap_1"; id = "old" }

abbrev current : Peer
current = record { node_label = "ap_1"; id = "new" }

key_wins :
    (match_peers (phone ∷ []) (stale ∷ current ∷ [])).matched
    ≡ record { key = phone; peer = current } ∷ []
unfolding match_peers
key_wins = refl

match_peers-total_example :
    matched_with
        (λ p. str_eq p.node_label "ap_1")
        (match_peers (phone ∷ []) (stale ∷ current ∷ [])).matched
      + peers_with
          (λ p. str_eq p.node_label "ap_1")
          (match_peers (phone ∷ []) (stale ∷ current ∷ [])).unmatched
    ≡ peers_with (λ p. str_eq p.node_label "ap_1") (stale ∷ current ∷ [])
match_peers-total_example =
    match_peers-total (λ p. str_eq p.node_label "ap_1") (phone ∷ []) (stale ∷ current ∷ [])

match_peers-IsOwn_example :
    All
      (IsOwn (match_peers (phone ∷ []) (stale ∷ current ∷ [])).unmatched)
      (match_peers (phone ∷ []) (stale ∷ current ∷ [])).matched
match_peers-IsOwn_example = match_peers-IsOwn (phone ∷ []) (stale ∷ current ∷ [])
