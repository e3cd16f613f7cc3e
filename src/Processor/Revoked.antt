-- ===== src/Processor/Revoked.antt =====
-- A revoke that does not throw leaves no peer with the key's public key on the node.
use mathlib.Core.Path.{subst}
use text.Mathlib.Text.{◌==◌ as str_eq}
use amnezia_shared_panel.Base.{
  ℕ, ◌≡◌, refl, sym, ap, ◌∙◌, Bool, true, false, List, [], ◌∷◌, Option, none, some, String, ◌⊎◌,
  Bool-cases, Option-cases, inl, inr, arith, any, first, first-passes, eq_iff,
}
use amnezia_shared_panel.Keys.{revoked}
use amnezia_shared_panel.Panel.{Db, Key, Reason}
use amnezia_shared_panel.Panel.Outbox.{complete_lifecycle}
use amnezia_shared_panel.Processor.{Client, Reply, answers, fails, Agent, truthy}
use amnezia_shared_panel.Processor.Keys.{
  delete_peers, client_of, peers_of, listed_clients, finish_revoke, revoke_key,
}

abbrev pub has_peer : String → List Client → Bool
has_peer public_key clients = any (λ c. any (λ p. str_eq p public_key) c.peers) clients

-- What the node agents promise: `holds` is whether a peer is on the node, a deletion that answers
-- removes it and adds no other, and a list that answers leaves out no peer.
pub record AgentLaws {N : Type 0} (agent : Agent N) (holds : N → String → Bool) : Type 0 where
  pub deletes :
      (key : Key) (peer : String) (n : N)
      → (agent.delete_client key peer n).0 ≡ none
      → holds (agent.delete_client key peer n).1 peer ≡ false
  pub adds_none :
      (key : Key) (peer other : String) (n : N)
      → holds n other ≡ false
      → holds (agent.delete_client key peer n).1 other ≡ false
  pub lists_all :
      (node_id : ℕ) (n m : N) (clients : List Client) (peer : String)
      → agent.list_clients node_id n ≡ (answers clients, m)
      → holds m peer ≡ true
      → has_peer peer clients ≡ true

first-none : {A : Type 0} (p : A → Bool) (xs : List A) → first p xs ≡ none → any p xs ≡ false
first-none p [] h = refl
first-none p (x ∷ xs) h = ground (arith, h, first-none p xs)

module _ {N : Type 0} (agent : Agent N) (now : ℕ) (holds : N → String → Bool)
    (laws : AgentLaws agent holds) (key : Key) (public_key : String) where
  delete_first :
      (peer : String) (peers : List String) (n : N)
      → (agent.delete_client key peer n).0 ≡ none
      → delete_peers agent now key (peer ∷ peers) n
        ≡ delete_peers agent now key peers (agent.delete_client key peer n).1
  unfolding delete_peers
  delete_first peer peers n e = rw (e, delete_peers) refl

  delete_stops :
      (peer : String) (peers : List String) (n : N) (reason : Reason)
      → (agent.delete_client key peer n).0 ≡ some reason
      → (delete_peers agent now key (peer ∷ peers) n).0 ≡ some reason
  unfolding delete_peers
  delete_stops peer peers n reason e = rw (e, delete_peers) refl

  abbrev Why : N → List String → Type 0
  Why n peers = (holds n public_key ≡ false) ⊎ (any (λ p. str_eq p public_key) peers ≡ true)

  Why-later :
      (peer : String) (peers : List String) (n : N)
      → (agent.delete_client key peer n).0 ≡ none
      → Why n (peer ∷ peers)
      → Why (agent.delete_client key peer n).1 peers
  Why-later peer peers n e (inl gone) = inl (laws.adds_none key peer public_key n gone)
  Why-later peer peers n e (inr named) = elim (Bool-cases (str_eq peer public_key)) [
    | inl q ↦ inl (
        subst (λ p. holds (agent.delete_client key peer n).1 p ≡ false)
          ((eq_iff peer public_key).0 q) (laws.deletes key peer n e))
    | inr q ↦ inr (ground (arith, q, named))
  ]

  delete_peers-removes :
      (peers : List String) (n : N)
      → (delete_peers agent now key peers n).0 ≡ none
      → Why n peers
      → holds (delete_peers agent now key peers n).1 public_key ≡ false
  unfolding delete_peers
  delete_peers-removes [] n h (inl gone) = gone
  delete_peers-removes [] n h (inr named) = absurd (ground (arith, named))
  delete_peers-removes (peer ∷ peers) n h why =
      elim (Option-cases (agent.delete_client key peer n).0) [
        | inl e ↦
            let next = delete_first peer peers n e in
            subst (λ r. holds r.1 public_key ≡ false) (sym next)
              (delete_peers-removes peers (agent.delete_client key peer n).1
                (sym (ap (λ r. r.0) next) ∙ h) (Why-later peer peers n e why))
        | inr (reason, e) ↦
            let thrown : some reason ≡ none = sym (delete_stops peer peers n reason e) ∙ h in
            absurd (ground (arith, thrown))
      ]

  client_of-some :
      (clients : List Client) (c : Client)
      → truthy key.public_key ≡ some public_key
      → first (λ c. any (λ p. str_eq p public_key) c.peers) clients ≡ some c
      → client_of agent now clients key ≡ some c
  unfolding client_of
  client_of-some clients c k e = rw (k, e, client_of) refl

  -- The client that is chosen has the peer, if any client has it.
  client_of-named :
      (clients : List Client)
      → truthy key.public_key ≡ some public_key
      → has_peer public_key clients ≡ true
      → any (λ p. str_eq p public_key) (peers_of agent now (client_of agent now clients key)) ≡ true
  client_of-named clients k h =
      let p = λ (c : Client). any (λ p. str_eq p public_key) c.peers in
      elim (Option-cases (first p clients)) [
        | inl e ↦ absurd (ground (arith, h, first-none p clients e))
        | inr (c, e) ↦
            subst (λ o. any (λ p. str_eq p public_key) (peers_of agent now o) ≡ true)
              (sym (client_of-some clients c k e)) (first-passes p clients c e)
      ]

  -- What a revoke leaves, by whether it threw.
  abbrev pub IsRevoked : ℕ → Db → Option Reason → Db → N → Type 0
  IsRevoked job_id db none rows n =
      (rows ≡ complete_lifecycle now job_id key.id revoked db) × (holds n public_key ≡ false)
  IsRevoked job_id db (some reason) rows n = rows ≡ db

  finished-IsRevoked :
      (job_id : ℕ) (db : Db) (e : Option Reason × N)
      → (e.0 ≡ none → holds e.1 public_key ≡ false)
      → IsRevoked job_id db
          (finish_revoke agent now job_id key db e).error
          (finish_revoke agent now job_id key db e).rows
          (finish_revoke agent now job_id key db e).node
  finished-IsRevoked job_id db (some reason, n) h = refl
  finished-IsRevoked job_id db (none, n) h = (refl, h refl)

  listed_clients-IsRevoked :
      (job_id : ℕ) (db : Db) (n : N) (r : Reply (List Client) × N)
      → truthy key.public_key ≡ some public_key
      → agent.list_clients key.node_id n ≡ r
      → IsRevoked job_id db
          (listed_clients agent now job_id key db r).error
          (listed_clients agent now job_id key db r).rows
          (listed_clients agent now job_id key db r).node
  listed_clients-IsRevoked job_id db n (fails reason, m) k e = refl
  listed_clients-IsRevoked job_id db n (answers clients, m) k e =
      finished-IsRevoked job_id db
        (delete_peers agent now key (peers_of agent now (client_of agent now clients key)) m)
        (λ h.
          delete_peers-removes (peers_of agent now (client_of agent now clients key)) m h
            (elim (Bool-cases (holds m public_key)) [
              | inl there ↦ inr (
                  client_of-named clients k
                    (laws.lists_all key.node_id n m clients public_key e there))
              | inr gone ↦ inl gone
            ]))

  -- If the node agents keep their promises and the key has a public key that is not empty, then a
  -- revoke that does not throw writes the key as revoked and the job as completed, and no peer with
  -- that public key is left on the node. One that throws leaves the rows as they were.
  pub revoke_key-removes :
      (job_id : ℕ) (db : Db) (n : N)
      → truthy key.public_key ≡ some public_key
      → IsRevoked job_id db
          (revoke_key agent now job_id key db n).error
          (revoke_key agent now job_id key db n).rows
          (revoke_key agent now job_id key db n).node
  unfolding revoke_key
  revoke_key-removes job_id db n k =
      listed_clients-IsRevoked job_id db n (agent.list_clients key.node_id n) k refl
