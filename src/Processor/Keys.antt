-- ===== src/Processor/Keys.antt =====
-- The jobs of a key: `vpn-key.provision`, `rotate`, `revoke`, `disable` and `enable`, each after
-- the key's row was loaded.
use text.Mathlib.Text.{◌==◌ as str_eq}
use amnezia_shared_panel.Base.{
  ℕ, Bool, List, [], ◌∷◌, ◌++◌, Option, none, some, String, if◌then◌else◌, any, first,
}
use amnezia_shared_panel.Keys.{same_state, provisioning, active, disabled, revoked}
use amnezia_shared_panel.Panel.{Db, Key, Reason}
use amnezia_shared_panel.Panel.Outbox.{complete_job, complete_provision, complete_lifecycle}
use amnezia_shared_panel.Processor.{
  Client, Reply, answers, fails, Agent, Handled, handled, throws_with, chars, truthy, find_peer,
}

module _ {N : Type 0} (agent : Agent N) (now : ℕ) where
  abbrev deleted_orphan : Reason → Option Reason × N → Option Reason × N
  deleted_orphan reason (some error, n) = (some error, n)
  deleted_orphan reason (none, n) = (some (reason ++ chars "; reconciled orphan peer"), n)

  abbrev delete_orphan : Key → Reason → Option String → N → Option Reason × N
  delete_orphan key reason none n = (none, n)
  delete_orphan key reason (some peer) n = deleted_orphan reason (agent.delete_client key peer n)

  abbrev listed_orphan : Key → Reason → Reply (List Client) × N → Option Reason × N
  listed_orphan key reason (fails error, n) = (some error, n)
  listed_orphan key reason (answers clients, n) =
      delete_orphan key reason (find_peer clients key.node_label) n

  -- reconcileOrphan: it throws after a deletion too, so that the job is tried again.
  unfoldable pub reconcile_orphan : Key → Reason → N → Option Reason × N
  reconcile_orphan key reason n = listed_orphan key reason (agent.list_clients key.node_id n)

  -- The `catch` of a provisioning attempt.
  abbrev pub clean_up : Reason → Db → Option Reason × N → Handled Db N
  clean_up reason db (some error, n) = throws_with error db n
  clean_up reason db (none, n) = throws_with reason db n

  abbrev pub changed_state : Reason
  changed_state = chars "Provisioning key changed state before completion"

  abbrev pub store_config : Key → Db → Option Db → N → Handled Db N
  store_config key db none n = clean_up changed_state db (reconcile_orphan key changed_state n)
  store_config key db (some after) n = handled after n

  abbrev pub created_peer : ℕ → Key → Db → Reply String × N → Handled Db N
  created_peer job_id key db (fails reason, n) = clean_up reason db (reconcile_orphan key reason n)
  created_peer job_id key db (answers public_key, n) =
      store_config key db (complete_provision now job_id key.id public_key db) n

  abbrev pub checked : ℕ → Key → Db → Option Reason × N → Handled Db N
  checked job_id key db (some error, n) = throws_with error db n
  checked job_id key db (none, n) = created_peer job_id key db (agent.create_client key n)

  unfoldable pub provision_key : ℕ → Key → Db → N → Handled Db N
  unfolding reconcile_orphan
  provision_key job_id key db n =
      if same_state key.state provisioning
      then checked job_id key db
          (reconcile_orphan key (chars "Peer existed before provisioning attempt") n)
      else handled (complete_job now job_id db) n

  abbrev pub store_rotated : Db → Option Db → N → Handled Db N
  store_rotated db none n = throws_with changed_state db n
  store_rotated db (some after) n = handled after n

  abbrev pub recreated : ℕ → Key → Db → Reply String × N → Handled Db N
  recreated job_id key db (fails reason, n) = throws_with reason db n
  recreated job_id key db (answers public_key, n) =
      store_rotated db (complete_provision now job_id key.id public_key db) n

  abbrev pub replaced : ℕ → Key → Db → Option Reason × N → Handled Db N
  replaced job_id key db (some error, n) = throws_with error db n
  replaced job_id key db (none, n) = recreated job_id key db (agent.create_client key n)

  abbrev pub replace_peer : ℕ → Key → Db → Option String → N → Handled Db N
  replace_peer job_id key db none n = replaced job_id key db (none, n)
  replace_peer job_id key db (some old) n = replaced job_id key db (agent.delete_client key old n)

  abbrev pub found_old : ℕ → Key → Db → Reply (List Client) × N → Handled Db N
  found_old job_id key db (fails reason, n) = throws_with reason db n
  found_old job_id key db (answers clients, n) =
      replace_peer job_id key db (truthy (find_peer clients key.node_label)) n

  -- The public key of the row, or else the first peer under its label.
  abbrev pub rotate_from : ℕ → Key → Db → Option String → N → Handled Db N
  rotate_from job_id key db none n = found_old job_id key db (agent.list_clients key.node_id n)
  rotate_from job_id key db (some public_key) n =
      replace_peer job_id key db (truthy (some public_key)) n

  unfoldable pub rotate_peer : ℕ → Key → Db → N → Handled Db N
  rotate_peer job_id key db n =
      if same_state key.state provisioning
      then rotate_from job_id key db key.public_key n
      else handled (complete_job now job_id db) n

  -- The peers under one name are deleted in order, up to the first call that throws.
  unfoldable pub delete_peers : Key → List String → N → Option Reason × N
  delete_peers key [] n = (none, n)
  delete_peers key (peer ∷ peers) n =
      let (error, m) = agent.delete_client key peer n in
      elim error [ some reason ↦ (some reason, m) | none ↦ delete_peers key peers m ]

  abbrev client_by_label : List Client → Key → Option Client
  client_by_label clients key = first (λ c. str_eq c.username key.node_label) clients

  -- By public key first, and by the label if no client has it.
  unfoldable pub client_of : List Client → Key → Option Client
  client_of clients key = elim (truthy key.public_key) [
    | none ↦ client_by_label clients key
    | some public_key ↦ elim (first (λ c. any (λ p. str_eq p public_key) c.peers) clients) [
      | none ↦ client_by_label clients key
      | some c ↦ some c
    ]
  ]

  abbrev pub peers_of : Option Client → List String
  peers_of none = []
  peers_of (some c) = c.peers

  abbrev pub finish_revoke : ℕ → Key → Db → Option Reason × N → Handled Db N
  finish_revoke job_id key db (some error, n) = throws_with error db n
  finish_revoke job_id key db (none, n) =
      handled (complete_lifecycle now job_id key.id revoked db) n

  abbrev pub listed_clients : ℕ → Key → Db → Reply (List Client) × N → Handled Db N
  listed_clients job_id key db (fails reason, n) = throws_with reason db n
  listed_clients job_id key db (answers clients, n) =
      finish_revoke job_id key db (delete_peers key (peers_of (client_of clients key)) n)

  unfoldable pub revoke_key : ℕ → Key → Db → N → Handled Db N
  unfolding delete_peers client_of
  revoke_key job_id key db n = listed_clients job_id key db (agent.list_clients key.node_id n)

  abbrev pub set_status : ℕ → Key → Bool → Db → Option Reason × N → Handled Db N
  set_status job_id key enabled db (some error, n) = throws_with error db n
  set_status job_id key enabled db (none, n) =
      handled (complete_lifecycle now job_id key.id (if enabled then active else disabled) db) n

  abbrev pub switch_at : ℕ → Key → Bool → Db → Option String → N → Handled Db N
  switch_at job_id key enabled db none n = throws_with (chars "Key has no node public key") db n
  switch_at job_id key enabled db (some public_key) n =
      set_status job_id key enabled db (agent.set_client_status key public_key enabled n)

  -- `vpn-key.disable` and `vpn-key.enable`
  unfoldable pub switch_key : ℕ → Key → Bool → Db → N → Handled Db N
  switch_key job_id key enabled db n = switch_at job_id key enabled db (truthy key.public_key) n
