-- ===== src/Panel/Nodes.antt =====
-- The transactions that end a node's job: `completeNodeReconcile`, `completeNodeAgentUpdate` and
-- `completeNodeCapacityChange` (apps/worker/src/postgresRepository.ts). The telemetry rows of the
-- peers, and the state, message and log columns of a request, are not modelled.
use amnezia_shared_panel.Base.{ℕ, ◌==◌, some, String}
use amnezia_shared_panel.Panel.{
  Db, Node, AuditAction, node_reconcile, agent_update_requested, set_capacity_requested,
  update_where, log,
}
use amnezia_shared_panel.Panel.Outbox.{set_job, finish}

abbrev set_node : ℕ → (Node → Node) → Db → Db
set_node id f db = record db { nodes = update_where (λ n. n.id == id) f db.nodes }

-- The row of the node, one audit row, and the end of the job.
unfoldable pub complete_node_job : AuditAction → (Node → Node) → ℕ → ℕ → ℕ → Db → Db
complete_node_job action change now job_id node_id db =
    set_job job_id (finish now) (log action node_id (set_node node_id change db))

abbrev pub complete_node_reconcile : ℕ → ℕ → ℕ → Db → Db
complete_node_reconcile now =
    complete_node_job node_reconcile (λ n. record n { last_sync_at = some now }) now

abbrev pub complete_node_agent_update : String → ℕ → ℕ → ℕ → Db → Db
complete_node_agent_update image =
    complete_node_job agent_update_requested (λ n. record n { agent_update_image = some image })

abbrev pub complete_node_capacity_change : ℕ → ℕ → ℕ → ℕ → Db → Db
complete_node_capacity_change max_peers =
    complete_node_job set_capacity_requested
      (λ n. record n { capacity_requested_peers = some max_peers })
