-- ===== src/Reaper.antt =====
-- The nodes whose heartbeats have stopped (internal/controller/server.go): reapStaleNodes, a round each minute,
-- and what Run does with them at the start.
pub mod Idle
use opendebrid.Prelude.{ℕ, Bool, true, false, List, [], ◌∷◌, Text}
use opendebrid.Prelude.Exec.{Result, ok, err, Exec, pure, attempt, ◌>>=◌, ◌>>◌}
use opendebrid.Database.Jobs.{restore_stale_inactive_jobs}
use opendebrid.Database.Nodes.{mark_stale_nodes_offline, update_node_heartbeat}
use opendebrid.Database.NodeStatus.{
  ReconcileResult, keys_or_nil, logged, mark_node_jobs_for_offline, reconcile_node_on_startup,
}
use opendebrid.Util.StorageDir.{Dir, scan_storage_keys}
use opendebrid.World.{World, query}

-- Three heartbeats of 30 seconds.
abbrev pub stale_node_threshold : ℕ
stale_node_threshold = 90

-- `for _, nodeID := range nodeIDs`
unfoldable pub each_offline : List Text → Exec World Unit
unfolding mark_node_jobs_for_offline
each_offline [] = pure tt
each_offline (node ∷ nodes) = do mark_node_jobs_for_offline node; each_offline nodes

-- A failed statement gives no ids.
unfoldable pub offline_stale : Bool → Exec World Unit
unfolding each_offline
offline_stale exclude_controller = do
  ids ← attempt (query (mark_stale_nodes_offline stale_node_threshold exclude_controller))
  each_offline (keys_or_nil ids)

-- One round of the loop.
unfoldable pub reap_stale_nodes : Exec World Unit
unfolding offline_stale
reap_stale_nodes = do offline_stale false; logged (query restore_stale_inactive_jobs)

-- A round of the controller's own heartbeat.
abbrev pub controller_heartbeat : Text → ℕ → ℕ → Exec World Unit
controller_heartbeat node total available =
    logged (query (update_node_heartbeat node total available))

-- What `Run` does with the nodes at the start, the controller's own among them, up to its clean-up of `dirs`.
abbrev pub nodes_at_start : Text → List Dir → Exec World ReconcileResult
unfolding offline_stale mark_node_jobs_for_offline
nodes_at_start node dirs = do
  offline_stale true
  mark_node_jobs_for_offline node
  reconcile_node_on_startup node (scan_storage_keys dirs)
