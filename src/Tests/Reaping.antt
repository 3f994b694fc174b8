-- ===== src/Tests/Reaping.antt =====
-- A round of the reaper at a concrete database.
use opendebrid.Prelude.{◌≢◌, refl, inl, inr, some, [], ◌∷◌, codes, arith, eq_text, has_prefix}
use opendebrid.Database.Jobs.{
  mark_node_active_jobs_failed, mark_node_completed_jobs_inactive, restore_stale_inactive_jobs,
}
use opendebrid.Database.Nodes.{mark_stale_nodes_offline}
use opendebrid.Database.NodeStatus.{mark_node_jobs_for_offline}
use opendebrid.Reaper.{each_offline, offline_stale, reap_stale_nodes}
use opendebrid.Reaper.Idle.{reap_stale_nodes-Idle}
use opendebrid.World.{World}
use opendebrid.Database.Model.{Node, Job, queued, active, failed, on_node}
use opendebrid.Tests.Data.{job2, db1, world1}
use opendebrid.Tests.Downloads.{node1}

-- The node's last heartbeat was at 1, the clock is at 200.
abbrev node2 : Node
node2 = record node1 { last_heartbeat = some 1 }

abbrev world4 : World
world4 = record world1 { db = record db1 { nodes = node2 ∷ []; clock = 200 } }

-- The job that was active on it.
abbrev reaped1 : Job
reaped1 = record job2 {
  status = failed;
  error_message = some (codes "node went offline");
  updated_at = 200;
}

reap_stale_nodes-Idle_example : (reaped1.status ≢ queued) × (reaped1.status ≢ active)
unfolding reap_stale_nodes offline_stale each_offline mark_stale_nodes_offline
    mark_node_jobs_for_offline mark_node_active_jobs_failed mark_node_completed_jobs_inactive
    restore_stale_inactive_jobs on_node eq_text has_prefix
reap_stale_nodes-Idle_example =
    reap_stale_nodes-Idle world4 node2 1 reaped1 (inl refl) refl refl (omega arith) (inr (inl refl))
      refl
