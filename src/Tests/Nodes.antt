-- ===== src/Tests/Nodes.antt =====
-- A node that goes offline and comes back, at a concrete database.
use opendebrid.Prelude.{◌≡◌, true, false, not, ◌&&◌, [], ◌∷◌, map, any, select, count_where}
use opendebrid.Prelude.Exec.{ok}
use opendebrid.Database.Model.{Job, on_node}
use opendebrid.Database.Jobs.{keeps_files, inactive_on, on_disk}
use opendebrid.Database.NodeStatus.{mark_node_offline, reconcile_node_on_startup}
use opendebrid.Database.NodeStatus.Outcome.{
  taken_offline, if_on_node, brought_back, jobs-mark_node_offline, reconcile_node_on_startup_lem,
}
use opendebrid.Util.StorageDir.Orphans.{holds_key}
use opendebrid.Worker.Reconcile.{
  reconcile_node, dirs_after, found_on_disk, keeps_key, reconcile_node_lem,
  reconcile_node_lost_keys,
}
use opendebrid.World.{calm}
use opendebrid.Tests.Data.{n1, key1, world1, dirs1}

jobs-mark_node_offline_example :
    (mark_node_offline n1 (calm world1)).1.db.jobs
    ≡ map (if_on_node n1 (λ j. taken_offline world1.db.clock j j.status)) world1.db.jobs
jobs-mark_node_offline_example = jobs-mark_node_offline n1 world1

reconcile_node_on_startup_lem_example :
    (let r = reconcile_node_on_startup n1 (key1 ∷ []) (calm world1) in
      (r.1.db.jobs ≡ map (if_on_node n1 (brought_back world1.db.clock (key1 ∷ []))) world1.db.jobs)
      × (r.0
          ≡ ok (record {
            valid_keys =
                map
                  (λ (j : Job). j.storage_key)
                  (select (λ j. on_node n1 j && keeps_files j.status) r.1.db.jobs);
            restored_count =
                count_where (λ j. inactive_on n1 j && on_disk (key1 ∷ []) j) world1.db.jobs;
            failed_count =
                count_where (λ j. inactive_on n1 j && not (on_disk (key1 ∷ []) j)) world1.db.jobs;
          })))
reconcile_node_on_startup_lem_example = reconcile_node_on_startup_lem n1 (key1 ∷ []) world1

reconcile_node_lem_example :
    (let r = reconcile_node false false n1 dirs1 (calm world1) in
      (r.1.db.jobs ≡ map (if_on_node n1 (found_on_disk world1.db.clock dirs1)) world1.db.jobs)
      × (holds_key key1 (dirs_after dirs1 r.0)
          ≡ (any (keeps_key n1 key1) r.1.db.jobs && holds_key key1 dirs1)))
reconcile_node_lem_example = reconcile_node_lem n1 key1 dirs1 false world1

reconcile_node_lost_keys_example :
    holds_key key1 (
      dirs_after dirs1
        (reconcile_node false false n1 dirs1
          (record world1 { faults = false ∷ false ∷ true ∷ [] })).0)
    ≡ false
reconcile_node_lost_keys_example = reconcile_node_lost_keys n1 key1 dirs1 false [] world1
