-- ===== src/Database/NodeStatus/Outcome.antt =====
-- What going offline and coming back does to each job.
use opendebrid.Prelude.{
  ℕ, ◌≡◌, refl, not, ◌&&◌, none, some, List, [], ◌∷◌, map, Text, codes, select, count_where,
  update_where, arith, if◌then◌else◌,
}
use opendebrid.Prelude.Exec.{ok}
use opendebrid.Database.Model.{
  Status, queued, active, completed, failed, inactive, Job, Db, on_node, is_live, is_completed,
  is_inactive,
}
use opendebrid.Database.Jobs.{
  is_local, on_disk, keeps_files, inactive_on, mark_node_active_jobs_failed,
  mark_node_completed_jobs_inactive, restore_node_inactive_jobs_with_keys,
  fail_node_inactive_jobs_missing_keys, list_storage_keys_by_node,
}
use opendebrid.Database.Nodes.{set_node_offline}
use opendebrid.Database.NodeStatus.{mark_node_offline, reconcile_node_on_startup}
use opendebrid.World.{World, calm}

-- The fate of one job of a node that goes offline, by its status.
abbrev pub taken_offline : ℕ → Job → Status → Job
taken_offline clock j queued = record j {
  status = failed;
  error_message = some (codes "node went offline");
  updated_at = clock;
}
taken_offline clock j active = record j {
  status = failed;
  error_message = some (codes "node went offline");
  updated_at = clock;
}
taken_offline clock j completed =
    if is_local j.file_location then record j { status = inactive; updated_at = clock } else j
taken_offline clock j failed = j
taken_offline clock j inactive = j

abbrev pub if_on_node : Text → (Job → Job) → Job → Job
if_on_node node f j = if on_node node j then f j else j

offline_jobs :
    (node : Text) (db : Db) (jobs : List Job)
    → update_where
        (λ j. on_node node j && (is_completed j.status && is_local j.file_location))
        (λ j. record (record j { status = inactive }) { updated_at = db.clock })
        (update_where
          (λ j. on_node node j && is_live j.status)
          (λ j.
            record (record j {
              status = failed;
              error_message = some (codes "node went offline");
            }) { updated_at = db.clock })
          jobs)
      ≡ map (if_on_node node (λ j. taken_offline db.clock j j.status)) jobs
unfolding on_node
offline_jobs node db [] = refl
offline_jobs node db (j ∷ js) = ground (arith, offline_jobs node db js)

-- When a node goes offline and the database answers, its queued and active jobs are failed, its
-- completed jobs with local files become inactive, and every other job stays as it was.
pub jobs-mark_node_offline :
    (node : Text) (w : World)
    → (mark_node_offline node (calm w)).1.db.jobs
      ≡ map (if_on_node node (λ j. taken_offline w.db.clock j j.status)) w.db.jobs
unfolding mark_node_offline set_node_offline mark_node_active_jobs_failed
    mark_node_completed_jobs_inactive
jobs-mark_node_offline node w = offline_jobs node w.db w.db.jobs

-- The fate of one job of a node that comes back with `keys` on its disk.
abbrev pub brought_back : ℕ → List Text → Job → Job
brought_back clock keys j =
    if is_inactive j.status
    then (if on_disk keys j then record j { status = completed; updated_at = clock } else record j {
      status = failed;
      error_message = some (codes "files not found on node after restart");
      file_location = none;
      updated_at = clock;
    })
    else j

reconcile_jobs :
    (node : Text) (keys : List Text) (db : Db) (jobs : List Job)
    → update_where
        (inactive_on node)
        (λ j.
          record (record j {
            status = failed;
            error_message = some (codes "files not found on node after restart");
            file_location = none;
          }) { updated_at = db.clock })
        (update_where
          (λ j. inactive_on node j && on_disk keys j)
          (λ j. record (record j { status = completed }) { updated_at = db.clock })
          jobs)
      ≡ map (if_on_node node (brought_back db.clock keys)) jobs
unfolding on_node
reconcile_jobs node keys db [] = refl
reconcile_jobs node keys db (j ∷ js) = ground (arith, reconcile_jobs node keys db js)

missing_count :
    (node : Text) (keys : List Text) (clock : ℕ) (jobs : List Job)
    → count_where (inactive_on node) (
        update_where
          (λ j. inactive_on node j && on_disk keys j)
          (λ j. record (record j { status = completed }) { updated_at = clock })
          jobs)
      ≡ count_where (λ j. inactive_on node j && not (on_disk keys j)) jobs
unfolding on_node
missing_count node keys clock [] = refl
missing_count node keys clock (j ∷ js) = ground (arith, missing_count node keys clock js)

-- When a node comes back and the database answers, each of its inactive jobs is completed if its
-- storage key is among the node's and failed with no location if not; no other job changes. The counts
-- are those of the restored and of the failed jobs, and the valid keys are the keys of the node's jobs
-- that have not failed.
pub reconcile_node_on_startup_lem :
    (node : Text) (keys : List Text) (w : World)
    → (let r = reconcile_node_on_startup node keys (calm w) in
        (r.1.db.jobs ≡ map (if_on_node node (brought_back w.db.clock keys)) w.db.jobs)
        × (r.0
            ≡ ok (record {
              valid_keys =
                  map
                    (λ (j : Job). j.storage_key)
                    (select (λ j. on_node node j && keeps_files j.status) r.1.db.jobs);
              restored_count = count_where (λ j. inactive_on node j && on_disk keys j) w.db.jobs;
              failed_count =
                  count_where (λ j. inactive_on node j && not (on_disk keys j)) w.db.jobs;
            })))
unfolding reconcile_node_on_startup restore_node_inactive_jobs_with_keys
    fail_node_inactive_jobs_missing_keys list_storage_keys_by_node
reconcile_node_on_startup_lem node keys w =
    (reconcile_jobs node keys w.db w.db.jobs, rw (missing_count node keys w.db.clock w.db.jobs))
