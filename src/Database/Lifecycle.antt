-- ===== src/Database/Lifecycle.antt =====
-- The queries that write the jobs table or the nodes table (internal/database/gen/jobs.sql.go, nodes.sql.go)
-- as one kind of step, and the time that passes between them as another. The service calls UpdateJobStatus
-- with two of the states, active and failed.
pub mod Evolved
pub mod History
use opendebrid.Prelude.{ℕ, ◌+◌, Bool, Option, none, some, List, [], ◌∷◌, Text}
use opendebrid.Database.Batches.{
  Progress, Failure, batch_update_job_progress, batch_complete_jobs, batch_fail_jobs,
}
use opendebrid.Database.Jobs.{
  CreateJobParams, create_job, update_job_status, fail_job, reset_job, delete_job,
  mark_node_active_jobs_failed, fail_node_jobs_for_deletion, mark_node_completed_jobs_inactive,
  restore_node_inactive_jobs, restore_node_inactive_jobs_with_keys,
  fail_node_inactive_jobs_missing_keys, restore_stale_inactive_jobs,
}
use opendebrid.Database.Model.{
  Status, queued, active, completed, failed, inactive, UploadStatus, Db,
}
use opendebrid.Database.Nodes.{
  UpsertNodeParams, upsert_node, update_node_heartbeat, set_node_offline, mark_stale_nodes_offline,
  delete_node,
}
use opendebrid.Database.Uploads.{
  claim_pending_uploads, complete_upload, set_upload_status, reset_stuck_uploads,
}

pub data Write : Type 0 where
  create : CreateJobParams → Write
  accept : ℕ → Text → Text → Write
  reject : ℕ → Text → Write
  fail : ℕ → Option Text → Write
  start_again : ℕ → Text → Text → Write
  delete : ℕ → Write
  node_lost node_deleted node_asleep node_back : Text → Write
  restore_keys : Text → List Text → Write
  fail_missing : Text → Write
  restore_stale : Write
  report_progress : List Progress → Write
  report_completed : Bool → List Progress → Write
  report_failed : List Failure → Write
  claim_uploads : Text → Write
  finish_upload : Text → ℕ → Write
  set_upload : UploadStatus → ℕ → Write
  reset_uploads : Text → Write
  time_passes : ℕ → Write
  register : UpsertNodeParams → Write
  beat : Text → ℕ → ℕ → Write
  set_offline remove_node : Text → Write
  mark_stale : ℕ → Bool → Write

unfoldable pub write : Write → Db → Db
unfolding create_job update_job_status fail_job reset_job delete_job mark_node_active_jobs_failed
    fail_node_jobs_for_deletion mark_node_completed_jobs_inactive restore_node_inactive_jobs
    restore_node_inactive_jobs_with_keys fail_node_inactive_jobs_missing_keys
    restore_stale_inactive_jobs batch_update_job_progress batch_complete_jobs batch_fail_jobs
    claim_pending_uploads complete_upload set_upload_status reset_stuck_uploads upsert_node
    update_node_heartbeat set_node_offline mark_stale_nodes_offline delete_node
write (create p) db = (create_job p db).1
write (accept id engine_job location) db = (update_job_status id active engine_job [] location db).1
write (reject id message) db = (update_job_status id failed [] message [] db).1
write (fail id message) db = (fail_job id message db).1
write (start_again id node url) db = (reset_job id node url db).1
write (delete id) db = (delete_job id db).1
write (node_lost node) db = (mark_node_active_jobs_failed node db).1
write (node_deleted node) db = (fail_node_jobs_for_deletion node db).1
write (node_asleep node) db = (mark_node_completed_jobs_inactive node db).1
write (node_back node) db = (restore_node_inactive_jobs node db).1
write (restore_keys node keys) db = (restore_node_inactive_jobs_with_keys node keys db).1
write (fail_missing node) db = (fail_node_inactive_jobs_missing_keys node db).1
write restore_stale db = (restore_stale_inactive_jobs db).1
write (report_progress us) db = (batch_update_job_progress us db).1
write (report_completed upload us) db = (batch_complete_jobs upload us db).1
write (report_failed us) db = (batch_fail_jobs us db).1
write (claim_uploads node) db = (claim_pending_uploads node db).1
write (finish_upload uri id) db = (complete_upload uri id db).1
write (set_upload status id) db = (set_upload_status status id db).1
write (reset_uploads node) db = (reset_stuck_uploads node db).1
write (time_passes n) db = record db { clock = db.clock + n }
write (register p) db = (upsert_node p db).1
write (beat node total available) db = (update_node_heartbeat node total available db).1
write (set_offline node) db = (set_node_offline node db).1
write (mark_stale interval controller) db = (mark_stale_nodes_offline interval controller db).1
write (remove_node node) db = (delete_node node db).1

-- The moves of a job's status.
pub data Move : Status → Status → Type 0 where
  stay : {s : Status} → Move s s
  start : {s : Status} → Move s active
  complete : {s : Status} → Move s completed
  give_up : {s : Status} → Move s failed
  sleep : Move completed inactive
  retry_failed : Move failed queued
  retry_inactive : Move inactive queued

abbrev pub writes : List Write → Db → Db
writes [] db = db
writes (q ∷ qs) db = writes qs (write q db)
