-- ===== src/Service/Delete.antt =====
-- `Delete`, `DeleteJobByID`, `DeleteUser` and `reconcileStaleJobs` of the download service
-- (internal/core/service/download.go). Errors of the calls to nodes and storage are logged only.
pub mod Others
use opendebrid.Prelude.{
  ℕ, Bool, true, false, ◌&&◌, Option, none, some, List, [], ◌∷◌, ◌++◌, Text, codes, eq_text, leb,
  any, if◌then◌else◌,
}
use opendebrid.Prelude.Exec.{Result, ok, err, Exec, pure, attempt, ◌>>=◌, ◌>>◌}
use opendebrid.Database.Model.{Job, is_live}
use opendebrid.Database.Jobs.{get_job, delete_job, list_stale_active_jobs, fail_job}
use opendebrid.Database.Downloads.{
  CountRow, get_download_with_job_and_count, list_user_jobs_with_download_counts, delete_download,
  delete_user,
}
use opendebrid.Database.NodeStatus.{logged}
use opendebrid.Service.Add.{text_of}
use opendebrid.Storage.Uri.{is_remote_uri}
use opendebrid.World.{World, Call, cancel, remove, delete_remote, JobRef, query}

abbrev pub ref_of : Job → JobRef
ref_of j = record {
  engine = j.engine;
  job_id = some j.id;
  storage_key = j.storage_key;
  engine_job_id = text_of j.engine_job_id;
}

abbrev pub is_remote : Option Text → Bool
is_remote none = false
is_remote (some uri) = is_remote_uri uri

abbrev pub has_value : Option Text → Bool
has_value none = false
has_value (some s) = true

abbrev pub node_calls : Text → Job → List Call
node_calls node j =
    if has_value j.engine_job_id && is_live j.status
    then cancel node (ref_of j) ∷ remove node (ref_of j) ∷ []
    else remove node (ref_of j) ∷ []

-- The calls that follow the deletion of a job's row.
unfoldable pub cleanup_calls : Bool → List Text → Job → List Call
cleanup_calls has_storage clients j =
    if is_remote j.file_location && has_storage
    then delete_remote (text_of j.file_location) ∷ []
    else if any (eq_text (text_of j.node_id)) clients
    then node_calls (text_of j.node_id) j
    else []

module _ (has_storage : Bool) where
  abbrev pub clean_up : Job → Exec World Unit
  clean_up j w = (ok tt, record w { trace = w.trace ++ cleanup_calls has_storage w.clients j })

  abbrev pub delete_counted : ℕ → CountRow → Exec World Unit
  delete_counted id row =
      if leb row.download_count 1
      then (do query (delete_job row.job.id); clean_up row.job)
      else query (delete_download id)

  unfoldable pub delete : ℕ → ℕ → Exec World Unit
  delete id user = do row ← query (get_download_with_job_and_count id user); delete_counted id row

  unfoldable pub delete_job_by_id : ℕ → Exec World Unit
  delete_job_by_id id = do j ← query (get_job id); query (delete_job id); clean_up j

  abbrev pub delete_row : CountRow → Exec World Unit
  unfolding delete_job_by_id
  delete_row row =
      if leb row.download_count 1
      then logged (delete_job_by_id row.job.id)
      else logged (query (delete_download row.download.id))

  abbrev pub delete_rows : List CountRow → Exec World Unit
  unfolding delete_job_by_id
  delete_rows [] w = (ok tt, w)
  delete_rows (r ∷ rs) w = delete_rows rs (delete_row r w).1

  unfoldable pub remove_user : ℕ → Exec World Unit
  unfolding delete_job_by_id
  remove_user user = do
    rows ← query (list_user_jobs_with_download_counts user)
    delete_rows rows
    query (delete_user user)

abbrev pub fail_stale : List Job → Exec World Unit
fail_stale [] w = (ok tt, w)
fail_stale (j ∷ js) w =
    fail_stale js (logged (query (fail_job j.id (some (codes "stale - no status updates")))) w).1

abbrev pub fail_all : Result (List Job) → Exec World Unit
fail_all (ok js) = fail_stale js
fail_all (err e) = pure tt

unfoldable pub reconcile_stale_jobs : Exec World Unit
reconcile_stale_jobs = do jobs ← attempt (query list_stale_active_jobs); fail_all jobs
