-- ===== src/Upload.antt =====
-- The uploaders of the worker and of the controller (internal/worker/uploader.go,
-- internal/controller/uploader.go) and the controller's sink of status reports
-- (internal/controller/server.go). The uploads of a batch run one after the other here.
pub mod Retried
pub mod Kept
use opendebrid.Prelude.{
  ℕ, zero, suc, ◌+◌, Bool, true, false, not, ◌&&◌, List, [], ◌∷◌, ◌++◌, Text, codes, any, ltb,
  if◌then◌else◌,
}
use opendebrid.Prelude.Exec.{Err, Result, ok, err, Exec, pure, attempt, ◌>>=◌, ◌>>◌}
use opendebrid.Database.Batches.{JobKey}
use opendebrid.Database.Model.{upload_failed}
use opendebrid.Database.NodeStatus.{logged}
use opendebrid.Database.Uploads.{
  claim_pending_uploads, complete_upload, set_upload_status, update_download_links_storage_uri,
}
use opendebrid.Grpc.Handlers.{local_prefix, report_upload, list_pending_uploads}
use opendebrid.Grpc.Statuses.{StatusReport, is_completed_report, push_job_statuses}
use opendebrid.Worker.Reconcile.{over_network}
use opendebrid.World.{World, query}

abbrev pub upload_max_retries : ℕ
upload_max_retries = 3

-- One upload, as the world outside lets it go: whether the local directory is there, what the provider
-- answers to each attempt, whether the context is done before an attempt and in the wait behind it, and
-- whether a worker's report is lost on its way to the controller.
pub record UploadEnv : Type 0 where
  pub exists : Bool
  pub upload : ℕ → Result Text
  pub done_before : ℕ → Bool
  pub done_in_wait : ℕ → Bool
  pub report_lost : Bool

pub data Outcome : Type 0 where
  stopped : Outcome
  uploaded_to : Text → Outcome
  exhausted : Err → Outcome

module _ (env : UploadEnv) where
  -- The end of an attempt: there is no wait behind the last one.
  abbrev pub after_attempt : ℕ → (Err → Outcome) → Result Text → Outcome
  after_attempt n next (ok uri) = uploaded_to uri
  after_attempt n next (err e) =
      if ltb n upload_max_retries && env.done_in_wait n then stopped else next e

  -- `left` more attempts, the next one being number `n`, and the error of the last one.
  abbrev pub attempts : ℕ → ℕ → Err → Outcome
  attempts zero n last = exhausted last
  attempts (suc left) n last =
      let next = attempts left (suc n) in
      if env.done_before n then stopped else after_attempt n next (env.upload n)

  unfoldable pub upload_directory : Err → Outcome
  upload_directory none_yet = attempts (suc upload_max_retries) 0 none_yet

module _ (error_text : Err → Text) (none_yet : Err) where
  -- The worker. The result says whether the local directory is removed.
  abbrev pub report_outcome : Bool → JobKey → Outcome → Exec World Bool
  unfolding report_upload
  report_outcome lost job stopped = pure false
  report_outcome lost job (exhausted e) = do
    logged (over_network lost (report_upload job.id [] (error_text e)))
    pure false
  report_outcome lost job (uploaded_to uri) = do
    logged (over_network lost (report_upload job.id uri []))
    pure true

  unfoldable pub worker_upload : UploadEnv → JobKey → Exec World Bool
  unfolding upload_directory
  worker_upload env job =
      if env.exists then report_outcome env.report_lost job (upload_directory env none_yet) else (do
        logged (
            over_network env.report_lost
              (report_upload job.id [] (codes "local directory not found")))
        pure false)

  abbrev pub worker_uploads : (ℕ → UploadEnv) → List JobKey → Exec World Unit
  unfolding worker_upload
  worker_uploads env [] = pure tt
  worker_uploads env (job ∷ jobs) = do worker_upload (env job.id) job; worker_uploads env jobs

  abbrev uploads_of : (ℕ → UploadEnv) → Result (List JobKey) → Exec World Unit
  uploads_of env (ok jobs) = worker_uploads env jobs
  uploads_of env (err e) = pure tt

  -- `UploadPending` of the worker; `lost` says that its call does not reach the
  -- controller, `is_active` that a remote provider is set.
  unfoldable pub worker_upload_pending : (ℕ → UploadEnv) → Bool → Bool → Text → Exec World Unit
  worker_upload_pending env is_active lost node =
      if is_active
      then (do jobs ← attempt (over_network lost (list_pending_uploads node)); uploads_of env jobs)
      else pure tt

  -- The controller, which has the database at hand.
  abbrev pub set_failed : JobKey → Exec World Unit
  set_failed job = logged (query (set_upload_status upload_failed job.id))

  abbrev pub record_upload : JobKey → Text → Result JobKey → Exec World Bool
  record_upload job uri (err e) = pure false
  record_upload job uri (ok row) = do
    logged (
        query
          (update_download_links_storage_uri uri (local_prefix job.engine job.storage_key) job.id))
    pure true

  abbrev pub finish_upload : JobKey → Outcome → Exec World Bool
  finish_upload job stopped = pure false
  finish_upload job (exhausted e) = do set_failed job; pure false
  finish_upload job (uploaded_to uri) = do
    row ← attempt (query (complete_upload uri job.id))
    record_upload job uri row

  unfoldable pub controller_upload : UploadEnv → JobKey → Exec World Bool
  unfolding upload_directory
  controller_upload env job =
      if env.exists
      then finish_upload job (upload_directory env none_yet)
      else (do set_failed job; pure false)

  abbrev pub controller_uploads : (ℕ → UploadEnv) → List JobKey → Exec World Unit
  unfolding controller_upload
  controller_uploads env [] = pure tt
  controller_uploads env (job ∷ jobs) = do
    controller_upload (env job.id) job
    controller_uploads env jobs

  abbrev claimed : (ℕ → UploadEnv) → Result (List JobKey) → Exec World Unit
  claimed env (ok jobs) = controller_uploads env jobs
  claimed env (err e) = pure tt

  unfoldable pub controller_upload_pending : (ℕ → UploadEnv) → Bool → Text → Exec World Unit
  controller_upload_pending env is_active node =
      if is_active
      then (do jobs ← attempt (query (claim_pending_uploads node)); claimed env jobs)
      else pure tt

  -- `controllerLocalSink.PushStatuses`; `upload_pending` says that a remote storage is set, and so does
  -- `is_active` of the uploader.
  unfoldable pub push_local : (ℕ → UploadEnv) → Bool → Text → List StatusReport → Exec World Unit
  unfolding controller_upload_pending push_job_statuses
  push_local env is_active node reports = do
    push_job_statuses is_active node reports
    if any is_completed_report reports
        then controller_upload_pending env is_active node
        else pure tt
