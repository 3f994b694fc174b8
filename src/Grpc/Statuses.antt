-- ===== src/Grpc/Statuses.antt =====
-- `PushJobStatuses`, `batchUpdateProgress` and `batchHandleTerminal`.
pub mod Settled
pub mod Push
pub mod Told
use opendebrid.Prelude.{
  ℕ, Bool, true, false, not, ◌&&◌, Option, none, some, List, [], ◌∷◌, ◌++◌, map, Text, codes,
  eq_text, ◌==◌, any, find, select, if◌then◌else◌,
}
use opendebrid.Prelude.Exec.{Err, Result, ok, err, Exec, pure, attempt, ◌>>=◌, ◌>>◌}
use opendebrid.Database.Model.{Job, Db}
use opendebrid.Database.Batches.{
  Progress, Failure, JobKey, batch_update_job_progress, batch_complete_jobs, batch_fail_jobs,
}
use opendebrid.Database.NodeStatus.{logged}
use opendebrid.World.{World, Call, remove, JobRef, query}

-- The status text of a report: the constants of internal/core/engine/engine.go, and any other text.
pub data JobState : Type 0 where
  queued active completed failed : JobState
  other : Text → JobState

-- internal/core/statusloop/statusloop.go
pub record StatusReport : Type 0 where
  pub job_id : ℕ
  pub engine_job_id : Text
  pub status : JobState
  pub progress : ℕ
  pub speed : ℕ
  pub total_size : ℕ
  pub downloaded_size : ℕ
  pub name : Text
  pub error : Text

abbrev pub is_completed_report : StatusReport → Bool
is_completed_report r = elim r.status [ completed ↦ true | _ ↦ false ]

abbrev pub is_failed_report : StatusReport → Bool
is_failed_report r = elim r.status [ failed ↦ true | _ ↦ false ]

-- case "completed", "failed"
abbrev pub is_terminal_report : StatusReport → Bool
is_terminal_report r = elim r.status [ completed ↦ true | failed ↦ true | _ ↦ false ]

abbrev pub progress_row : StatusReport → Progress
progress_row r = record {
  id = r.job_id;
  progress = r.progress;
  speed = r.speed;
  downloaded_size = r.downloaded_size;
  name = r.name;
  size = r.total_size;
  engine_job_id = r.engine_job_id;
}

abbrev pub failure_row : StatusReport → Failure
failure_row r = record { id = r.job_id; message = r.error }

abbrev pub batch_update_progress : List StatusReport → Exec World Unit
batch_update_progress updates =
    logged (query (batch_update_job_progress (map progress_row updates)))

-- `engineJobMap[row.ID]`: a later report of the same job overwrites an earlier one.
pub engine_job_of : List StatusReport → ℕ → Text → Text
engine_job_of [] id found = found
engine_job_of (r ∷ rs) id found =
    engine_job_of rs id (if r.job_id == id then r.engine_job_id else found)

abbrev pub failed_ref : List StatusReport → JobKey → JobRef
failed_ref updates k = record {
  engine = k.engine;
  job_id = none;
  storage_key = k.storage_key;
  engine_job_id = engine_job_of updates k.id [];
}

-- `client.RemoveJob` for each failed row, where the node is connected; its error is only logged.
pub remove_files : Text → List JobRef → World → World
remove_files node [] w = w
remove_files node (r ∷ rs) w =
    remove_files node rs (record w { trace = w.trace ++ remove node r ∷ [] })

abbrev pub rows_or_nil : Result (List JobKey) → List JobKey
rows_or_nil (ok rows) = rows
rows_or_nil (err e) = []

abbrev pub is_connected : Text → World → Bool
is_connected node w = any (eq_text node) w.clients

abbrev pub clean_failed : Text → List StatusReport → Result (List JobKey) → Exec World Unit
clean_failed node updates rows w = (
  ok tt,
  if is_connected node w
      then remove_files node (map (failed_ref updates) (rows_or_nil rows)) w
      else w,
)

abbrev pub when : Bool → Exec World Unit → Exec World Unit
when true m = m
when false m = pure tt

abbrev pub is_nil : List StatusReport → Bool
is_nil [] = true
is_nil (r ∷ rs) = false

-- `upload_pending`: a storage provider is set and it is not the local one.
unfoldable pub batch_handle_terminal : Bool → Text → List StatusReport → Exec World Unit
unfolding engine_job_of remove_files
batch_handle_terminal upload_pending node updates = do
  let done = select is_completed_report updates
  let lost = select is_failed_report updates
  when (not (is_nil done))
      (logged (query (batch_complete_jobs upload_pending (map progress_row done))))
  when (not (is_nil lost)) (do
    rows ← attempt (query (batch_fail_jobs (map failure_row lost)))
    clean_failed node lost rows)

unfoldable pub push_job_statuses : Bool → Text → List StatusReport → Exec World Unit
unfolding batch_handle_terminal
push_job_statuses upload_pending node statuses = do
  let progress = select (λ r. not (is_terminal_report r)) statuses
  let terminal = select is_terminal_report statuses
  when (not (is_nil progress)) (batch_update_progress progress)
  when (not (is_nil terminal)) (batch_handle_terminal upload_pending node terminal)
