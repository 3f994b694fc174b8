-- ===== src/Database/Batches.antt =====
-- The batch queries for status reports (internal/database/gen/jobs.sql.go): UPDATE ... FROM unnest(...).
-- Where two rows of the batch name one job, PostgreSQL takes either; the model takes the first.
use opendebrid.Prelude.{
  ℕ, Bool, true, false, Option, none, some, List, [], ◌∷◌, map, Text, ◌==◌, ltb, find, any, select,
  if◌then◌else◌,
}
use opendebrid.Prelude.Exec.{ok, err, not_null, Exec}
use opendebrid.Database.Model.{active, completed, failed, pending, Job, Db, non_empty}

-- A row of BatchUpdateJobProgress and of BatchCompleteJobs.
pub record Progress : Type 0 where
  pub id : ℕ
  pub progress : ℕ
  pub speed : ℕ
  pub downloaded_size : ℕ
  pub name : Text
  pub size : ℕ
  pub engine_job_id : Text

pub record Failure : Type 0 where
  pub id : ℕ
  pub message : Text

-- RETURNING jobs.id, jobs.engine, jobs.storage_key
pub record JobKey : Type 0 where
  pub id : ℕ
  pub engine : Text
  pub storage_key : Text

abbrev pub key_of : Job → JobKey
key_of j = record { id = j.id; engine = j.engine; storage_key = j.storage_key }

abbrev pub progress_for : ℕ → Progress → Bool
progress_for id u = u.id == id

abbrev pub failure_for : ℕ → Failure → Bool
failure_for id u = u.id == id

-- COALESCE(NULLIF(size, 0), old)
abbrev pub positive : ℕ → Option ℕ → Option ℕ
positive n old = if n == 0 then old else some n

abbrev pub non_empty_name : Text → Text → Text
non_empty_name [] old = old
non_empty_name (c ∷ s) old = c ∷ s

abbrev pub progressed : ℕ → Option Progress → Job → Job
progressed clock none j = j
progressed clock (some u) j = record j {
  status = active;
  progress = u.progress;
  speed = u.speed;
  downloaded_size = u.downloaded_size;
  name = non_empty_name u.name j.name;
  size = if ltb 0 u.size then some u.size else j.size;
  engine_job_id = non_empty u.engine_job_id j.engine_job_id;
  updated_at = clock;
}

abbrev pub apply_progress : ℕ → List Progress → Job → Job
apply_progress clock us j = progressed clock (find (progress_for j.id) us) j

unfoldable pub batch_update_job_progress : List Progress → Exec Db Unit
batch_update_job_progress us db =
    (ok tt, record db { jobs = map (apply_progress db.clock us) db.jobs })

-- downloaded_size is NOT NULL: a completed row of size 0 for a job of unknown size breaks it.
abbrev pub lacks_size : List Progress → Job → Bool
lacks_size us j = elim (find (progress_for j.id) us) [
  | none ↦ false
  | some u ↦ elim (positive u.size j.size) [ none ↦ true | some n ↦ false ]
]

abbrev pub or_zero : Option ℕ → ℕ
or_zero none = 0
or_zero (some n) = n

abbrev pub completed_by : ℕ → Bool → Option Progress → Job → Job
completed_by clock upload_pending none j = j
completed_by clock upload_pending (some u) j = record j {
  status = completed;
  progress = 100000000;
  speed = 0;
  downloaded_size = or_zero (positive u.size j.size);
  engine_job_id = non_empty u.engine_job_id j.engine_job_id;
  name = non_empty_name u.name j.name;
  size = positive u.size j.size;
  upload_status = if upload_pending then pending else j.upload_status;
  completed_at = some clock;
  updated_at = clock;
}

abbrev pub apply_complete : ℕ → Bool → List Progress → Job → Job
apply_complete clock upload_pending us j =
    completed_by clock upload_pending (find (progress_for j.id) us) j

-- One statement: a row that breaks a constraint undoes all of it.
unfoldable pub batch_complete_jobs : Bool → List Progress → Exec Db (List JobKey)
batch_complete_jobs upload_pending us db =
    if any (lacks_size us) db.jobs then (err not_null, db) else (
      ok (map key_of (select (λ j. any (progress_for j.id) us) db.jobs)),
      record db { jobs = map (apply_complete db.clock upload_pending us) db.jobs },
    )

abbrev pub failed_by : ℕ → Option Failure → Job → Job
failed_by clock none j = j
failed_by clock (some u) j = record j {
  status = failed;
  error_message = some u.message;
  file_location = none;
  updated_at = clock;
}

abbrev pub apply_failure : ℕ → List Failure → Job → Job
apply_failure clock us j = failed_by clock (find (failure_for j.id) us) j

unfoldable pub batch_fail_jobs : List Failure → Exec Db (List JobKey)
batch_fail_jobs us db = (
  ok (map key_of (select (λ j. any (failure_for j.id) us) db.jobs)),
  record db { jobs = map (apply_failure db.clock us) db.jobs },
)
