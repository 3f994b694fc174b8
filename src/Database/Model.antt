-- ===== src/Database/Model.antt =====
-- The tables (internal/database/gen/models.go) as lists of rows. A UUID is the number of its 128 bits,
-- a time is in seconds, NULL is `none`. The metadata columns are never written by the program.
use opendebrid.Prelude.{
  ℕ, Bool, true, false, Option, none, some, List, [], ◌∷◌, Text, eq_text, update_where,
}
use opendebrid.Prelude.Exec.{Result, ok, err, no_rows}

-- The CHECK constraint of jobs.status.
pub data Status : Type 0 where
  queued active completed failed inactive : Status

-- The CHECK constraint of jobs.upload_status.
pub data UploadStatus : Type 0 where
  not_uploaded pending uploading uploaded upload_failed : UploadStatus

-- `progress` is a DOUBLE PRECISION that is only stored: it is counted in millionths.
pub record Job : Type 0 where
  pub id : ℕ
  pub node_id : Option Text
  pub engine : Text
  pub engine_job_id : Option Text
  pub url : Text
  pub storage_key : Text
  pub status : Status
  pub name : Text
  pub size : Option ℕ
  pub file_location : Option Text
  pub upload_status : UploadStatus
  pub error_message : Option Text
  pub progress : ℕ
  pub speed : ℕ
  pub downloaded_size : ℕ
  pub created_at : ℕ
  pub updated_at : ℕ
  pub completed_at : Option ℕ

pub record Download : Type 0 where
  pub id : ℕ
  pub user_id : ℕ
  pub job_id : ℕ
  pub created_at : ℕ

pub record DownloadLink : Type 0 where
  pub id : ℕ
  pub user_id : ℕ
  pub download_id : ℕ
  pub storage_uri : Text
  pub token : Text
  pub expires_at : ℕ
  pub created_at : ℕ
  pub access_count : ℕ

pub record Node : Type 0 where
  pub id : Text
  pub grpc_endpoint : Option Text
  pub file_endpoint : Text
  pub engines : Text
  pub is_controller : Bool
  pub is_online : Bool
  pub disk_total : ℕ
  pub disk_available : ℕ
  pub last_heartbeat : Option ℕ
  pub registered_at : ℕ

-- `clock` is what NOW() returns, `next_id` the next value of gen_random_uuid(); users are their ids.
pub record Db : Type 0 where
  pub jobs : List Job
  pub downloads : List Download
  pub links : List DownloadLink
  pub nodes : List Node
  pub users : List ℕ
  pub clock : ℕ
  pub next_id : ℕ

-- status IN ('queued', 'active')
abbrev pub is_live : Status → Bool
is_live queued = true
is_live active = true
is_live _ = false

abbrev pub is_completed : Status → Bool
is_completed completed = true
is_completed _ = false

abbrev pub is_inactive : Status → Bool
is_inactive inactive = true
is_inactive _ = false

-- status IN ('failed', 'inactive')
abbrev pub is_resettable : Status → Bool
is_resettable failed = true
is_resettable inactive = true
is_resettable _ = false

-- `node_id = $1`: a comparison with NULL does not hold.
unfoldable pub on_node : Text → Job → Bool
on_node node j = elim j.node_id [ none ↦ false | some n ↦ eq_text n node ]

-- UPDATE jobs SET f WHERE t, with the trigger trg_jobs_updated_at.
abbrev pub update_jobs : (Job → Bool) → (Job → Job) → Db → Db
update_jobs t f db = record db {
  jobs = update_where t (λ j. record (f j) { updated_at = db.clock }) db.jobs;
}

-- A query that returns one row.
abbrev pub one_row {ℓ} : {A : Type ℓ} → Option A → Result A
one_row none = err no_rows
one_row (some a) = ok a

abbrev pub non_empty : Text → Option Text → Option Text
non_empty [] old = old
non_empty (c ∷ s) old = some (c ∷ s)
