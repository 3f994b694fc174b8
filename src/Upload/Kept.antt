-- ===== src/Upload/Kept.antt =====
-- What the database says of a job whose local files an uploader removes.
use opendebrid.Prelude.{
  ℕ, ◌≡◌, refl, Bool, true, Option, none, some, Text, find, Bool-cases, inl, inr,
}
use opendebrid.Prelude.Ensures.{Ensures, Ensures-bind}
use opendebrid.Prelude.Exec.{Err, Result, ok, err, Exec, attempt, Preserves}
use opendebrid.Database.Batches.{JobKey}
use opendebrid.Database.Jobs.{has_id}
use opendebrid.Database.Model.{Job, Db, uploaded}
use opendebrid.Database.NodeStatus.{logged}
use opendebrid.Database.Uploads.{complete_upload, key_row, update_download_links_storage_uri}
use opendebrid.Grpc.Handlers.{local_prefix}
use opendebrid.Grpc.Handlers.Uploaded.{find-update_where}
use opendebrid.Upload.{
  UploadEnv, Outcome, stopped, uploaded_to, exhausted, upload_directory, record_upload,
  finish_upload, controller_upload,
}
use opendebrid.Upload.Retried.{Answered, upload_directory-Answered}
use opendebrid.World.{World, OnDb, query, Preserves-query, Ensures-query}

-- The job's row lies at the URI and belongs to no node.
abbrev pub IsAt : Text → ℕ → Db → Type 0
IsAt uri id db =
    (j : Job) × (find (has_id id) db.jobs ≡ some j)
    × (j.file_location ≡ some uri)
    × (j.upload_status ≡ uploaded)
    × (j.node_id ≡ none)

-- A completed upload that finds its row.
complete_upload-IsAt :
    (uri : Text) (id : ℕ) (db : Db) (row : JobKey)
    → (complete_upload uri id db).0 ≡ ok row
    → IsAt uri id (complete_upload uri id db).1
unfolding complete_upload
complete_upload-IsAt uri id db row h = at_row (find (has_id id) db.jobs) refl h
  where
    at_row :
        (o : Option Job)
        → find (has_id id) db.jobs ≡ o
        → key_row o ≡ ok row
        → IsAt uri id (complete_upload uri id db).1
    at_row none e k = absurd (cc)
    at_row (some j) e k = (_, find-update_where id _ db.jobs j (λ x. refl) e, refl, refl, refl)

-- The error becomes a value.
Ensures-attempt :
    {A : Type 0} (P : World → Type 0) (Q : A → World → Type 0) (m : Exec World A)
    → Ensures P m Q
    → Ensures P (attempt m) (λ r w. (a : A) → r ≡ ok a → Q a w)
Ensures-attempt P Q m h w p r e a f = h w p a (cc)

links-IsAt :
    (uri prefix : Text) (id : ℕ)
    → Preserves (update_download_links_storage_uri uri prefix id) (IsAt uri id)
unfolding update_download_links_storage_uri
links-IsAt uri prefix id = record { after = λ db p. p }

module _ (error_text : Err → Text) (none_yet : Err) (job : JobKey) where
  abbrev Anywhere : World → Type 0
  Anywhere w = Unit

  -- Where the directory is removed, the database knows the files under a URI that the provider gave.
  abbrev pub Safe : UploadEnv → Bool → World → Type 0
  Safe env removed w = removed ≡ true → (uri : Text) × Answered env 4 uri × IsAt uri job.id w.db

  record_upload-Safe :
      (env : UploadEnv) (uri : Text) (r : Result JobKey)
      → Answered env 4 uri
      → Ensures
          (λ w. (row : JobKey) → r ≡ ok row → IsAt uri job.id w.db)
          (record_upload error_text none_yet job uri r)
          (Safe env)
  record_upload-Safe env uri (err e) a w p b h t = absurd (cc)
  record_upload-Safe env uri (ok row) a w p b h t = (uri, a, kept (p row refl))
    where
      moved : Exec World Unit
      moved =
          query
            (update_download_links_storage_uri uri (local_prefix job.engine job.storage_key) job.id)

      kept : IsAt uri job.id w.db → IsAt uri job.id (logged moved w).1.db
      kept =
          (Preserves-query (IsAt uri job.id)
              (update_download_links_storage_uri uri (local_prefix job.engine job.storage_key)
                job.id)
              (links-IsAt uri (local_prefix job.engine job.storage_key) job.id)).after
            w

  finish_upload-Safe :
      (env : UploadEnv) (o : Outcome)
      → ((uri : Text) → o ≡ uploaded_to uri → Answered env 4 uri)
      → Ensures Anywhere (finish_upload error_text none_yet job o) (Safe env)
  finish_upload-Safe env stopped a w p b h t = absurd (cc)
  finish_upload-Safe env (exhausted e) a w p b h t = absurd (cc)
  finish_upload-Safe env (uploaded_to uri) a w p b h t =
      Ensures-bind Anywhere (λ r w. (row : JobKey) → r ≡ ok row → IsAt uri job.id w.db) (Safe env)
        (attempt (query (complete_upload uri job.id))) (record_upload error_text none_yet job uri)
        (Ensures-attempt Anywhere (λ row. OnDb (IsAt uri job.id))
          (query (complete_upload uri job.id))
          (Ensures-query (λ _. Unit) (λ _. IsAt uri job.id) (complete_upload uri job.id)
            (λ db _. complete_upload-IsAt uri job.id db)))
        (λ r. record_upload-Safe env uri r (a uri refl)) w p b h t

  -- The controller removes a job's local directory only where the job's row says that the files lie, without
  -- a node, at the URI that the provider gave to one of four attempts.
  pub controller_upload-Safe :
      (env : UploadEnv) (w : World)
      → (controller_upload error_text none_yet env job w).0 ≡ ok true
      → (uri : Text) × Answered env 4 uri
        × IsAt uri job.id (controller_upload error_text none_yet env job w).1.db
  unfolding controller_upload
  controller_upload-Safe env w h = elim (Bool-cases env.exists) [
    | inr e ↦ absurd (cc (rw e at h))
    | inl e ↦ rw e (
        finish_upload-Safe env (upload_directory env none_yet)
          (upload_directory-Answered env none_yet) w tt true (rw e at h) refl)
  ]
