-- ===== src/Database/Uploads.antt =====
-- The queries on uploads and download links (internal/database/gen/jobs.sql.go, download_links.sql.go).
use opendebrid.Prelude.{
  ℕ, suc, ◌+◌, Bool, true, false, ◌&&◌, Option, none, some, List, ◌∷◌, ◌++◌, map, Text, eq_text,
  has_prefix, length, drop, ◌==◌, ltb, find, any, select, update_where, if◌then◌else◌,
}
use opendebrid.Prelude.Exec.{Result, ok, err, no_rows, unique_violation, foreign_key, Exec}
use opendebrid.Database.Model.{
  UploadStatus, pending, uploading, uploaded, upload_failed, Job, Download, DownloadLink, Db,
  is_completed, on_node, update_jobs, one_row,
}
use opendebrid.Database.Jobs.{has_id, of_job}
use opendebrid.Database.Batches.{JobKey, key_of}

-- upload_status IN ('pending', 'failed')
abbrev pub is_claimable : UploadStatus → Bool
is_claimable pending = true
is_claimable upload_failed = true
is_claimable _ = false

abbrev pub is_uploading : UploadStatus → Bool
is_uploading uploading = true
is_uploading _ = false

abbrev pub claimable_on : Text → Job → Bool
claimable_on node j = on_node node j && (is_completed j.status && is_claimable j.upload_status)

unfoldable pub claim_pending_uploads : Text → Exec Db (List JobKey)
claim_pending_uploads node db = (
  ok (map key_of (select (claimable_on node) db.jobs)),
  update_jobs (claimable_on node) (λ j. record j { upload_status = uploading }) db,
)

abbrev pub key_row : Option Job → Result JobKey
key_row none = err no_rows
key_row (some j) = ok (key_of j)

unfoldable pub complete_upload : Text → ℕ → Exec Db JobKey
complete_upload remote_uri id db = (
  key_row (find (has_id id) db.jobs),
  update_jobs (has_id id)
      (λ j. record j { file_location = some remote_uri; upload_status = uploaded; node_id = none })
      db,
)

unfoldable pub set_upload_status : UploadStatus → ℕ → Exec Db Unit
set_upload_status status id db =
    (ok tt, update_jobs (has_id id) (λ j. record j { upload_status = status }) db)

abbrev pub uploading_on : Text → Job → Bool
uploading_on node j = on_node node j && is_uploading j.upload_status

unfoldable pub reset_stuck_uploads : Text → Exec Db Unit
reset_stuck_uploads node db =
    (ok tt, update_jobs (uploading_on node) (λ j. record j { upload_status = pending }) db)

-- The link belongs to a download of the job.
abbrev pub link_of_job : List Download → ℕ → DownloadLink → Bool
link_of_job ds id l = any (λ d. (d.id == l.download_id) && of_job id d) ds

-- storage_uri LIKE old_prefix || '%'; an engine name and a storage key hold no pattern character.
abbrev pub moves : List Download → ℕ → Text → DownloadLink → Bool
moves ds id old_prefix l = link_of_job ds id l && has_prefix l.storage_uri old_prefix

unfoldable pub update_download_links_storage_uri : Text → Text → ℕ → Exec Db Unit
update_download_links_storage_uri new_prefix old_prefix id db = (
  ok tt,
  record db {
    links =
        update_where (moves db.downloads id old_prefix)
          (λ l. record l { storage_uri = new_prefix ++ drop (length old_prefix) l.storage_uri })
          db.links;
  },
)

pub record CreateLinkParams : Type 0 where
  pub user_id : ℕ
  pub download_id : ℕ
  pub storage_uri : Text
  pub token : Text
  pub expires_at : ℕ

abbrev pub new_link : CreateLinkParams → Db → DownloadLink
new_link p db = record {
  id = db.next_id;
  user_id = p.user_id;
  download_id = p.download_id;
  storage_uri = p.storage_uri;
  token = p.token;
  expires_at = p.expires_at;
  created_at = db.clock;
  access_count = 0;
}

unfoldable pub create_download_link : CreateLinkParams → Exec Db DownloadLink
create_download_link p db =
    if any (λ x. eq_text x.token p.token) db.links
    then (err unique_violation, db)
    else if any (λ d. d.id == p.download_id) db.downloads && any (λ u. u == p.user_id) db.users
    then (
      ok (new_link p db),
      record db { links = new_link p db ∷ db.links; next_id = suc db.next_id },
    )
    else (err foreign_key, db)

abbrev pub usable : ℕ → Text → DownloadLink → Bool
usable clock token l = eq_text l.token token && ltb clock l.expires_at

unfoldable pub get_download_link_by_token : Text → Exec Db DownloadLink
get_download_link_by_token token db = (one_row (find (usable db.clock token) db.links), db)

unfoldable pub increment_link_access : Text → Exec Db Unit
increment_link_access token db = (
  ok tt,
  record db {
    links =
        update_where (λ l. eq_text l.token token)
          (λ l. record l { access_count = l.access_count + 1 }) db.links;
  },
)
