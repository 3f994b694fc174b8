-- ===== src/Grpc/Handlers/Uploaded.antt =====
-- `ReportUpload` (internal/controller/grpc/handlers.go): the job and its links.
use opendebrid.Prelude.{
  ℕ, ◌≡◌, refl, true, none, some, List, [], ◌∷◌, ◌++◌, Text, find, update_where, arith, In,
  In-update_where, has_prefix-append, drop, drop-append, length,
}
use opendebrid.Database.Model.{uploaded, Job, DownloadLink}
use opendebrid.Database.Jobs.{has_id}
use opendebrid.Database.Uploads.{
  link_of_job, moves, complete_upload, update_download_links_storage_uri,
}
use opendebrid.Storage.Uri.{build_remote_file_uri, NotEndingIn, trim_right-NotEndingIn}
use opendebrid.Grpc.Handlers.{local_prefix, report_upload}
use opendebrid.World.{World, calm}

-- The row of a job after its update, where the update keeps ids.
pub find-update_where :
    (id : ℕ) (f : Job → Job) (js : List Job) (j : Job)
    → ((x : Job) → (f x).id ≡ x.id)
    → find (has_id id) js ≡ some j
    → find (has_id id) (update_where (has_id id) f js) ≡ some (f j)
find-update_where id f [] j keep h = cc
find-update_where id f (x ∷ js) j keep h = ground (arith, find-update_where id f js j keep, keep x)

-- The new URI of a link is the URI that a listing of the remote files gives for the same path.
moved_uri :
    (prefix remote : Text) (c : ℕ) (path : Text)
    → NotEndingIn b'/' remote
    → remote ++ drop (length prefix) (prefix ++ b'/' ∷ c ∷ path)
      ≡ build_remote_file_uri remote (c ∷ path)
unfolding build_remote_file_uri
moved_uri prefix remote c path h =
    rw (drop-append prefix (b'/' ∷ c ∷ path)) (rw (trim_right-NotEndingIn b'/' remote h))

-- A reported upload of a known job, with a remote URI that does not end in a slash: the job loses its
-- node, is marked as uploaded and lies at the remote URI, and each link to a file of its local directory
-- turns into a link to the URI that `ListFiles` builds for that file from the job's new location.
pub report_upload_lem :
    (id : ℕ) (remote : Text) (j : Job) (l : DownloadLink) (c : ℕ) (path : Text) (w : World)
    → find (has_id id) w.db.jobs ≡ some j
    → NotEndingIn b'/' remote
    → In l w.db.links
    → link_of_job w.db.downloads id l ≡ true
    → l.storage_uri ≡ local_prefix j.engine j.storage_key ++ b'/' ∷ c ∷ path
    → (let w' = (report_upload id remote [] (calm w)).1 in
        (find (has_id id) w'.db.jobs
          ≡ some (record j {
            file_location = some remote;
            upload_status = uploaded;
            node_id = none;
            updated_at = w.db.clock;
          }))
        × In (record l { storage_uri = build_remote_file_uri remote (c ∷ path) }) w'.db.links)
unfolding report_upload complete_upload update_download_links_storage_uri
report_upload_lem id remote j l c path w found slash m own uri =
    let prefix = local_prefix j.engine j.storage_key in
    let e : remote ++ drop (length prefix) l.storage_uri ≡ build_remote_file_uri remote (c ∷ path) =
      rw uri (moved_uri prefix remote c path slash) in
    let selected : moves w.db.downloads id prefix l ≡ true =
      rw own (rw uri (has_prefix-append prefix (b'/' ∷ c ∷ path))) in
    rw found (
      find-update_where id _ w.db.jobs j (λ x. refl) found,
      rw (← e) (In-update_where (moves w.db.downloads id prefix) _ l w.db.links selected m),
    )
