-- ===== src/Service/Links.antt =====
-- `ListFiles`, `GenerateLink` and `computeETA` of the download service (internal/core/service/download.go).
pub mod Stored
use opendebrid.Prelude.{
  ℕ, zero, suc, ◌+◌, ◌-◌, ◌*◌, ◌/◌, ◌%◌, Bool, true, false, not, ◌&&◌, ◌||◌, Option, none, some,
  List, [], ◌∷◌, ◌++◌, map, Text, codes, eq_text, trim_prefix, trim_right, is_empty, is_digit, any,
  find, ltb, leb, ◌==◌, if◌then◌else◌,
}
use opendebrid.Prelude.Exec.{
  Err, Result, ok, err, no_node, not_connected, not_completed, file_not_found, remote, Exec, pure,
  raise, lift, attempt, ◌>>=◌, ◌>>◌,
}
use opendebrid.Database.Model.{Status, Job, Db, is_completed}
use opendebrid.Database.Downloads.{DownloadRow, get_download_with_job_by_user}
use opendebrid.Database.Nodes.{get_node}
use opendebrid.Database.Uploads.{CreateLinkParams, create_download_link}
use opendebrid.Engine.{FileInfo}
use opendebrid.Scheduler.{NodeSelectRequest, NodeSelection, select_node}
use opendebrid.Service.Add.{text_of}
use opendebrid.Service.Delete.{is_remote, has_value}
use opendebrid.Service.Env.{base}
use opendebrid.Storage.Rclone.{RemoteFileInfo}
use opendebrid.Storage.Uri.{is_remote_uri, build_remote_file_uri}
use opendebrid.World.{World, JobRef, query}

-- What comes from outside: the storage provider, if one is set, with its CapURL and its answers; the
-- answers of the nodes; the random token; and the settings.
pub record LinkEnv : Type 0 where
  pub has_storage : Bool
  pub has_url : Bool
  pub remote_files : Text → Result (List RemoteFileInfo)
  pub generate_url : Text → Result Text
  pub job_files : Text → JobRef → Result (List FileInfo)
  pub parse_engines : Text → Option (List Text)
  pub random_token : Result Text
  pub download_dir : Text
  pub link_expiry : ℕ

pub record ListFilesResult : Type 0 where
  pub files : List FileInfo
  pub status : Status
  pub node_id : Text

pub record GenerateLinkRequest : Type 0 where
  pub download_id : ℕ
  pub user_id : ℕ
  pub file_path : Text

-- `token` is empty for a signed URL.
pub record GenerateLinkResult : Type 0 where
  pub url : Text
  pub token : Text
  pub expires_at : ℕ

-- `computeETA`, in seconds
unfoldable pub compute_eta : ℕ → ℕ → ℕ → ℕ
compute_eta total downloaded speed =
    if speed == 0 || total == 0
    then 0
    else if leb total downloaded
    then 0
    else (total - downloaded) / speed

abbrev pub is_unreserved : ℕ → Bool
is_unreserved c =
    is_digit c
    || (leb b'a' c && leb c b'z'
        || (leb b'A' c && leb c b'Z' || any (λ x. x == c) (codes "-_.~$&+=:@")))

abbrev pub upper_hex : ℕ → ℕ
upper_hex d = if leb d 9 then b'0' + d else b'A' + (d - 10)

-- `url.PathEscape`
unfoldable pub path_escape : Text → Text
path_escape [] = []
path_escape (c ∷ s) =
    let rest = path_escape s in
    if is_unreserved c then c ∷ rest else b'%' ∷ upper_hex (c / 16) ∷ upper_hex (c % 16) ∷ rest

abbrev pub local_ref : Job → JobRef
local_ref j = record {
  engine = j.engine;
  job_id = none;
  storage_key = j.storage_key;
  engine_job_id = text_of j.engine_job_id;
}

abbrev pub remote_file : Text → RemoteFileInfo → FileInfo
remote_file location f = record {
  path = f.path;
  size = f.size;
  storage_uri = build_remote_file_uri location f.path;
}

abbrev pub has_path : Text → FileInfo → Bool
has_path path f = eq_text f.path path

-- The URI of the first file with the path, and an empty one where there is none.
abbrev pub uri_of : Option FileInfo → Text
uri_of none = []
uri_of (some f) = f.storage_uri

abbrev pub link_url : Text → Text → Text → Text
link_url endpoint token filename =
    trim_right b'/' endpoint ++ (codes "/dl/" ++ (token ++ b'/' ∷ filename))

-- `time.Now`
abbrev pub time_now : Exec World ℕ
time_now w = (ok w.db.clock, w)

-- A request with no engine, size or preferred node.
abbrev pub any_node : NodeSelectRequest
any_node = record { engine = []; estimated_size = 0; preferred_node = [] }

abbrev pub require : Bool → Err → Exec World Unit
require true e = pure tt
require false e = raise e

module _ (env : LinkEnv) where
  abbrev pub list_local : Job → Option Text → Exec World ListFilesResult
  list_local j none = raise no_node
  list_local j (some node) = do
    λ w. (if any (eq_text node) w.clients then ok tt else err not_connected, w)
    files ← lift (env.job_files node (local_ref j))
    pure (record { files = files; status = j.status; node_id = node })

  abbrev pub list_remote : Job → Exec World ListFilesResult
  list_remote j = do
    files ← lift (env.remote_files (text_of j.file_location))
    pure (record {
      files = map (remote_file (text_of j.file_location)) files;
      status = j.status;
      node_id = [];
    })

  abbrev pub list_job : Job → Exec World ListFilesResult
  list_job j =
      if not (has_value j.node_id) && (is_remote j.file_location && env.has_storage)
      then list_remote j
      else list_local j j.node_id

  unfoldable pub list_files : ℕ → ℕ → Exec World ListFilesResult
  list_files download user = do
    row ← query (get_download_with_job_by_user download user)
    list_job row.job

  -- The URI that a link to the file keeps: relative to the download directory for a local file.
  abbrev pub stored_uri : Text → Text
  stored_uri uri =
      if is_remote_uri uri
      then uri
      else trim_prefix (trim_prefix uri (codes "file://")) (env.download_dir ++ b'/' ∷ [])

  abbrev pub filename_of : GenerateLinkRequest → Text
  filename_of req = path_escape (base req.file_path)

  abbrev pub link_params : GenerateLinkRequest → Text → Text → ℕ → CreateLinkParams
  link_params req uri token now = record {
    user_id = req.user_id;
    download_id = req.download_id;
    storage_uri = stored_uri uri;
    token = token;
    expires_at = now + env.link_expiry;
  }

  abbrev pub link_result : GenerateLinkRequest → Text → Text → ℕ → GenerateLinkResult
  link_result req endpoint token now = record {
    url = link_url endpoint token (filename_of req);
    token = token;
    expires_at = now + env.link_expiry;
  }

  abbrev pub save_link :
      GenerateLinkRequest → Text → Text → Text → ℕ → Exec World GenerateLinkResult
  save_link req uri endpoint token now = do
    query (create_download_link (link_params req uri token now))
    pure (link_result req endpoint token now)

  -- A token, and the link that keeps it.
  unfoldable pub new_link_at : GenerateLinkRequest → Text → Text → Exec World GenerateLinkResult
  unfolding path_escape
  new_link_at req uri endpoint = do
    token ← lift env.random_token
    now ← time_now
    save_link req uri endpoint token now

  abbrev pub streaming_link : GenerateLinkRequest → Text → Exec World GenerateLinkResult
  streaming_link req uri = do
    selection ← select_node env.parse_engines any_node
    new_link_at req uri selection.endpoint

  abbrev pub local_link : GenerateLinkRequest → Text → Text → Exec World GenerateLinkResult
  local_link req uri node = do row ← query (get_node node); new_link_at req uri row.file_endpoint

  -- A signed URL, and the streaming link where signing fails.
  abbrev pub signed_link : GenerateLinkRequest → Text → Result Text → Exec World GenerateLinkResult
  signed_link req uri (ok url) =
      λ w. (ok (record { url = url; token = []; expires_at = w.db.clock + env.link_expiry }), w)
  signed_link req uri (err e) = streaming_link req uri

  unfoldable pub link_to : GenerateLinkRequest → Text → Text → Exec World GenerateLinkResult
  link_to req uri node =
      if is_remote_uri uri
      then (if env.has_storage && env.has_url
          then signed_link req uri (env.generate_url uri)
          else streaming_link req uri)
      else local_link req uri node

  abbrev pub link_in : GenerateLinkRequest → Result ListFilesResult → Exec World GenerateLinkResult
  link_in req (err e) = raise (remote (codes "download not found"))
  link_in req (ok result) = do
    let uri = uri_of (find (has_path req.file_path) result.files)
    require (is_completed result.status) not_completed
    require (not (is_empty uri)) file_not_found
    link_to req uri result.node_id

  unfoldable pub generate_link : GenerateLinkRequest → Exec World GenerateLinkResult
  unfolding list_files link_to
  generate_link req = do
    result ← attempt (list_files req.download_id req.user_id)
    link_in req result
