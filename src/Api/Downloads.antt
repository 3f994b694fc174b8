-- ===== src/Api/Downloads.antt =====
-- The handlers for downloads (internal/controller/api/handlers/downloads.go) over the download service. Ids of
-- users and downloads are those of the service; a time stands for its text, and 1.0 is a million millionths.
-- A panic in a handler is answered with status 500.
pub mod Shown
use opendebrid.Prelude.{
  ℕ, ◌+◌, ◌-◌, ◌/◌, Bool, true, false, not, ◌&&◌, ◌||◌, Option, none, some, List, [], ◌∷◌, map,
  Text, codes, eq_text, is_empty, any, ltb, leb, if◌then◌else◌, ◌%◌, ◌^◌,
}
use opendebrid.Prelude.Exec.{Err, Result, ok, err, Exec, remote, raise}
use opendebrid.Api.Accounts.{Http, answered, refused}
use opendebrid.Database.Downloads.{DownloadRow, get_download_with_job_by_user}
use opendebrid.Database.Model.{Status, completed, failed, inactive, is_completed}
use opendebrid.Engine.{FileInfo}
use opendebrid.Service.Add.{AddDownloadRequest, AddDownloadResponse, text_of, add}
use opendebrid.Service.Delete.{delete}
use opendebrid.Service.Env.{Env}
use opendebrid.Service.Links.{
  LinkEnv, ListFilesResult, GenerateLinkRequest, GenerateLinkResult, list_files, generate_link,
}
use opendebrid.Service.Listing.{DownloadWithStatus, list_with_status}
use opendebrid.Util.Bencode.{Parsed, ok, invalid, panic, out_of_fuel}
use opendebrid.Util.Magnet.{torrent_to_magnet}
use opendebrid.World.{World, query}

pub record DownloadDto : Type 0 where
  pub id : ℕ
  pub name : Text
  pub url : Text
  pub engine : Text
  pub status : Status
  pub node_id : Text
  pub error : Text
  pub created_at : ℕ
  pub size : Option ℕ
  pub progress : ℕ
  pub speed : ℕ
  pub downloaded_size : ℕ
  pub eta : ℕ
  pub cached_at : Option ℕ

pub record FileDto : Type 0 where
  pub path : Text
  pub size : ℕ

pub record DownloadDetailDto : Type 0 where
  pub download : DownloadDto
  pub files : List FileDto

pub record FilesDto : Type 0 where
  pub status : Status
  pub files : List FileDto

-- internal/controller/api/handlers/response.go: `OKPaginated`
pub record Page (A : Type 0) : Type 0 where
  pub items : List A
  pub total : ℕ
  pub limit : ℕ
  pub offset : ℕ
  pub has_more : Bool

abbrev pub page_of : {A : Type 0} → List A → ℕ → ℕ → ℕ → Page A
page_of items total limit offset = record {
  items = items;
  total = total;
  limit = limit;
  offset = offset;
  has_more = ltb (offset + limit) total;
}

-- The dto of a job that is not completed, without the remaining time.
abbrev pub running_dto : DownloadRow → DownloadDto
running_dto r = record {
  id = r.download.id;
  name = r.job.name;
  url = r.job.url;
  engine = r.job.engine;
  status = r.job.status;
  node_id = text_of r.job.node_id;
  error = text_of r.job.error_message;
  created_at = r.download.created_at;
  size = r.job.size;
  progress = r.job.progress;
  speed = r.job.speed;
  downloaded_size = r.job.downloaded_size;
  eta = 0;
  cached_at = r.job.completed_at;
}

abbrev pub whole : Option ℕ → ℕ
whole none = 0
whole (some n) = n

abbrev pub eta_of : Option ℕ → ℕ → ℕ → ℕ
eta_of none downloaded speed = 0
eta_of (some size) downloaded speed =
    if ltb 0 speed && ltb downloaded size then (size - downloaded) / speed else 0

unfoldable pub to_download_dto : DownloadRow → DownloadDto
to_download_dto r =
    if is_completed r.job.status
    then record (running_dto r) {
      progress = 1000000;
      speed = 0;
      downloaded_size = whole r.job.size;
    }
    else record (running_dto r) { eta = eta_of r.job.size r.job.downloaded_size r.job.speed }

abbrev pub file_dto : FileInfo → FileDto
file_dto f = record { path = f.path; size = f.size }

-- An error of the service becomes a status.
abbrev pub answer : {A B : Type 0} → ℕ → (A → B) → Result A × World → Http B × World
answer status f (ok a, w) = (answered (f a), w)
answer status f (err e, w) = (refused status, w)

abbrev pub engine_filter : Text → Option Text
engine_filter engine = if is_empty engine then none else some engine

-- `int32(n)` of a parameter that is not negative, unless it becomes negative.
unfoldable pub in_int32 : ℕ → Option ℕ
in_int32 n = if ltb (n % 2 ^ 32) (2 ^ 31) then some (n % 2 ^ 32) else none

-- PostgreSQL refuses a negative LIMIT or OFFSET.
abbrev pub negative_page : {S A : Type 0} → Exec S A
negative_page = raise (remote (codes "OFFSET must not be negative"))

abbrev pub paged : {S A : Type 0} → Exec S A → (ℕ → ℕ → Exec S A) → Option ℕ → Option ℕ → Exec S A
paged negative q (some limit) (some offset) = q limit offset
paged negative q _ _ = negative

abbrev pub listed : ℕ → ℕ → List DownloadWithStatus × ℕ → Page DownloadDto
unfolding to_download_dto
listed limit offset (rows, total) =
    page_of (map (λ (r : DownloadWithStatus). to_download_dto r.download) rows) total limit offset

unfoldable pub list : ℕ → Text → ℕ → ℕ → World → Http (Page DownloadDto) × World
unfolding in_int32
list user engine limit offset w = answer 500 (listed limit offset) (
    paged (query negative_page) (list_with_status user (engine_filter engine)) (in_int32 limit)
      (in_int32 offset) w)

abbrev pub is_retryable : Status → Bool
is_retryable failed = true
is_retryable inactive = true
is_retryable _ = false

unfoldable pub delete_download : Bool → ℕ → ℕ → World → Http (Unit {0}) × World
delete_download has_storage user id w = answer 500 (λ u. u) (delete has_storage id user w)

module _ (env : Env) where
  unfoldable pub add_download : AddDownloadRequest → World → Http AddDownloadResponse × World
  add_download req w = answer 500 (λ r. r) (add env req w)

  -- The options and the preferred node of the first request are not kept.
  abbrev pub again : ℕ → DownloadRow → AddDownloadRequest
  again user r = record {
    url = r.job.url;
    engine = r.job.engine;
    user_id = user;
    options = [];
    prefer_node = [];
  }

  abbrev pub retry_found : ℕ → Result DownloadRow × World → Http AddDownloadResponse × World
  unfolding add_download
  retry_found user (err e, w) = (refused 404, w)
  retry_found user (ok r, w) =
      if is_retryable r.job.status then add_download (again user r) w else (refused 400, w)

  unfoldable pub retry : ℕ → ℕ → World → Http AddDownloadResponse × World
  unfolding add_download
  retry user id w = retry_found user (query (get_download_with_job_by_user id user) w)

  -- `EngineSupportsScheme`: the schemes of an engine, if the registry has it.
  abbrev pub supports : Text → Option (List Text) → Bool
  supports scheme none = false
  supports scheme (some schemes) = any (λ s. eq_text s scheme) schemes

  module _ (schemes : Text → Option (List Text)) (sha1 : Text → List ℕ) (escape : Text → Text) where
    abbrev pub add_magnet : ℕ → Text → Parsed Text → World → Http AddDownloadResponse × World
    unfolding add_download
    add_magnet user engine (ok link) w =
        add_download
          (record { url = link; engine = engine; user_id = user; options = []; prefer_node = [] }) w
    add_magnet user engine invalid w = (refused 400, w)
    add_magnet user engine panic w = (refused 500, w)
    add_magnet user engine out_of_fuel w = (refused 500, w)

    abbrev pub add_read : ℕ → Text → Result Text → World → Http AddDownloadResponse × World
    unfolding add_download torrent_to_magnet
    add_read user engine (err e) w = (refused 400, w)
    add_read user engine (ok bytes) w =
        add_magnet user engine (torrent_to_magnet sha1 escape bytes) w

    -- `body` is the outcome of reading the file.
    unfoldable pub upload_torrent :
        ℕ → Text → Result Text → World → Http AddDownloadResponse × World
    unfolding add_download torrent_to_magnet
    upload_torrent user engine body w =
        if is_empty engine
        then (refused 400, w)
        else if supports (codes "magnet") (schemes engine)
        then add_read user engine body w
        else (refused 400, w)

module _ (env : LinkEnv) where
  abbrev pub files_of : Result ListFilesResult → List FileDto
  files_of (err e) = []
  files_of (ok r) = map file_dto r.files

  abbrev pub detail :
      Result DownloadRow → Result ListFilesResult × World → Http DownloadDetailDto × World
  unfolding to_download_dto
  detail (err e) (files, w) = (refused 404, w)
  detail (ok r) (files, w) =
      (answered (record { download = to_download_dto r; files = files_of files }), w)

  abbrev pub detail_after : ℕ → ℕ → Result DownloadRow × World → Http DownloadDetailDto × World
  detail_after user id (r, w) = detail r (list_files env id user w)

  -- The two reads of `Get`, in the order in which they are started.
  unfoldable pub get : ℕ → ℕ → World → Http DownloadDetailDto × World
  get user id w = detail_after user id (query (get_download_with_job_by_user id user) w)

  abbrev pub files_dto : ListFilesResult → FilesDto
  files_dto r = record { status = r.status; files = map file_dto r.files }

  unfoldable pub files : ℕ → ℕ → World → Http FilesDto × World
  files user id w = answer 404 files_dto (list_files env id user w)

  unfoldable pub generate_download_link : ℕ → ℕ → Text → World → Http GenerateLinkResult × World
  generate_download_link user id path w =
      answer 400 (λ r. r)
        (generate_link env (record { download_id = id; user_id = user; file_path = path }) w)
