-- ===== src/Service/Add.antt =====
-- `DownloadService.Add` (internal/core/service/download.go).
pub mod Transaction
pub mod Orphans
pub mod Kept
pub mod Whole
use opendebrid.Prelude.{
  ℕ, Bool, true, false, Option, none, some, List, [], ◌∷◌, ◌++◌, Text, codes, eq_text, any,
  if◌then◌else◌,
}
use opendebrid.Prelude.Exec.{
  Err, Result, ok, err, unknown_engine, not_connected, remote, Exec, pure, raise, lift, attempt,
  ◌>>=◌, ◌>>◌,
}
use opendebrid.Database.Model.{
  Status, queued, active, completed, failed, Job, Download, Db, is_completed, is_resettable,
}
use opendebrid.Database.Jobs.{create_job, get_job_by_storage_key, update_job_status, reset_job}
use opendebrid.Database.Downloads.{
  create_download, find_download_by_user_and_job_id, touch_download,
}
use opendebrid.Database.NodeStatus.{logged}
use opendebrid.Scheduler.{select_node}
use opendebrid.Service.Keys.{CacheKey, full, cache_key_prefix, storage_key_from_cache_key}
use opendebrid.Service.Env.{Env, Reply, refused, answered, default_name_from_url}
use opendebrid.World.{World, dispatch, DispatchRequest, DispatchResponse, query}

pub record AddDownloadRequest : Type 0 where
  pub url : Text
  pub engine : Text
  pub user_id : ℕ
  pub options : List (Text × Text)
  pub prefer_node : Text

pub record AddDownloadResponse : Type 0 where
  pub download_id : ℕ
  pub job_id : ℕ
  pub cache_hit : Bool
  pub node_id : Text
  pub status : Status

-- "completed", "active" or "queued"
abbrev pub is_attachable : Status → Bool
is_attachable completed = true
is_attachable active = true
is_attachable queued = true
is_attachable _ = false

-- `pgtype.Text.String`: empty for NULL.
abbrev pub text_of : Option Text → Text
text_of none = []
text_of (some s) = s

abbrev pub attached : Job → ℕ → AddDownloadResponse
attached j dl = record {
  download_id = dl;
  job_id = j.id;
  cache_hit = is_completed j.status;
  node_id = text_of j.node_id;
  status = j.status;
}

-- Step 3: the user's download of the job, found or made.
abbrev pub attach_to : ℕ → Job → Result Download → Exec World (Option AddDownloadResponse)
attach_to user j (ok d) = do logged (query (touch_download d.id)); pure (some (attached j d.id))
attach_to user j (err e) = do d ← query (create_download user j.id); pure (some (attached j d.id))

unfoldable pub attach : ℕ → Result Job → Exec World (Option AddDownloadResponse)
attach user (err e) = pure none
attach user (ok j) =
    if is_attachable j.status
    then (do d ← attempt (query (find_download_by_user_and_job_id user j.id)); attach_to user j d)
    else pure none

abbrev pub Ids : Type 0
Ids = ℕ × ℕ

-- Step 5 for a failed or inactive job: it is reset, and the download made or found.
abbrev pub ensure_found : ℕ → Err → Result Download → Exec World (Option Ids)
ensure_found job e (ok d) = pure (some (job, d.id))
ensure_found job e (err e') = raise e

abbrev pub ensure_download : ℕ → ℕ → Result Download → Exec World (Option Ids)
ensure_download user job (ok d) = pure (some (job, d.id))
ensure_download user job (err e) = do
  d ← attempt (query (find_download_by_user_and_job_id user job))
  ensure_found job e d

abbrev pub after_reset : ℕ → Result Job → Exec World (Option Ids)
after_reset user (err e) = pure none
after_reset user (ok j) = do
  d ← attempt (query (create_download user j.id))
  ensure_download user j.id d

unfoldable pub reuse : AddDownloadRequest → Text → Result Job → Exec World (Option Ids)
reuse req node (err e) = pure none
reuse req node (ok j) =
    if is_resettable j.status
    then (do r ← attempt (query (reset_job j.id node req.url)); after_reset req.user_id r)
    else pure none

-- What failed between Begin and Commit is rolled back; the statements alone may lose the connection.
abbrev pub no_change : Exec Db Unit
no_change db = (ok tt, db)

abbrev pub roll_back : {A : Type 0} → Db → Result A × World → Result A × World
roll_back old (ok a, w) = (ok a, w)
roll_back old (err e, w) = (err e, record w { db = old })

abbrev pub transaction : {A : Type 0} → Exec World A → Exec World A
transaction m w = roll_back w.db ((do query no_change; a ← m; query no_change; pure a) w)

abbrev pub dispatched : Text → Ids → AddDownloadResponse
dispatched node ids = record {
  download_id = ids.1;
  job_id = ids.0;
  cache_hit = false;
  node_id = node;
  status = active;
}

module _ (env : Env) where
  unfoldable pub create_new : AddDownloadRequest → Text → Text → Exec World Ids
  create_new req node key = transaction (do
    j ← query (
        create_job (record {
          node_id = some node;
          engine = req.engine;
          engine_job_id = none;
          url = req.url;
          storage_key = key;
          name = default_name_from_url env.parse_url req.url;
        }))
    d ← query (create_download req.user_id j.id)
    pure (j.id, d.id))

  abbrev pub reused_or_new : AddDownloadRequest → Text → Text → Option Ids → Exec World Ids
  reused_or_new req node key (some ids) = pure ids
  reused_or_new req node key none = create_new req node key

  abbrev pub rejection : Text → Text
  rejection [] = codes "node rejected job"
  rejection (c ∷ s) = c ∷ s

  -- Steps 6 and 7, from the node's answer.
  abbrev pub fail_dispatch : ℕ → Text → Exec World AddDownloadResponse
  fail_dispatch job message = do
    logged (query (update_job_status job failed [] message []))
    raise (remote message)

  unfoldable pub settle : Text → Ids → Reply DispatchResponse → Exec World AddDownloadResponse
  settle node ids (refused message) = fail_dispatch ids.0 message
  settle node ids (answered r) =
      if r.accepted
      then (do
        logged (query (update_job_status ids.0 active r.engine_job_id [] r.file_location))
        pure (dispatched node ids))
      else fail_dispatch ids.0 (rejection r.error)

  abbrev pub request_for : AddDownloadRequest → Text → Ids → DispatchRequest
  request_for req key ids = record {
    job_id = ids.0;
    engine = req.engine;
    url = req.url;
    storage_key = key;
    options = req.options;
  }

  unfoldable pub dispatch_to :
      AddDownloadRequest → Text → Text → Ids → Exec World AddDownloadResponse
  unfolding settle
  dispatch_to req node key ids w =
      let request = request_for req key ids in
      settle node ids (env.dispatch_job w.trace node request)
        (record w { trace = w.trace ++ dispatch node request ∷ [] })

  abbrev pub require_client : Text → Exec World Unit
  require_client node w = (if any (eq_text node) w.clients then ok tt else err not_connected, w)

  unfoldable pub place : AddDownloadRequest → Text → Result Job → Exec World AddDownloadResponse
  place req key existing = do
    selection ←
        select_node env.parse_engines
          (record { engine = req.engine; estimated_size = 0; preferred_node = req.prefer_node })
    require_client selection.node_id
    old ← reuse req selection.node_id existing
    ids ← reused_or_new req selection.node_id key old
    dispatch_to req selection.node_id key ids

  abbrev pub attached_or_placed :
      AddDownloadRequest
      → Text
      → Result Job
      → Option AddDownloadResponse
      → Exec World AddDownloadResponse
  attached_or_placed req key existing (some resp) = pure resp
  attached_or_placed req key existing none = place req key existing

  abbrev pub storage_key : Text → CacheKey → Text
  storage_key engine k = storage_key_from_cache_key env.sha256 (cache_key_prefix engine k ++ full k)

  abbrev pub add_with_key : AddDownloadRequest → Text → Exec World AddDownloadResponse
  add_with_key req key = do
    existing ← attempt (query (get_job_by_storage_key key))
    found ← attach req.user_id existing
    attached_or_placed req key existing found

  unfoldable pub add : AddDownloadRequest → Exec World AddDownloadResponse
  add req =
      if env.known_engine req.engine
      then (do
        k ← lift (env.resolve_cache_key req.engine req.url)
        add_with_key req (storage_key req.engine k))
      else raise unknown_engine
