-- ===== src/Grpc/Handlers.antt =====
-- `Register`, `Deregister`, one round of `Heartbeat`, `ReportUpload`, `ListPendingUploads`,
-- `ListNodeStorageKeys`, `ResolveDownloadToken` and `ResolveCacheKey`.
pub mod Uploaded
use opendebrid.Prelude.{
  ℕ, Bool, true, false, not, ◌&&◌, Option, none, some, List, [], ◌∷◌, ◌++◌, map, Text, codes,
  eq_text, is_empty, any, select, if◌then◌else◌,
}
use opendebrid.Prelude.Exec.{
  Err, Result, ok, err, unknown_engine, Exec, pure, raise, attempt, ◌>>=◌, ◌>>◌,
}
use opendebrid.Database.Model.{upload_failed, DownloadLink}
use opendebrid.Database.Jobs.{
  mark_node_active_jobs_failed, restore_node_inactive_jobs, list_storage_keys_by_node,
}
use opendebrid.Database.Batches.{JobKey}
use opendebrid.Database.Uploads.{
  claim_pending_uploads, complete_upload, set_upload_status, reset_stuck_uploads,
  update_download_links_storage_uri, get_download_link_by_token, increment_link_access,
}
use opendebrid.Database.Nodes.{UpsertNodeParams, upsert_node, get_node, update_node_heartbeat}
use opendebrid.Database.NodeStatus.{logged, mark_node_offline}
use opendebrid.Node.Remote.{CacheKeyResponse, key_response}
use opendebrid.Service.Keys.{CacheKey}
use opendebrid.World.{World, query}

-- `s.GetNodeClient(id)`
abbrev pub connected : Text → World → Bool
connected id w = any (eq_text id) w.clients

-- internal/core/node/store.go: `Set` and `Delete` of the client store.
abbrev pub add_client : Text → Exec World Unit
add_client id w = (ok tt, if connected id w then w else record w { clients = id ∷ w.clients })

abbrev pub remove_client : Text → Exec World Unit
remove_client id w = (ok tt, record w { clients = select (λ c. not (eq_text id c)) w.clients })

unfoldable pub register : UpsertNodeParams → Exec World Unit
register req = do
  query (upsert_node req)
  logged (query (mark_node_active_jobs_failed req.id))
  logged (query (reset_stuck_uploads req.id))
  add_client req.id

unfoldable pub deregister : Text → Exec World Unit
deregister node = do mark_node_offline node; remove_client node

-- The node is heartbeating and has no client: it is restored from its row.
unfoldable pub reconnect : Text → Exec World Unit
reconnect node = do
  row ← query (get_node node)
  add_client row.id
  logged (query (restore_node_inactive_jobs node))

abbrev when_unknown : Text → Exec World Unit
when_unknown node w = if connected node w then (ok tt, w) else reconnect node w

unfoldable pub heartbeat_ping : Text → ℕ → ℕ → Exec World Unit
unfolding reconnect
heartbeat_ping node total available = do
  when_unknown node
  logged (query (update_node_heartbeat node total available))

unfoldable pub list_node_storage_keys : Text → Exec World (List Text)
list_node_storage_keys node = query (list_storage_keys_by_node node)

-- row.Engine + "/" + row.StorageKey
abbrev pub local_prefix : Text → Text → Text
local_prefix engine key = engine ++ b'/' ∷ key

unfoldable pub report_upload : ℕ → Text → Text → Exec World Unit
report_upload job remote_uri [] = do
  row ← query (complete_upload remote_uri job)
  logged (
      query (
        update_download_links_storage_uri remote_uri (local_prefix row.engine row.storage_key) job))
report_upload job remote_uri (c ∷ message) = logged (query (set_upload_status upload_failed job))

abbrev pending_or_nil : Result (List JobKey) → List JobKey
pending_or_nil (ok rows) = rows
pending_or_nil (err e) = []

unfoldable pub list_pending_uploads : Text → Exec World (List JobKey)
list_pending_uploads node = do
  rows ← attempt (query (claim_pending_uploads node))
  pure (pending_or_nil rows)

abbrev count_access : Bool → Text → Exec World Unit
count_access true token = logged (query (increment_link_access token))
count_access false token = pure tt

-- The access is counted by a goroutine of its own; here it is counted before the answer.
unfoldable pub resolve_download_token : Text → Bool → Exec World Text
resolve_download_token token increment = do
  link ← query (get_download_link_by_token token)
  count_access increment token
  pure link.storage_uri

-- The registry's engines by name, each as its way to find a cache key.
abbrev found_key : Option (Text → Result CacheKey) → Text → Result CacheKey
found_key none url = err unknown_engine
found_key (some resolve) url = resolve url

unfoldable pub resolve_cache_key :
    (Err → Text) → (Text → Option (Text → Result CacheKey)) → Text → Text → CacheKeyResponse
resolve_cache_key error_text registry engine url =
    key_response error_text (found_key (registry engine) url)
