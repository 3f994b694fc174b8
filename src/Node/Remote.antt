-- ===== src/Node/Remote.antt =====
-- The client of a remote node (internal/core/node/remote.go) and the gRPC server of a worker that it calls
-- (internal/worker/grpc.go), over the worker's node server. The messages are records; a call is delivered, or
-- it is lost on the way there or back.
pub mod Same
use opendebrid.Prelude.{
  ℕ, Bool, true, false, Option, none, some, List, [], ◌∷◌, ◌++◌, Text, codes, has_prefix, is_empty,
  if◌then◌else◌,
}
use opendebrid.Prelude.Exec.{Err, Result, ok, err, Exec, pure, ◌>>=◌}
use opendebrid.Engine.{FileInfo}
use opendebrid.Node.Server.{
  NodeServer, Dispatched, dispatch_job, get_job_files, cancel_job, remove_job,
}
use opendebrid.Node.Tracker.{Tracker}
use opendebrid.Service.Keys.{CacheKey, type_text}
use opendebrid.World.{DispatchRequest, DispatchResponse, JobRef}

-- internal/proto: a field that a request does not have is empty for the server.
pub record CancelJobRequest : Type 0 where
  pub job_id : Option ℕ
  pub engine_job_id : Text
  pub engine : Text

pub record RemoveJobRequest : Type 0 where
  pub engine_job_id : Text
  pub engine : Text
  pub storage_key : Text

pub record JobFilesRequest : Type 0 where
  pub job_id : Option ℕ
  pub engine_job_id : Text
  pub engine : Text
  pub storage_key : Text

pub record Ack : Type 0 where
  pub acknowledged : Bool
  pub message : Text

pub record CacheKeyResponse : Type 0 where
  pub error : Text
  pub cache_key_type : Text
  pub cache_key_value : Text

-- The worker's side.
module _ (error_text : Err → Text) where
  abbrev pub ack_of : Result {0} Unit × Tracker → Result Ack × Tracker
  ack_of (ok u, t) = (ok (record { acknowledged = true; message = [] }), t)
  ack_of (err e, t) = (ok (record { acknowledged = false; message = error_text e }), t)

  abbrev pub response_of : Dispatched × Tracker → Result DispatchResponse × Tracker
  response_of ((r, ok u), t) = (ok r, t)
  response_of ((r, err e), t) =
      (ok (record { accepted = false; engine_job_id = []; file_location = []; error = r.error }), t)

  abbrev pub key_response : Result CacheKey → CacheKeyResponse
  key_response (err e) = record { error = error_text e; cache_key_type = []; cache_key_value = [] }
  key_response (ok k) = record {
    error = [];
    cache_key_type = type_text k.type;
    cache_key_value = k.value;
  }

  module _ (s : NodeServer) where
    unfoldable pub grpc_dispatch_job : DispatchRequest → Exec Tracker DispatchResponse
    grpc_dispatch_job req t = response_of (dispatch_job error_text s req t)

    unfoldable pub grpc_cancel_job : CancelJobRequest → Exec Tracker Ack
    grpc_cancel_job req t = ack_of (
        cancel_job s
          (record {
            engine = req.engine;
            job_id = req.job_id;
            storage_key = [];
            engine_job_id = req.engine_job_id;
          })
          t)

    unfoldable pub grpc_remove_job : RemoveJobRequest → Exec Tracker Ack
    grpc_remove_job req t = ack_of (
        remove_job s
          (record {
            engine = req.engine;
            job_id = none;
            storage_key = req.storage_key;
            engine_job_id = req.engine_job_id;
          })
          t)

    unfoldable pub grpc_get_job_files : JobFilesRequest → Exec Tracker (List FileInfo)
    grpc_get_job_files req = get_job_files s (record {
      engine = req.engine;
      job_id = none;
      storage_key = req.storage_key;
      engine_job_id = req.engine_job_id;
    })

-- `NodeServer.ResolveCacheKey` is the engine's.
abbrev pub grpc_resolve_cache_key :
    (Err → Text) → (Text → Text → Result CacheKey) → Text → Text → CacheKeyResponse
grpc_resolve_cache_key error_text resolve engine url = key_response error_text (resolve engine url)

-- The host and the port of an endpoint that is a URL with a host: `connect` dials the host, with a port of its
-- own for HTTPS.
abbrev pub with_port : Text → Text × Text → Text
with_port endpoint (host, port) =
    if is_empty host
    then endpoint
    else if has_prefix endpoint (codes "https://")
    then (if is_empty port then host ++ codes ":443" else host)
    else host

abbrev pub target_of : Text → Option (Text × Text) → Text
target_of endpoint none = endpoint
target_of endpoint (some u) = with_port endpoint u

unfoldable pub dial_target : (Text → Option (Text × Text)) → Text → Text
dial_target parse_host endpoint = target_of endpoint (parse_host endpoint)

-- What becomes of a call, `connect` included.
pub data Wire : Type 0 where
  delivered : Wire
  lost_request lost_answer : Err → Wire

module _ {A : Type 0} where
  abbrev pub over : Wire → Exec Tracker A → Exec Tracker A
  over delivered m t = m t
  over (lost_request e) m t = (err e, t)
  over (lost_answer e) m t = (err e, (m t).1)

-- The controller's side.
module _ (error_text : Err → Text) (s : NodeServer) (wire : Wire) where
  abbrev pub dispatched_by : Result DispatchResponse × Tracker → Dispatched × Tracker
  dispatched_by (ok r, t) = ((r, ok tt), t)
  dispatched_by (err e, t) = (
    (
      record { accepted = false; engine_job_id = []; file_location = []; error = error_text e },
      err e,
    ),
    t,
  )

  unfoldable pub remote_dispatch_job : DispatchRequest → Tracker → Dispatched × Tracker
  unfolding grpc_dispatch_job
  remote_dispatch_job req t = dispatched_by (over wire (grpc_dispatch_job error_text s req) t)

  unfoldable pub remote_get_job_files : JobRef → Exec Tracker (List FileInfo)
  unfolding grpc_get_job_files
  remote_get_job_files ref = over wire (
      grpc_get_job_files error_text s (record {
        job_id = ref.job_id;
        engine_job_id = ref.engine_job_id;
        engine = ref.engine;
        storage_key = ref.storage_key;
      }))

  -- The answer is not looked at.
  unfoldable pub remote_cancel_job : JobRef → Exec Tracker Unit
  unfolding grpc_cancel_job
  remote_cancel_job ref =
      over wire (
        grpc_cancel_job error_text s
          (record { job_id = ref.job_id; engine_job_id = ref.engine_job_id; engine = ref.engine }))
      >>= λ ack. pure tt

  unfoldable pub remote_remove_job : JobRef → Exec Tracker Unit
  unfolding grpc_remove_job
  remote_remove_job ref =
      over wire (
        grpc_remove_job error_text s (record {
          engine_job_id = ref.engine_job_id;
          engine = ref.engine;
          storage_key = ref.storage_key;
        }))
      >>= λ ack. pure tt
