-- ===== src/Node/Server.antt =====
-- `NodeServer` (internal/core/node/server.go): it runs jobs on the engines of its own node and keeps them
-- in its tracker. What the engines answer is a parameter.
pub mod Located
pub mod Tracked
use opendebrid.Prelude.{
  ℕ, Bool, true, false, Option, none, some, List, [], ◌∷◌, ◌++◌, Text, codes, trim_prefix,
  trim_right, if◌then◌else◌,
}
use opendebrid.Prelude.Exec.{
  Err, Result, ok, err, remote, unknown_engine, Exec, pure, lift, ◌>>=◌, ◌>>◌,
}
use opendebrid.Node.Tracker.{Tracker, add, remove}
use opendebrid.Engine.{FileInfo}
use opendebrid.Storage.Path.{join}
use opendebrid.World.{DispatchRequest, DispatchResponse, JobRef}

-- internal/core/engine/engine.go: the calls of an engine that a node server makes.
pub record Engine : Type 0 where
  pub download_dir : Text
  pub add_job : DispatchRequest → Result Text
  pub list_files : Text → Text → Result (List FileInfo)
  pub cancel : Text → Result {0} Unit
  pub remove_files : Text → Text → Result {0} Unit

-- `NewNodeServer`: the registry's engines by name, and the download directory.
pub record NodeServer : Type 0 where
  pub registry : Text → Option Engine
  pub download_dir : Text

abbrev pub new_node_server : (Text → Option Engine) → Text → NodeServer
new_node_server registry dir = record { registry = registry; download_dir = trim_right b'/' dir }

-- `registry.Get`
abbrev pub engine_of : Option Engine → Result Engine
engine_of none = err unknown_engine
engine_of (some e) = ok e

-- The answer and the error that stands beside it.
abbrev pub Dispatched : Type 0
Dispatched = DispatchResponse × Result {0} Unit

module _ (error_text : Err → Text) where
  abbrev pub refused : Err → Dispatched
  refused e = (
    record { accepted = false; engine_job_id = []; file_location = []; error = error_text e },
    err e,
  )

  module _ (s : NodeServer) where
    -- The directory of the job, relative to the download directory.
    abbrev pub location_of : Engine → Text → Text
    location_of eng key =
        codes "file://" ++ trim_prefix (join eng.download_dir key) (s.download_dir ++ b'/' ∷ [])

    abbrev pub added : Engine → DispatchRequest → Result Text → Tracker → Dispatched × Tracker
    added eng req (err e) t = (
      (
        record { accepted = false; engine_job_id = []; file_location = []; error = error_text e },
        err (remote (codes "engine add: " ++ error_text e)),
      ),
      t,
    )
    added eng req (ok id) t = (
      (
        record {
          accepted = true;
          engine_job_id = id;
          file_location = location_of eng req.storage_key;
          error = [];
        },
        ok tt,
      ),
      add req.job_id req.engine id t,
    )

    abbrev pub dispatch_on : Result Engine → DispatchRequest → Tracker → Dispatched × Tracker
    dispatch_on (err e) req t = (refused e, t)
    dispatch_on (ok eng) req t = added eng req (eng.add_job req) t

    unfoldable pub dispatch_job : DispatchRequest → Tracker → Dispatched × Tracker
    dispatch_job req t = dispatch_on (engine_of (s.registry req.engine)) req t

abbrev pub forget : Option ℕ → Exec Tracker Unit
forget none t = (ok tt, t)
forget (some id) t = (ok tt, remove id t)

module _ (s : NodeServer) where
  unfoldable pub get_job_files : JobRef → Exec Tracker (List FileInfo)
  get_job_files ref = do
    eng ← lift (engine_of (s.registry ref.engine))
    lift (eng.list_files ref.storage_key ref.engine_job_id)

  unfoldable pub cancel_job : JobRef → Exec Tracker Unit
  cancel_job ref = do
    eng ← lift (engine_of (s.registry ref.engine))
    lift (eng.cancel ref.engine_job_id)
    forget ref.job_id

  unfoldable pub remove_job : JobRef → Exec Tracker Unit
  remove_job ref = do
    eng ← lift (engine_of (s.registry ref.engine))
    lift (eng.remove_files ref.storage_key ref.engine_job_id)
