-- ===== src/World.antt =====
-- What the controller's handlers run on: the database, the lost connections that are still to come,
-- the connected node clients, the calls made to nodes and storage so far, and the scheduler's state.
use opendebrid.Prelude.{◌≡◌, ℕ, Bool, true, false, Option, List, [], ◌∷◌, Text}
use opendebrid.Prelude.Ensures.{Ensures}
use opendebrid.Prelude.Exec.{ok, err, unavailable, Exec, Preserves}
use opendebrid.Database.Model.{Node, Db}

-- internal/core/node/client.go: options are the pairs of the request's map.
pub record DispatchRequest : Type 0 where
  pub job_id : ℕ
  pub engine : Text
  pub url : Text
  pub storage_key : Text
  pub options : List (Text × Text)

pub record DispatchResponse : Type 0 where
  pub accepted : Bool
  pub engine_job_id : Text
  pub file_location : Text
  pub error : Text

-- `job_id` is `none` where the source leaves the field empty.
pub record JobRef : Type 0 where
  pub engine : Text
  pub job_id : Option ℕ
  pub storage_key : Text
  pub engine_job_id : Text

-- A call that leaves the controller: on the client of a node, or on the storage provider.
pub data Call : Type 0 where
  dispatch : Text → DispatchRequest → Call
  cancel : Text → JobRef → Call
  remove : Text → JobRef → Call
  delete_remote : Text → Call

-- internal/controller/scheduler/scheduler.go: a node with its engines parsed.
pub record CachedNode : Type 0 where
  pub node : Node
  pub engines : List Text

pub record World : Type 0 where
  pub db : Db
  pub faults : List Bool
  pub clients : List Text
  pub trace : List Call
  pub cached_nodes : Option (List CachedNode)
  pub cached_at : ℕ
  pub counter : ℕ

module _ {A : Type 0} where
  abbrev pub run_query : List Bool → Exec Db A → Exec World A
  run_query [] q w = let (r, db) = q w.db in (r, record w { db = db })
  run_query (true ∷ fs) q w = (err unavailable, record w { faults = fs })
  run_query (false ∷ fs) q w = let (r, db) = q w.db in (r, record w { db = db; faults = fs })

  -- A query over the connection: `faults` says which of them are lost before they reach the database.
  abbrev pub query : Exec Db A → Exec World A
  query q w = run_query w.faults q w

-- The same world, with every query to come reaching the database.
abbrev pub calm : World → World
calm w = record w { faults = [] }

abbrev pub OnDb : (Db → Type 0) → World → Type 0
OnDb P w = P w.db

module _ {A : Type 0} (P : Db → Type 0) where
  Preserves-run_query :
      (fs : List Bool) (q : Exec Db A)
      → Preserves q P
      → (w : World) → P w.db
      → P (run_query fs q w).1.db
  Preserves-run_query [] q k w p = k.after w.db p
  Preserves-run_query (true ∷ fs) q k w p = p
  Preserves-run_query (false ∷ fs) q k w p = k.after w.db p

  -- What a query preserves, it preserves over a connection that may be lost.
  pub Preserves-query : (q : Exec Db A) → Preserves q P → Preserves (query q) (OnDb P)
  Preserves-query q k = record { after = λ w p. Preserves-run_query w.faults q k w p }

module _ {A : Type 0} (P : Db → Type 0) (Q : A → Db → Type 0) (q : Exec Db A)
    (h : Ensures P q Q) where
  pub Ensures-query : Ensures (OnDb P) (query q) (λ a w. Q a w.db)
  Ensures-query w p = go w.faults
    where
      go : (fs : List Bool) (a : A) → (run_query fs q w).0 ≡ ok a → Q a (run_query fs q w).1.db
      go [] a e = h w.db p a e
      go (true ∷ fs) a e = cc
      go (false ∷ fs) a e = h w.db p a e
