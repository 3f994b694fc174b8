-- ===== src/Node/Server/Tracked.antt =====
-- Which jobs are tracked after the calls of a node server.
use opendebrid.Prelude.{
  ℕ, ◌≡◌, refl, Bool, false, not, ◌&&◌, ◌||◌, Option, none, some, Text, ◌==◌, arith,
}
use opendebrid.Prelude.Exec.{Err, Result, ok, err, is_ok, lift, ◌>>=◌, ◌>>◌}
use opendebrid.Node.Server.{
  Engine, NodeServer, engine_of, added, dispatch_on, dispatch_job, forget, cancel_job,
}
use opendebrid.Node.Tracker.{Tracker, tracked, tracked-add, tracked-remove}
use opendebrid.World.{DispatchRequest, JobRef}

abbrev pub is_id : ℕ → Option ℕ → Bool
is_id k none = false
is_id k (some id) = k == id

tracked-added :
    (error_text : Err → Text) (s : NodeServer) (k : ℕ) (eng : Engine) (req : DispatchRequest)
    (r : Result Text) (t : Tracker)
    → tracked k (added error_text s eng req r t).1
      ≡ ((is_ok (added error_text s eng req r t).0.1 && (k == req.job_id)) || tracked k t)
tracked-added error_text s k eng req (err e) t = refl
tracked-added error_text s k eng req (ok id) t = tracked-add req.job_id k req.engine id t

tracked-forget :
    (k : ℕ) (id : Option ℕ) (t : Tracker)
    → tracked k (forget id t).1 ≡ (tracked k t && not (is_id k id))
tracked-forget k none t = ground arith
tracked-forget k (some id) t = tracked-remove id k t

-- The end of a cancellation whose engine is known.
tracked-cancelled :
    (k : ℕ) (r : Result {0} Unit) (id : Option ℕ) (t : Tracker)
    → (let c = (lift r >> forget id) t in
        tracked k c.1 ≡ (tracked k t && not (is_ok c.0 && is_id k id)))
tracked-cancelled k (err e) id t = ground arith
tracked-cancelled k (ok u) none t = ground arith
tracked-cancelled k (ok u) (some id) t = tracked-remove id k t

tracked-dispatch_on :
    (error_text : Err → Text) (s : NodeServer) (k : ℕ) (r : Result Engine) (req : DispatchRequest)
    (t : Tracker)
    → (let d = dispatch_on error_text s r req t in
        tracked k d.1 ≡ ((is_ok d.0.1 && (k == req.job_id)) || tracked k t))
tracked-dispatch_on error_text s k (err e) req t = refl
tracked-dispatch_on error_text s k (ok eng) req t =
    tracked-added error_text s k eng req (eng.add_job req) t

tracked-cancel_on :
    (k : ℕ) (r : Result Engine) (ref : JobRef) (t : Tracker)
    → (let c = (do eng ← lift r; lift (eng.cancel ref.engine_job_id); forget ref.job_id) t in
        tracked k c.1 ≡ (tracked k t && not (is_ok c.0 && is_id k ref.job_id)))
tracked-cancel_on k (err e) ref t = ground arith
tracked-cancel_on k (ok eng) ref t = tracked-cancelled k (eng.cancel ref.engine_job_id) ref.job_id t

-- After a dispatch the jobs that were tracked are, and the request's job is if no error is returned; after a
-- cancellation the jobs that were tracked are, but for the named job where no error is returned.
pub tracked-node_server :
    (error_text : Err → Text) (s : NodeServer) (k : ℕ) (req : DispatchRequest) (ref : JobRef)
    (t : Tracker)
    → (let d = dispatch_job error_text s req t in
        tracked k d.1 ≡ ((is_ok d.0.1 && (k == req.job_id)) || tracked k t))
      × (let c = cancel_job s ref t in
          tracked k c.1 ≡ (tracked k t && not (is_ok c.0 && is_id k ref.job_id)))
unfolding dispatch_job cancel_job
tracked-node_server error_text s k req ref t = (
  tracked-dispatch_on error_text s k (engine_of (s.registry req.engine)) req t,
  tracked-cancel_on k (engine_of (s.registry ref.engine)) ref t,
)
