-- ===== src/Node/Remote/Same.antt =====
-- A remote node against a local one: what its client passes on, and what it does not.
use opendebrid.Prelude.{
  ℕ, ◌≡◌, refl, ap, ◌∙◌, false, Option, none, some, ◌++◌, Text, codes, has_prefix, trim_prefix,
  trim_prefix-append,
}
use opendebrid.Prelude.Exec.{
  Err, Result, ok, err, remote, unknown_engine, lift, continue, ◌>>=◌, ◌>>◌,
}
use opendebrid.Node.Remote.{
  delivered, CancelJobRequest, ack_of, response_of, dispatched_by, grpc_cancel_job,
  remote_dispatch_job, remote_cancel_job,
}
use opendebrid.Node.Server.{
  NodeServer, Engine, Dispatched, engine_of, added, dispatch_on, dispatch_job, forget, cancel_job,
}
use opendebrid.Node.Tracker.{Tracker}
use opendebrid.Service.Add.{Ids, rejection, settle}
use opendebrid.Service.Env.{Env, Reply}
use opendebrid.World.{DispatchRequest, DispatchResponse, JobRef}

-- The request by which the client passes a cancellation on.
abbrev pub cancel_request : JobRef → CancelJobRequest
cancel_request ref = record {
  job_id = ref.job_id;
  engine_job_id = ref.engine_job_id;
  engine = ref.engine;
}

-- A refusal as a response carries it: without the prefix, and not empty.
abbrev pub unwrapped : Env → Reply DispatchResponse → Reply DispatchResponse
unwrapped env (Reply.answered r) = Reply.answered r
unwrapped env (Reply.refused m) =
    Reply.refused (rejection env (trim_prefix m (codes "engine add: ")))

module _ (error_text : Err → Text) where
  -- What `Add` is answered: the error, or the response that stands beside it.
  abbrev pub reply_of : Dispatched → Reply DispatchResponse
  reply_of (r, ok u) = Reply.answered r
  reply_of (r, err e) = Reply.refused (error_text e)

  -- An error says what the response beside it does, an engine's with a prefix.
  abbrev Carries : Dispatched → Type 0
  Carries (r, ok u) = Unit
  Carries (r, err e) = trim_prefix (error_text e) (codes "engine add: ") ≡ r.error

  -- The text of an error of `remote` is the text that it carries, and an unknown engine is no failure of one.
  module _ (text : (m : Text) → error_text (remote m) ≡ m)
      (unknown : has_prefix (error_text unknown_engine) (codes "engine add: ") ≡ false) where
    added-Carries :
        (s : NodeServer) (eng : Engine) (req : DispatchRequest) (r : Result Text) (t : Tracker)
        → Carries (added error_text s eng req r t).0
    added-Carries s eng req (err e) t =
        ap (λ m. trim_prefix m (codes "engine add: ")) (text (codes "engine add: " ++ error_text e))
        ∙ trim_prefix-append (codes "engine add: ") (error_text e)
    added-Carries s eng req (ok id) t = tt

    dispatch_on-Carries :
        (s : NodeServer) (o : Option Engine) (req : DispatchRequest) (t : Tracker)
        → Carries (dispatch_on error_text s (engine_of o) req t).0
    unfolding trim_prefix
    dispatch_on-Carries s none req t = rw unknown refl
    dispatch_on-Carries s (some eng) req t = added-Carries s eng req (eng.add_job req) t

    module _ (env : Env) where
      settle-response :
          (s : NodeServer) (node : Text) (ids : Ids) (d : Dispatched × Tracker)
          → Carries d.0
          → settle env node ids
              (reply_of (dispatched_by error_text s delivered (response_of error_text d)).0)
            ≡ settle env node ids (unwrapped env (reply_of d.0))
      unfolding settle
      settle-response s node ids ((r, ok u), t) carries = refl
      settle-response s node ids ((r, err e), t) carries = rw carries refl

      -- Adding a download to a remote node whose answer arrives has the same outcome as adding it to a local
      -- one, the same response and the same changes to the database, but for the text of a failure: "engine
      -- add: ", which stands before the error of a local engine, is left out, and an empty text becomes "node
      -- rejected job". The text of an error that comes with one is to be that text, and the one for an unknown
      -- engine not to begin with the prefix.
      pub settle-remote_dispatch_job :
          (s : NodeServer) (node : Text) (ids : Ids) (req : DispatchRequest) (t : Tracker)
          → settle env node ids (reply_of (remote_dispatch_job error_text s delivered req t).0)
            ≡ settle env node ids (unwrapped env (reply_of (dispatch_job error_text s req t).0))
      unfolding remote_dispatch_job dispatch_job
      settle-remote_dispatch_job s node ids req t =
          settle-response s node ids
            (dispatch_on error_text s (engine_of (s.registry req.engine)) req t)
            (dispatch_on-Carries s (s.registry req.engine) req t)

  ignored :
      (x : Result {0} Unit × Tracker) (t : Tracker) (e : Err)
      → x.0 ≡ err e
      → x.1 ≡ t
      → ◌≡◌ {A = Result {0} Unit × Tracker}
          (continue (ack_of error_text x).0 (λ ack t'. (ok tt, t')) (ack_of error_text x).1)
          (ok tt, t)
  ignored (ok u, t') t e h same = absurd (cc)
  ignored (err x, t') t e h same = ap (λ t. (ok tt, t)) same

  answered :
      (x : Result {0} Unit × Tracker) (t : Tracker) (e : Err)
      → x.0 ≡ err e
      → x.1 ≡ t
      → ack_of error_text x ≡ (ok (record { acknowledged = false; message = error_text e }), t)
  answered (ok u, t') t e h same = absurd (cc)
  answered (err x, t') t e h same = cc

  cancelled-kept :
      (r : Result Engine) (ref : JobRef) (t : Tracker) (e : Err)
      → (let m = (do eng ← lift r; lift (eng.cancel ref.engine_job_id); forget ref.job_id) in
          (m t).0 ≡ err e → (m t).1 ≡ t)
  cancelled-kept (err x) ref t e h = refl
  cancelled-kept (ok eng) ref t e h = go (eng.cancel ref.engine_job_id) ref.job_id h
    where
      go :
          (r : Result {0} Unit) (id : Option ℕ)
          → (continue r (λ u. forget id) t).0 ≡ err e
          → (continue r (λ u. forget id) t).1 ≡ t
      go (err x) id h = refl
      go (ok u) none h = refl
      go (ok u) (some id) h = absurd (cc)

  -- A cancellation that fails on a worker is answered with its error, but the client that gets this answer
  -- returns none; the job is tracked as before.
  pub remote_cancel_job-ignored :
      (s : NodeServer) (ref : JobRef) (t : Tracker) (e : Err)
      → (cancel_job s ref t).0 ≡ err e
      → (grpc_cancel_job error_text s (cancel_request ref) t
          ≡ (ok (record { acknowledged = false; message = error_text e }), t))
        × (remote_cancel_job error_text s delivered ref t ≡ (ok tt, t))
  unfolding grpc_cancel_job remote_cancel_job cancel_job
  remote_cancel_job-ignored s ref t e h =
      let kept = cancelled-kept (engine_of (s.registry ref.engine)) ref t e h in
      (answered (cancel_job s ref t) t e h kept, ignored (cancel_job s ref t) t e h kept)
