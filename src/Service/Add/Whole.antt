-- ===== src/Service/Add/Whole.antt =====
-- `Add` (internal/core/service/download.go) as a whole.
use opendebrid.Prelude.{ℕ, Option, none, some, [], ◌∷◌, ◌++◌, Text}
use opendebrid.Prelude.Exec.{
  Result, remote, lift, attempt, Preserves-pure, Preserves-raise, Preserves-lift, Preserves-if,
}
use opendebrid.Database.Model.{active, failed, Job}
use opendebrid.Database.Jobs.{get_job_by_storage_key, update_job_status}
use opendebrid.Database.NodeStatus.{logged}
use opendebrid.Scheduler.{select_node}
use opendebrid.Service.Add.{
  AddDownloadRequest, AddDownloadResponse, Ids, attach, reuse, reused_or_new, require_client,
  dispatch_to, settle, dispatched, fail_dispatch, rejection, request_for, place, attached_or_placed,
  add_with_key, storage_key, add,
}
use opendebrid.Service.Add.Orphans.{
  NoOrphans, NoOrphans-get_job, NoOrphans-update_job_status, NoOrphans-create_new,
}
use opendebrid.Service.Add.Kept.{
  Kept, both, asked, tried, logged-Kept, attach-Kept, reuse-Kept, select_node-Kept,
}
use opendebrid.Service.Env.{Env, Reply, refused, answered}
use opendebrid.World.{World, OnDb, dispatch, DispatchResponse, query}

module _ (env : Env) where
  fail_dispatch-Kept : (job : ℕ) (message : Text) → Kept (fail_dispatch env job message)
  fail_dispatch-Kept job message =
      both (logged (query (update_job_status job failed [] message []))) _
        (logged-Kept _ (asked _ (NoOrphans-update_job_status job failed [] message [])))
        (λ _. Preserves-raise (OnDb NoOrphans) {e = remote message})

  settle-Kept :
      (node : Text) (ids : Ids) (r : Reply DispatchResponse) → Kept (settle env node ids r)
  unfolding settle
  settle-Kept node ids (refused message) = fail_dispatch-Kept ids.0 message
  settle-Kept node ids (answered r) =
      Preserves-if (OnDb NoOrphans) r.accepted
        (both (logged (query (update_job_status ids.0 active r.engine_job_id [] r.file_location))) _
          (logged-Kept _
            (asked _ (NoOrphans-update_job_status ids.0 active r.engine_job_id [] r.file_location)))
          (λ _. Preserves-pure (OnDb NoOrphans) {a = dispatched node ids}))
        (fail_dispatch-Kept ids.0 (rejection env r.error))

  dispatch_to-Kept :
      (req : AddDownloadRequest) (node key : Text) (ids : Ids)
      → Kept (dispatch_to env req node key ids)
  unfolding dispatch_to
  dispatch_to-Kept req node key ids = record {
    after = λ w h.
        (settle-Kept node ids (env.dispatch_job w.trace node (request_for env req key ids))).after
          (record w { trace = w.trace ++ dispatch node (request_for env req key ids) ∷ [] }) h;
  }

  reused_or_new-Kept :
      (req : AddDownloadRequest) (node key : Text) (old : Option Ids)
      → Kept (reused_or_new env req node key old)
  reused_or_new-Kept req node key (some ids) = Preserves-pure (OnDb NoOrphans)
  reused_or_new-Kept req node key none = NoOrphans-create_new env req node key

  require_client-Kept : (node : Text) → Kept (require_client env node)
  require_client-Kept node = record { after = λ w h. h }

  place-Kept : (req : AddDownloadRequest) (key : Text) (r : Result Job) → Kept (place env req key r)
  unfolding place
  place-Kept req key r =
      both
        (select_node env.parse_engines
          (record { engine = req.engine; estimated_size = 0; preferred_node = req.prefer_node }))
        _ (select_node-Kept env.parse_engines _)
        (λ s. both (require_client env s.node_id) _ (require_client-Kept s.node_id) (λ _.
          both (reuse req s.node_id r) _ (reuse-Kept req s.node_id r) (λ old.
            both (reused_or_new env req s.node_id key old) _
              (reused_or_new-Kept req s.node_id key old)
              (λ ids. dispatch_to-Kept req s.node_id key ids))))

  attached_or_placed-Kept :
      (req : AddDownloadRequest) (key : Text) (r : Result Job) (found : Option AddDownloadResponse)
      → Kept (attached_or_placed env req key r found)
  attached_or_placed-Kept req key r (some resp) = Preserves-pure (OnDb NoOrphans)
  attached_or_placed-Kept req key r none = place-Kept req key r

  add_with_key-Kept : (req : AddDownloadRequest) (key : Text) → Kept (add_with_key env req key)
  add_with_key-Kept req key =
      both (attempt (query (get_job_by_storage_key key))) _
        (tried _ (asked _ (NoOrphans-get_job key)))
        (λ r.
          both (attach req.user_id r) _ (attach-Kept req.user_id r)
            (attached_or_placed-Kept req key r))

  add-Kept : (req : AddDownloadRequest) → Kept (add env req)
  unfolding add
  add-Kept req =
      Preserves-if (OnDb NoOrphans) (env.known_engine req.engine)
        (both (lift (env.resolve_cache_key req.engine req.url)) _ (Preserves-lift (OnDb NoOrphans))
          (λ k. add_with_key-Kept req (storage_key env req.engine k)))
        (Preserves-raise (OnDb NoOrphans))

  -- Whatever the engines and nodes answer and whichever queries are lost, on success and on failure: if
  -- every job has a download before `Add`, every job has one after it.
  pub add-NoOrphans :
      (req : AddDownloadRequest) (w : World) → NoOrphans w.db → NoOrphans (add env req w).1.db
  add-NoOrphans req w h = (add-Kept req).after w h
