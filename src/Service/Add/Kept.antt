-- ===== src/Service/Add/Kept.antt =====
-- The steps of `Add` (internal/core/service/download.go), one by one.
use opendebrid.Prelude.{
  ℕ, Option, none, some, List, [], ◌∷◌, Text, find, is_empty, eq_text, ltb, ◌-◌, select, Bool-cases,
  inl, inr,
}
use opendebrid.Prelude.Exec.{
  Err, Result, ok, err, Exec, attempt, ◌>>=◌, Preserves, Preserves-pure, Preserves-raise,
  Preserves-attempt, Preserves-if, Preserves-bind,
}
use opendebrid.Database.Model.{Job, Download, Db, is_resettable}
use opendebrid.Database.Jobs.{reset_job}
use opendebrid.Database.Downloads.{
  create_download, find_download_by_user_and_job_id, touch_download,
}
use opendebrid.Database.Nodes.{list_online_nodes}
use opendebrid.Database.NodeStatus.{logged}
use opendebrid.Scheduler.{
  NodeSelectRequest, select_node, online_nodes, cached_or_fresh, refresh, choose, rotate,
  preferred_or_next, candidate, nodes_cache_ttl,
}
use opendebrid.Service.Add.{
  AddDownloadRequest, attach, attach_to, is_attachable, attached, reuse, after_reset,
  ensure_download, ensure_found,
}
use opendebrid.Service.Add.Orphans.{
  NoOrphans, NoOrphans-touch_download, NoOrphans-find_download, NoOrphans-reset_job,
  NoOrphans-create_download,
}
use opendebrid.World.{World, OnDb, CachedNode, query, Preserves-query}

-- Code on the world that keeps every job's download.
abbrev pub Kept : {A : Type 0} → Exec World A → Type 0
Kept m = Preserves m (OnDb NoOrphans)

module _ {A B : Type 0} where
  -- The steps of a block.
  pub both :
      (m : Exec World A) (f : A → Exec World B) → Kept m → ((a : A) → Kept (f a)) → Kept (m >>= f)
  both m f h k = Preserves-bind (OnDb NoOrphans) f k m h

module _ {A : Type 0} where
  pub asked : (q : Exec Db A) → Preserves q NoOrphans → Kept (query q)
  asked q h = Preserves-query NoOrphans q h

  pub tried : (m : Exec World A) → Kept m → Kept (attempt m)
  tried m h = Preserves-attempt (OnDb NoOrphans) h

  pub logged-Kept : (m : Exec World A) → Kept m → Kept (logged m)
  logged-Kept m h = both (attempt m) _ (tried m h) (λ r. Preserves-pure (OnDb NoOrphans))

attach_to-Kept : (user : ℕ) (j : Job) (r : Result Download) → Kept (attach_to user j r)
attach_to-Kept user j (ok d) =
    both (logged (query (touch_download d.id))) _
      (logged-Kept _ (asked _ (NoOrphans-touch_download d.id)))
      (λ _. Preserves-pure (OnDb NoOrphans) {a = some (attached j d.id)})
attach_to-Kept user j (err e) =
    both (query (create_download user j.id)) _ (asked _ (NoOrphans-create_download user j.id))
      (λ d. Preserves-pure (OnDb NoOrphans))

pub attach-Kept : (user : ℕ) (r : Result Job) → Kept (attach user r)
unfolding attach
attach-Kept user (err e) = Preserves-pure (OnDb NoOrphans)
attach-Kept user (ok j) =
    Preserves-if (OnDb NoOrphans) (is_attachable j.status)
      (both (attempt (query (find_download_by_user_and_job_id user j.id))) _
        (tried _ (asked _ (NoOrphans-find_download user j.id))) (attach_to-Kept user j))
      (Preserves-pure (OnDb NoOrphans))

ensure_found-Kept : (job : ℕ) (e : Err) (r : Result Download) → Kept (ensure_found job e r)
ensure_found-Kept job e (ok d) = Preserves-pure (OnDb NoOrphans)
ensure_found-Kept job e (err x) = Preserves-raise (OnDb NoOrphans)

ensure_download-Kept : (user job : ℕ) (r : Result Download) → Kept (ensure_download user job r)
ensure_download-Kept user job (ok d) = Preserves-pure (OnDb NoOrphans)
ensure_download-Kept user job (err e) =
    both (attempt (query (find_download_by_user_and_job_id user job))) _
      (tried _ (asked _ (NoOrphans-find_download user job))) (ensure_found-Kept job e)

after_reset-Kept : (user : ℕ) (r : Result Job) → Kept (after_reset user r)
after_reset-Kept user (err e) = Preserves-pure (OnDb NoOrphans)
after_reset-Kept user (ok j) =
    both (attempt (query (create_download user j.id))) _
      (tried _ (asked _ (NoOrphans-create_download user j.id))) (ensure_download-Kept user j.id)

pub reuse-Kept : (req : AddDownloadRequest) (node : Text) (r : Result Job) → Kept (reuse req node r)
unfolding reuse
reuse-Kept req node (err e) = Preserves-pure (OnDb NoOrphans)
reuse-Kept req node (ok j) =
    Preserves-if (OnDb NoOrphans) (is_resettable j.status)
      (both (attempt (query (reset_job j.id node req.url))) _
        (tried _ (asked _ (NoOrphans-reset_job j.id node req.url))) (after_reset-Kept req.user_id))
      (Preserves-pure (OnDb NoOrphans))

NoOrphans-list_online_nodes : Preserves list_online_nodes NoOrphans
unfolding list_online_nodes
NoOrphans-list_online_nodes = record { after = λ db h. h }

rotate-Kept : (c : CachedNode) (cs : List CachedNode) → Kept (rotate c cs)
rotate-Kept c cs = record { after = λ w h. h }

preferred-Kept :
    (c : CachedNode) (cs : List CachedNode) (o : Option CachedNode)
    → Kept (preferred_or_next c cs o)
preferred-Kept c cs none = rotate-Kept c cs
preferred-Kept c cs (some x) = Preserves-pure (OnDb NoOrphans)

choose-Kept : (req : NodeSelectRequest) (cs : List CachedNode) → Kept (choose req cs)
choose-Kept req [] = Preserves-raise (OnDb NoOrphans)
choose-Kept req (c ∷ cs) =
    Preserves-if (OnDb NoOrphans) (is_empty req.preferred_node) (rotate-Kept c cs)
      (preferred-Kept c cs (find (λ x. eq_text x.node.id req.preferred_node) (c ∷ cs)))

module _ (parse : Text → Option (List Text)) where
  refresh-Kept : Kept (refresh parse)
  refresh-Kept =
      both (query list_online_nodes) _ (asked _ NoOrphans-list_online_nodes)
        (λ nodes. record { after = λ w h. h })

  cached_or_fresh-Kept : (c : Option (List CachedNode)) → Kept (cached_or_fresh parse c)
  cached_or_fresh-Kept none = refresh-Kept
  cached_or_fresh-Kept (some nodes) = record {
    after = λ w h. elim (Bool-cases (ltb (w.db.clock - w.cached_at) nodes_cache_ttl)) [
      | inl e ↦ rw e h
      | inr e ↦ rw e (refresh-Kept.after w h)
    ];
  }

  pub select_node-Kept : (req : NodeSelectRequest) → Kept (select_node parse req)
  unfolding select_node online_nodes
  select_node-Kept req =
      both (online_nodes parse) _
        (record { after = λ w h. (cached_or_fresh-Kept w.cached_nodes).after w h })
        (λ nodes. choose-Kept req (select (candidate req) nodes))
