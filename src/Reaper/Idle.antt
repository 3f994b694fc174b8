-- ===== src/Reaper/Idle.antt =====
-- What a round of the reaper leaves behind.
use opendebrid.Prelude.{
  ℕ, ◌+◌, ◌<◌, ltb, lt→ltb, ◌≢◌, eq_text_refl, ◌≡◌, refl, sym, ap, ◌∙◌, Bool, true, false, ◌&&◌,
  inl, inr, Bool-cases, Option, some, List, [], ◌∷◌, In, map, Text, codes, any, select,
  update_where, arith,
}
use opendebrid.Prelude.Exec.{ok}
use opendebrid.Database.Model.{
  Status, queued, active, on_node, failed, completed, inactive, Job, Node, Db, is_live, is_inactive,
}
use opendebrid.Database.Jobs.{
  live_on, completed_local_on, on_online_node, mark_node_active_jobs_failed,
  mark_node_completed_jobs_inactive, restore_stale_inactive_jobs,
}
use opendebrid.Database.Nodes.{is_stale_node, mark_stale_nodes_offline}
use opendebrid.Database.NodeStatus.{mark_node_jobs_for_offline}
use opendebrid.Reaper.{stale_node_threshold, each_offline, offline_stale, reap_stale_nodes}
use opendebrid.World.{World, calm}

-- No job of the table is queued or active on the node.
abbrev pub Idle : Text → List Job → Type 0
Idle node js = any (live_on node) js ≡ false

module _ (node : Text) (f : Job → Job) (ends : (j : Job) → is_live (f j).status ≡ false) where
  -- An update to a status that is not live leaves an idle node idle.
  Idle-update_where :
      (t : Job → Bool) (js : List Job) → Idle node js → Idle node (update_where t f js)
  Idle-update_where t [] h = refl
  Idle-update_where t (j ∷ js) h = ground (arith, ends j, Idle-update_where t js)

  -- One of all live jobs of the node makes it idle.
  Idle-live : (js : List Job) → Idle node (update_where (live_on node) f js)
  Idle-live [] = refl
  Idle-live (j ∷ js) = ground (arith, ends j, Idle-live js)

abbrev moved_to : Status → Option Text → ℕ → Job → Job
moved_to status error_message clock j =
    record (record j { status = status; error_message = error_message }) { updated_at = clock }

abbrev failed_at : ℕ → Job → Job
failed_at clock j = moved_to failed (some (codes "node went offline")) clock j

abbrev inactive_at : ℕ → Job → Job
inactive_at clock j = moved_to inactive j.error_message clock j

abbrev offline_jobs : Text → Db → Db
unfolding mark_node_active_jobs_failed mark_node_completed_jobs_inactive
offline_jobs node db =
    (mark_node_completed_jobs_inactive node (mark_node_active_jobs_failed node db).1).1

abbrev offline_all : List Text → Db → Db
offline_all [] db = db
offline_all (node ∷ nodes) db = offline_all nodes (offline_jobs node db)

each_offline-calm :
    (nodes : List Text) (w : World)
    → each_offline nodes (calm w) ≡ (ok tt, calm (record w { db = offline_all nodes w.db }))
unfolding mark_node_active_jobs_failed mark_node_completed_jobs_inactive mark_node_jobs_for_offline
    each_offline
each_offline-calm [] w = refl
each_offline-calm (node ∷ nodes) w =
    each_offline-calm nodes (record w { db = offline_jobs node w.db })

Idle-offline_jobs :
    (node other : Text) (db : Db) → Idle node db.jobs → Idle node (offline_jobs other db).jobs
unfolding mark_node_active_jobs_failed mark_node_completed_jobs_inactive
Idle-offline_jobs node other db h =
    Idle-update_where node (inactive_at db.clock) (λ j. refl) (completed_local_on other)
      (update_where (live_on other) (failed_at db.clock) db.jobs)
      (Idle-update_where node (failed_at db.clock) (λ j. refl) (live_on other) db.jobs h)

Idle-offline_all :
    (nodes : List Text) (node : Text) (db : Db)
    → Idle node db.jobs
    → Idle node (offline_all nodes db).jobs
Idle-offline_all [] node db h = h
Idle-offline_all (n ∷ nodes) node db h =
    Idle-offline_all nodes node (offline_jobs n db) (Idle-offline_jobs node n db h)

offline_jobs-Idle : (node : Text) (db : Db) → Idle node (offline_jobs node db).jobs
unfolding mark_node_active_jobs_failed mark_node_completed_jobs_inactive
offline_jobs-Idle node db =
    Idle-update_where node (inactive_at db.clock) (λ j. refl) (completed_local_on node)
      (update_where (live_on node) (failed_at db.clock) db.jobs)
      (Idle-live node (failed_at db.clock) (λ j. refl) db.jobs)

offline_all-Idle :
    (nodes : List Text) (node : Text) (db : Db)
    → In node nodes
    → Idle node (offline_all nodes db).jobs
offline_all-Idle [] node db m = absurd m
offline_all-Idle (n ∷ nodes) node db (inr m) = offline_all-Idle nodes node (offline_jobs n db) m
offline_all-Idle (n ∷ nodes) node db (inl e) =
    Idle-offline_all nodes node (offline_jobs n db) (rw e (offline_jobs-Idle n db))

Idle-restore :
    (node : Text) (db : Db) → Idle node db.jobs → Idle node (restore_stale_inactive_jobs db).1.jobs
unfolding restore_stale_inactive_jobs
Idle-restore node db h =
    Idle-update_where node (λ j. moved_to completed j.error_message db.clock j) (λ j. refl)
      (λ j.
        is_inactive j.status && (on_online_node db.nodes j && ltb (j.updated_at + 120) db.clock))
      db.jobs h

In-ids :
    (t : Node → Bool) (n : Node) (ns : List Node)
    → In n ns
    → t n ≡ true
    → In n.id (map (λ (n : Node). n.id) (select t ns))
In-ids t n [] m h = absurd m
In-ids t n (x ∷ ns) (inl e) h = rw (ap t (sym e) ∙ h) (inl (ap (λ (n : Node). n.id) e))
In-ids t n (x ∷ ns) (inr m) h = elim (Bool-cases (t x)) [
  | inl b ↦ rw b (inr (In-ids t n ns m h))
  | inr b ↦ rw b (In-ids t n ns m h)
]

Idle-job :
    (node : Text) (js : List Job) (j : Job)
    → Idle node js
    → In j js
    → j.node_id ≡ some node
    → is_live j.status ≡ false
unfolding on_node
Idle-job node [] j h m e = absurd m
Idle-job node (x ∷ js) j h (inl same) e =
    let here : on_node node j ≡ true = rw e (eq_text_refl node) in
    ground (arith, h, here, ap (λ (y : Job). is_live y.status) same, ap (on_node node) same)
Idle-job node (x ∷ js) j h (inr m) e = Idle-job node js j (ground (arith, h)) m e

neither : (s : Status) → is_live s ≡ false → (s ≢ queued) × (s ≢ active)
neither s h = (λ e. absurd (cc (rw e at h)), λ e. absurd (cc (rw e at h)))

-- A round of the reaper with a database that answers: a node that was online, with its last heartbeat at a
-- time more than 90 seconds before the database's, has neither a queued nor an active job afterwards.
pub reap_stale_nodes-Idle :
    (w : World) (n : Node) (beat : ℕ) (j : Job)
    → In n w.db.nodes
    → n.is_online ≡ true
    → n.last_heartbeat ≡ some beat
    → beat + 90 < w.db.clock
    → In j (reap_stale_nodes (calm w)).1.db.jobs
    → j.node_id ≡ some n.id
    → (j.status ≢ queued) × (j.status ≢ active)
unfolding reap_stale_nodes offline_stale mark_stale_nodes_offline restore_stale_inactive_jobs
reap_stale_nodes-Idle w n beat j m online last late in_jobs on =
    let t = is_stale_node w.db.clock stale_node_threshold false in
    let ids = map (λ (n : Node). n.id) (select t w.db.nodes) in
    let marked = record w {
      db = record w.db { nodes = update_where t (λ n. record n { is_online = false }) w.db.nodes };
    } in
    let stale : t n ≡ true = rw online (rw last (rw (lt→ltb (beat + 90) w.db.clock late) refl)) in
    let idle : Idle n.id (reap_stale_nodes (calm w)).1.db.jobs = rw (each_offline-calm ids marked) (
      Idle-restore n.id (offline_all ids marked.db)
        (offline_all-Idle ids n.id marked.db (In-ids t n w.db.nodes m stale))) in
    neither j.status (Idle-job n.id (reap_stale_nodes (calm w)).1.db.jobs j idle in_jobs on)
