-- ===== src/Worker/Reconcile.antt =====
-- `reconcileNode` and `cleanupOrphanedDirs` of internal/worker/server.go, with the controller's
-- handlers `ReconcileNode` and `ListNodeStorageKeys` behind the remote calls.
use opendebrid.Prelude.{
  ℕ, ◌≡◌, refl, ap, fun_ext, ◌∙◌, Bool, true, false, ◌&&◌, none, some, List, [], ◌∷◌, map, Text,
  codes, eq_text, any, select, arith, if◌then◌else◌,
}
use opendebrid.Prelude.Exec.{Result, ok, err, unavailable, Exec, pure, raise, attempt, ◌>>=◌}
use opendebrid.Database.Model.{completed, failed, Job, on_node, is_inactive}
use opendebrid.Database.Jobs.{
  list_storage_keys_by_node, keeps_files, restore_node_inactive_jobs_with_keys,
  fail_node_inactive_jobs_missing_keys,
}
use opendebrid.Database.NodeStatus.{ReconcileResult, reconcile_node_on_startup}
use opendebrid.Database.NodeStatus.Outcome.{if_on_node, brought_back, reconcile_node_on_startup_lem}
use opendebrid.Util.StorageDir.{Dir, scan_storage_keys, remove_orphaned_dirs}
use opendebrid.Util.StorageDir.Orphans.{
  holds_key, scan_storage_keys-any, holds_key-remove_orphaned_dirs,
}
use opendebrid.World.{World, query, calm}

-- A remote call that does not reach the controller, or whose answer is lost.
abbrev pub over_network : {A : Type 0} → Bool → Exec World A → Exec World A
over_network true m = raise unavailable
over_network false m = m

abbrev pub clean : List Dir → Result (List Text) → List Dir
clean dirs (ok keys) = remove_orphaned_dirs dirs keys
clean dirs (err e) = dirs

-- The directories after the fallback clean-up.
unfoldable pub cleanup_orphaned_dirs : Bool → Text → List Dir → Exec World (List Dir)
cleanup_orphaned_dirs lost node dirs = do
  keys ← attempt (over_network lost (query (list_storage_keys_by_node node)))
  pure (clean dirs keys)

abbrev finish : Bool → Text → List Dir → Result ReconcileResult → Exec World (List Dir)
finish lost node dirs (ok r) = pure (remove_orphaned_dirs dirs r.valid_keys)
finish lost node dirs (err e) = cleanup_orphaned_dirs lost node dirs

-- The directories after the reconciliation; `lost` and `lost'` say which of the two calls are lost.
unfoldable pub reconcile_node : Bool → Bool → Text → List Dir → Exec World (List Dir)
unfolding cleanup_orphaned_dirs
reconcile_node lost lost' node dirs = do
  resp ← attempt (over_network lost (reconcile_node_on_startup node (scan_storage_keys dirs)))
  finish lost' node dirs resp

-- A job whose files are to stay on the node.
abbrev pub keeps_key : Text → Text → Job → Bool
keeps_key node k j = (on_node node j && keeps_files j.status) && eq_text k j.storage_key

any-keys :
    (node k : Text) (jobs : List Job)
    → any (eq_text k) (
        map
          (λ (j : Job). j.storage_key)
          (select (λ j. on_node node j && keeps_files j.status) jobs))
      ≡ any (keeps_key node k) jobs
any-keys node k [] = refl
any-keys node k (j ∷ js) = ground (arith, any-keys node k js)

-- What becomes of an inactive job, in terms of the directories of the node.
abbrev pub found_on_disk : ℕ → List Dir → Job → Job
found_on_disk clock dirs j =
    if is_inactive j.status
    then (if holds_key j.storage_key dirs
        then record j { status = completed; updated_at = clock }
        else record j {
          status = failed;
          error_message = some (codes "files not found on node after restart");
          file_location = none;
          updated_at = clock;
        })
    else j

brought_back-scan :
    (clock : ℕ) (dirs : List Dir) (j : Job)
    → brought_back clock (scan_storage_keys dirs) j ≡ found_on_disk clock dirs j
brought_back-scan clock dirs j = ground (arith, scan_storage_keys-any j.storage_key dirs)

-- The directories on the disk after a run: those of the result, or the old ones where it failed.
abbrev pub dirs_after : List Dir → Result (List Dir) → List Dir
dirs_after dirs (ok dirs') = dirs'
dirs_after dirs (err e) = dirs

-- A worker that reaches a controller whose database answers: each inactive job of the node is completed
-- if a directory of its storage key stands on the node's disk and failed if none does, and no other job
-- changes; then the directories of the keys of the node's jobs that have not failed stand as before, and
-- those of every other storage key are gone.
pub reconcile_node_lem :
    (node k : Text) (dirs : List Dir) (lost' : Bool) (w : World)
    → (let r = reconcile_node false lost' node dirs (calm w) in
        (r.1.db.jobs ≡ map (if_on_node node (found_on_disk w.db.clock dirs)) w.db.jobs)
        × (holds_key k (dirs_after dirs r.0)
            ≡ (any (keeps_key node k) r.1.db.jobs && holds_key k dirs)))
unfolding reconcile_node reconcile_node_on_startup restore_node_inactive_jobs_with_keys
    fail_node_inactive_jobs_missing_keys list_storage_keys_by_node
reconcile_node_lem node k dirs lost' w =
    let restored = (reconcile_node_on_startup_lem node (scan_storage_keys dirs) w).0 in
    (
      restored
          ∙ ap (λ f. map (if_on_node node f) w.db.jobs)
              (fun_ext (brought_back-scan w.db.clock dirs)),
      rw holds_key-remove_orphaned_dirs (
          ap (λ b. b && holds_key k dirs)
            (any-keys node k (reconcile_node false lost' node dirs (calm w)).1.db.jobs)),
    )

-- A controller that loses its database connection at the last query of the reconciliation answers
-- without an error and with no valid keys, and the worker then removes the directory of every key.
pub reconcile_node_lost_keys :
    (node k : Text) (dirs : List Dir) (lost' : Bool) (fs : List Bool) (w : World)
    → holds_key k (
        dirs_after dirs
          (reconcile_node false lost' node dirs
            (record w { faults = false ∷ false ∷ true ∷ fs })).0)
      ≡ false
unfolding reconcile_node reconcile_node_on_startup restore_node_inactive_jobs_with_keys
    fail_node_inactive_jobs_missing_keys list_storage_keys_by_node
reconcile_node_lost_keys node k dirs lost' fs w = rw holds_key-remove_orphaned_dirs
