-- ===== src/Database/NodeStatus.antt =====
-- A node goes offline and comes back (internal/database/nodeoffline.go, reconcile.go). Errors of the
-- queries are logged and passed over.
pub mod Outcome
use opendebrid.Prelude.{ℕ, Option, none, some, List, [], ◌∷◌, Text}
use opendebrid.Prelude.Exec.{Err, Result, ok, err, Exec, pure, attempt, ◌>>=◌, ◌>>◌}
use opendebrid.Database.Jobs.{
  mark_node_active_jobs_failed, mark_node_completed_jobs_inactive,
  restore_node_inactive_jobs_with_keys, fail_node_inactive_jobs_missing_keys,
  list_storage_keys_by_node,
}
use opendebrid.Database.Nodes.{set_node_offline}
use opendebrid.World.{World, query}

-- `if err := ...; err != nil { log }`
abbrev pub logged : {A : Type 0} → Exec World A → Exec World Unit
logged m = do attempt m >>= λ _. pure tt

unfoldable pub mark_node_jobs_for_offline : Text → Exec World Unit
mark_node_jobs_for_offline node = do
  logged (query (mark_node_active_jobs_failed node))
  logged (query (mark_node_completed_jobs_inactive node))

unfoldable pub mark_node_offline : Text → Exec World Unit
unfolding mark_node_jobs_for_offline
mark_node_offline node = do logged (query (set_node_offline node)); mark_node_jobs_for_offline node

pub record ReconcileResult : Type 0 where
  pub valid_keys : List Text
  pub restored_count : ℕ
  pub failed_count : ℕ

-- The zero value that a failed query returns.
abbrev count_or_zero : Result ℕ → ℕ
count_or_zero (ok n) = n
count_or_zero (err e) = 0

abbrev pub keys_or_nil : Result (List Text) → List Text
keys_or_nil (ok ks) = ks
keys_or_nil (err e) = []

unfoldable pub reconcile_node_on_startup : Text → List Text → Exec World ReconcileResult
reconcile_node_on_startup node disk_keys = do
  restored ← attempt (query (restore_node_inactive_jobs_with_keys node disk_keys))
  failed ← attempt (query (fail_node_inactive_jobs_missing_keys node))
  valid ← attempt (query (list_storage_keys_by_node node))
  pure (record {
    valid_keys = keys_or_nil valid;
    restored_count = count_or_zero restored;
    failed_count = count_or_zero failed;
  })
