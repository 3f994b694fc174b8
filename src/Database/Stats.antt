-- ===== src/Database/Stats.antt =====
-- The counts for the statistics (internal/database/gen/nodes.sql.go, downloads.sql.go).
use opendebrid.Prelude.{ℕ, ◌+◌, List, [], ◌∷◌, length, count_where, select, if◌then◌else◌}
use opendebrid.Prelude.Exec.{ok, Exec}
use opendebrid.Database.Downloads.{DownloadRow, of_user}
use opendebrid.Database.Model.{Node, Job, Db, is_live, is_completed}
use opendebrid.Service.Listing.{joined}

pub record GetAdminStatsRow : Type 0 where
  pub total_users : ℕ
  pub active_jobs : ℕ
  pub total_nodes : ℕ
  pub online_nodes : ℕ
  pub disk_total : ℕ
  pub disk_available : ℕ

-- SUM(...) FILTER (WHERE is_online = true), with 0 for no rows.
abbrev pub sum_online : (Node → ℕ) → List Node → ℕ
sum_online f [] = 0
sum_online f (n ∷ ns) = let rest = sum_online f ns in if n.is_online then f n + rest else rest

unfoldable pub get_admin_stats : Exec Db GetAdminStatsRow
get_admin_stats db = (
  ok (record {
    total_users = length db.users;
    active_jobs = count_where (λ (j : Job). is_live j.status) db.jobs;
    total_nodes = length db.nodes;
    online_nodes = count_where (λ (n : Node). n.is_online) db.nodes;
    disk_total = sum_online (λ (n : Node). n.disk_total) db.nodes;
    disk_available = sum_online (λ (n : Node). n.disk_available) db.nodes;
  }),
  db,
)

pub record GetUserDownloadStatsRow : Type 0 where
  pub total : ℕ
  pub active : ℕ
  pub completed : ℕ

unfoldable pub get_user_download_stats : ℕ → Exec Db GetUserDownloadStatsRow
get_user_download_stats user db =
    let rows = joined db (select (of_user user) db.downloads) in
    (
      ok (record {
        total = length rows;
        active = count_where (λ (r : DownloadRow). is_live r.job.status) rows;
        completed = count_where (λ (r : DownloadRow). is_completed r.job.status) rows;
      }),
      db,
    )
