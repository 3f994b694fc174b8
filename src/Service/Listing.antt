-- ===== src/Service/Listing.antt =====
-- The listings of a user's downloads (`ListByUserWithStatus`, `ListByUserAndEngineWithStatus` of
-- internal/core/service/download.go, and their queries in internal/database/gen/downloads.sql.go). Downloads
-- of one second come in either order from PostgreSQL; the model takes the later row first.
pub mod Pages
use opendebrid.Prelude.{
  ℕ, Bool, true, false, ◌&&◌, Option, none, some, List, [], ◌∷◌, map, Text, eq_text, select, length,
  take, drop, ltb, if◌then◌else◌,
}
use opendebrid.Prelude.Exec.{ok, Exec, pure, ◌>>=◌}
use opendebrid.Database.Downloads.{DownloadRow, of_user, join}
use opendebrid.Database.Model.{Status, Download, Db}
use opendebrid.Service.Links.{compute_eta}
use opendebrid.World.{World, query}

-- With COUNT(*) OVER (), the number of rows before the page is cut.
pub record ListRow : Type 0 where
  pub row : DownloadRow
  pub total_count : ℕ

abbrev pub joined : Db → List Download → List DownloadRow
joined db [] = []
joined db (d ∷ ds) =
    let rest = joined db ds in elim (join db (some d)) [ none ↦ rest | some r ↦ r ∷ rest ]

-- ORDER BY d.created_at DESC
abbrev pub insert_newest : DownloadRow → List DownloadRow → List DownloadRow
insert_newest r [] = r ∷ []
insert_newest r (x ∷ xs) =
    let rest = insert_newest r xs in
    if ltb r.download.created_at x.download.created_at then x ∷ rest else r ∷ x ∷ xs

abbrev pub newest_first : List DownloadRow → List DownloadRow
newest_first [] = []
newest_first (r ∷ rs) = insert_newest r (newest_first rs)

abbrev pub runs_on : Option Text → DownloadRow → Bool
runs_on none r = true
runs_on (some engine) r = eq_text r.job.engine engine

-- The rows of both queries; `engine` is `none` for the one without an engine.
abbrev pub rows_for : ℕ → Option Text → Db → List DownloadRow
rows_for user engine db =
    newest_first (select (runs_on engine) (joined db (select (of_user user) db.downloads)))

abbrev pub with_total : ℕ → DownloadRow → ListRow
with_total total r = record { row = r; total_count = total }

unfoldable pub list_downloads : ℕ → Option Text → ℕ → ℕ → Exec Db (List ListRow)
list_downloads user engine limit offset db =
    let all = rows_for user engine db in
    (ok (map (with_total (length all)) (take limit (drop offset all))), db)

-- The live status, from the row.
pub record LiveStatus : Type 0 where
  pub state : Status
  pub progress : ℕ
  pub speed : ℕ
  pub downloaded_size : ℕ
  pub total_size : ℕ
  pub eta : ℕ

pub record DownloadWithStatus : Type 0 where
  pub download : DownloadRow
  pub status : LiveStatus

abbrev pub size_or_zero : Option ℕ → ℕ
size_or_zero none = 0
size_or_zero (some n) = n

abbrev pub with_status : ListRow → DownloadWithStatus
with_status r = record {
  download = r.row;
  status = record {
    state = r.row.job.status;
    progress = r.row.job.progress;
    speed = r.row.job.speed;
    downloaded_size = r.row.job.downloaded_size;
    total_size = size_or_zero r.row.job.size;
    eta = compute_eta (size_or_zero r.row.job.size) r.row.job.downloaded_size r.row.job.speed;
  };
}

abbrev pub total_of : List ListRow → ℕ
total_of [] = 0
total_of (r ∷ rs) = r.total_count

-- The page, and the total that goes with it.
unfoldable pub list_with_status : ℕ → Option Text → ℕ → ℕ → Exec World (List DownloadWithStatus × ℕ)
list_with_status user engine limit offset = do
  rows ← query (list_downloads user engine limit offset)
  pure (map with_status rows, total_of rows)
