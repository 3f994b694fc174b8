-- ===== src/Database/Downloads.antt =====
-- The queries on downloads and users (internal/database/gen/downloads.sql.go, users.sql.go).
use opendebrid.Prelude.{
  ℕ, suc, Bool, not, ◌&&◌, Option, none, some, List, [], ◌∷◌, ◌==◌, find, any, select, count_where,
  update_where, if◌then◌else◌,
}
use opendebrid.Prelude.Exec.{ok, err, unique_violation, foreign_key, Exec}
use opendebrid.Database.Model.{Job, Download, Db, one_row}
use opendebrid.Database.Jobs.{has_id, of_job, link_of}

abbrev pub of_user : ℕ → Download → Bool
of_user user d = d.user_id == user

abbrev pub of_user_job : ℕ → ℕ → Download → Bool
of_user_job user job d = of_user user d && of_job job d

abbrev pub is_download : ℕ → Download → Bool
is_download id d = d.id == id

abbrev pub new_download : ℕ → ℕ → Db → Download
new_download user job db = record {
  id = db.next_id;
  user_id = user;
  job_id = job;
  created_at = db.clock;
}

-- UNIQUE (user_id, job_id), and the references to users and jobs.
unfoldable pub create_download : ℕ → ℕ → Exec Db Download
create_download user job db =
    if any (of_user_job user job) db.downloads
    then (err unique_violation, db)
    else if any (λ u. u == user) db.users && any (has_id job) db.jobs
    then (
      ok (new_download user job db),
      record db { downloads = new_download user job db ∷ db.downloads; next_id = suc db.next_id },
    )
    else (err foreign_key, db)

unfoldable pub find_download_by_user_and_job_id : ℕ → ℕ → Exec Db Download
find_download_by_user_and_job_id user job db =
    (one_row (find (of_user_job user job) db.downloads), db)

unfoldable pub touch_download : ℕ → Exec Db Unit
touch_download id db = (
  ok tt,
  record db {
    downloads =
        update_where (is_download id) (λ d. record d { created_at = db.clock }) db.downloads;
  },
)

-- The links of the download go with it.
unfoldable pub delete_download : ℕ → Exec Db Unit
delete_download id db = (
  ok tt,
  record db {
    downloads = select (λ d. not (is_download id d)) db.downloads;
    links = select (λ l. not (l.download_id == id)) db.links;
  },
)

-- downloads d JOIN jobs j ON j.id = d.job_id
pub record DownloadRow : Type 0 where
  pub download : Download
  pub job : Job

pub record CountRow : Type 0 where
  pub download : Download
  pub job : Job
  pub download_count : ℕ

abbrev pub owned : ℕ → ℕ → Download → Bool
owned id user d = is_download id d && of_user user d

abbrev pub join : Db → Option Download → Option DownloadRow
join db none = none
join db (some d) = elim (find (has_id d.job_id) db.jobs) [
  | none ↦ none
  | some j ↦ some (record { download = d; job = j })
]

unfoldable pub get_download_with_job_by_user : ℕ → ℕ → Exec Db DownloadRow
get_download_with_job_by_user id user db =
    (one_row (join db (find (owned id user) db.downloads)), db)

abbrev pub counted : Db → Option DownloadRow → Option CountRow
counted db none = none
counted db (some r) = some (record {
  download = r.download;
  job = r.job;
  download_count = count_where (of_job r.download.job_id) db.downloads;
})

unfoldable pub get_download_with_job_and_count : ℕ → ℕ → Exec Db CountRow
get_download_with_job_and_count id user db =
    (one_row (counted db (join db (find (owned id user) db.downloads))), db)

abbrev rows_of : Db → List Download → List CountRow
rows_of db [] = []
rows_of db (d ∷ ds) =
    let rest = rows_of db ds in
    elim (counted db (join db (some d))) [ none ↦ rest | some r ↦ r ∷ rest ]

unfoldable pub list_user_jobs_with_download_counts : ℕ → Exec Db (List CountRow)
list_user_jobs_with_download_counts user db =
    (ok (rows_of db (select (of_user user) db.downloads)), db)

-- ON DELETE CASCADE: the user's downloads and links go, and the links of those downloads.
unfoldable pub delete_user : ℕ → Exec Db Unit
delete_user user db =
    let gone = select (of_user user) db.downloads in
    (
      ok tt,
      record db {
        users = select (λ u. not (u == user)) db.users;
        downloads = select (λ d. not (of_user user d)) db.downloads;
        links = select (λ l. not (l.user_id == user) && not (link_of gone l)) db.links;
      },
    )
