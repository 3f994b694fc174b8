-- ===== src/Database/Jobs.antt =====
-- The queries on single jobs and on the jobs of a node (internal/database/gen/jobs.sql.go).
use opendebrid.Prelude.{
  ℕ, suc, ◌+◌, Bool, true, false, not, ◌&&◌, Option, none, some, List, ◌∷◌, map, Text, codes,
  eq_text, has_prefix, ◌==◌, ltb, find, any, select, count_where, if◌then◌else◌,
}
use opendebrid.Prelude.Exec.{Result, ok, err, no_rows, unique_violation, foreign_key, Exec}
use opendebrid.Database.Model.{
  Status, queued, completed, failed, inactive, not_uploaded, Job, Download, DownloadLink, Node, Db,
  is_live, is_completed, is_inactive, is_resettable, on_node, update_jobs, one_row, non_empty,
}

pub record CreateJobParams : Type 0 where
  pub node_id : Option Text
  pub engine : Text
  pub engine_job_id : Option Text
  pub url : Text
  pub storage_key : Text
  pub name : Text

abbrev pub new_job : CreateJobParams → Db → Job
new_job p db = record {
  id = db.next_id;
  node_id = p.node_id;
  engine = p.engine;
  engine_job_id = p.engine_job_id;
  url = p.url;
  storage_key = p.storage_key;
  status = queued;
  name = p.name;
  size = none;
  file_location = none;
  upload_status = not_uploaded;
  error_message = none;
  progress = 0;
  speed = 0;
  downloaded_size = 0;
  created_at = db.clock;
  updated_at = db.clock;
  completed_at = none;
}

-- node_id REFERENCES nodes(id)
abbrev pub node_exists : Option Text → List Node → Bool
node_exists none nodes = true
node_exists (some id) nodes = any (λ n. eq_text n.id id) nodes

abbrev pub has_key : Text → Job → Bool
has_key key j = eq_text j.storage_key key

abbrev pub has_id : ℕ → Job → Bool
has_id id j = j.id == id

unfoldable pub create_job : CreateJobParams → Exec Db Job
create_job p db =
    if any (has_key p.storage_key) db.jobs
    then (err unique_violation, db)
    else if node_exists p.node_id db.nodes
    then (ok (new_job p db), record db { jobs = new_job p db ∷ db.jobs; next_id = suc db.next_id })
    else (err foreign_key, db)

unfoldable pub get_job : ℕ → Exec Db Job
get_job id db = (one_row (find (has_id id) db.jobs), db)

unfoldable pub get_job_by_storage_key : Text → Exec Db Job
get_job_by_storage_key key db = (one_row (find (has_key key) db.jobs), db)

-- The row of an UPDATE ... WHERE id = $1 RETURNING *.
abbrev pub returning : ℕ → Db → Result Job × Db
returning id db = (one_row (find (has_id id) db.jobs), db)

unfoldable pub update_job_status : ℕ → Status → Text → Text → Text → Exec Db Job
update_job_status id status engine_job_id error_msg location db = returning id (
    update_jobs (has_id id)
      (λ j. record j {
        status = status;
        engine_job_id = non_empty engine_job_id j.engine_job_id;
        error_message = non_empty error_msg j.error_message;
        file_location = non_empty location j.file_location;
      })
      db)

unfoldable pub fail_job : ℕ → Option Text → Exec Db Unit
fail_job id message db = (
  ok tt,
  update_jobs (has_id id)
      (λ j. record j { status = failed; error_message = message; file_location = none }) db,
)

abbrev reset : Text → Text → Job → Job
reset node url j = record j {
  status = queued;
  node_id = some node;
  url = url;
  engine_job_id = none;
  error_message = none;
  file_location = none;
  progress = 0;
  speed = 0;
  downloaded_size = 0;
  completed_at = none;
}

abbrev pub can_reset : ℕ → Job → Bool
can_reset id j = (j.id == id) && is_resettable j.status

unfoldable pub reset_job : ℕ → Text → Text → Exec Db Job
reset_job id node url db =
    if any (can_reset id) db.jobs
    then (if any (λ n. eq_text n.id node) db.nodes
        then returning id (update_jobs (can_reset id) (reset node url) db)
        else (err foreign_key, db))
    else (err no_rows, db)

-- ON DELETE CASCADE: the downloads of the job go, and the links of those downloads.
abbrev pub of_job : ℕ → Download → Bool
of_job id d = d.job_id == id

abbrev pub link_of : List Download → DownloadLink → Bool
link_of ds l = any (λ d. d.id == l.download_id) ds

unfoldable pub delete_job : ℕ → Exec Db Unit
delete_job id db =
    let gone = select (of_job id) db.downloads in
    (
      ok tt,
      record db {
        jobs = select (λ j. not (has_id id j)) db.jobs;
        downloads = select (λ d. not (of_job id d)) db.downloads;
        links = select (λ l. not (link_of gone l)) db.links;
      },
    )

-- INTERVAL '5 minutes'; the order by created_at does not matter to the caller.
abbrev pub is_stale : ℕ → Job → Bool
is_stale clock j = is_live j.status && ltb (j.updated_at + 300) clock

unfoldable pub list_stale_active_jobs : Exec Db (List Job)
list_stale_active_jobs db = (ok (select (is_stale db.clock) db.jobs), db)

-- status IN ('queued', 'active', 'completed', 'inactive')
abbrev pub keeps_files : Status → Bool
keeps_files failed = false
keeps_files _ = true

unfoldable pub list_storage_keys_by_node : Text → Exec Db (List Text)
list_storage_keys_by_node node db = (
  ok (
      map (λ (j : Job). j.storage_key)
        (select (λ j. on_node node j && keeps_files j.status) db.jobs)),
  db,
)

abbrev pub live_on : Text → Job → Bool
live_on node j = on_node node j && is_live j.status

unfoldable pub mark_node_active_jobs_failed : Text → Exec Db Unit
mark_node_active_jobs_failed node db = (
  ok tt,
  update_jobs (live_on node)
      (λ j. record j { status = failed; error_message = some (codes "node went offline") }) db,
)

unfoldable pub fail_node_jobs_for_deletion : Text → Exec Db Unit
fail_node_jobs_for_deletion node db = (
  ok tt,
  update_jobs (on_node node)
      (λ j. record j {
        status = failed;
        error_message = some (codes "node deleted by admin");
        node_id = none;
      })
      db,
)

-- file_location LIKE 'file://%'
abbrev pub is_local : Option Text → Bool
is_local none = false
is_local (some uri) = has_prefix uri (codes "file://")

abbrev pub completed_local_on : Text → Job → Bool
completed_local_on node j = on_node node j && (is_completed j.status && is_local j.file_location)

unfoldable pub mark_node_completed_jobs_inactive : Text → Exec Db Unit
mark_node_completed_jobs_inactive node db =
    (ok tt, update_jobs (completed_local_on node) (λ j. record j { status = inactive }) db)

abbrev pub inactive_on : Text → Job → Bool
inactive_on node j = on_node node j && is_inactive j.status

unfoldable pub restore_node_inactive_jobs : Text → Exec Db Unit
restore_node_inactive_jobs node db =
    (ok tt, update_jobs (inactive_on node) (λ j. record j { status = completed }) db)

abbrev pub on_disk : List Text → Job → Bool
on_disk keys j = any (eq_text j.storage_key) keys

abbrev pub inactive_on_disk : Text → List Text → Job → Bool
inactive_on_disk node keys j = inactive_on node j && on_disk keys j

unfoldable pub restore_node_inactive_jobs_with_keys : Text → List Text → Exec Db ℕ
restore_node_inactive_jobs_with_keys node keys db = (
  ok (count_where (inactive_on_disk node keys) db.jobs),
  update_jobs (inactive_on_disk node keys) (λ j. record j { status = completed }) db,
)

unfoldable pub fail_node_inactive_jobs_missing_keys : Text → Exec Db ℕ
fail_node_inactive_jobs_missing_keys node db = (
  ok (count_where (inactive_on node) db.jobs),
  update_jobs (inactive_on node)
      (λ j. record j {
        status = failed;
        error_message = some (codes "files not found on node after restart");
        file_location = none;
      })
      db,
)

-- node_id IN (SELECT id FROM nodes WHERE is_online = true)
abbrev pub on_online_node : List Node → Job → Bool
on_online_node nodes j = any (λ n. n.is_online && on_node n.id j) nodes

unfoldable pub restore_stale_inactive_jobs : Exec Db Unit
restore_stale_inactive_jobs db = (
  ok tt,
  update_jobs
      (λ j.
        is_inactive j.status && (on_online_node db.nodes j && ltb (j.updated_at + 120) db.clock))
      (λ j. record j { status = completed }) db,
)
