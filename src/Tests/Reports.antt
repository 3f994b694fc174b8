-- ===== src/Tests/Reports.antt =====
-- Status and upload reports at a concrete database.
use opendebrid.Prelude.{
  ℕ, ◌≡◌, refl, true, none, some, List, [], ◌∷◌, map, Text, codes, find, select, In, inl,
}
use opendebrid.Database.Model.{uploaded}
use opendebrid.Database.Jobs.{has_id}
use opendebrid.Database.Batches.{apply_failure}
use opendebrid.Grpc.Handlers.{report_upload}
use opendebrid.Grpc.Handlers.Uploaded.{report_upload_lem}
use opendebrid.Grpc.Statuses.{
  JobState, StatusReport, is_failed_report, failure_row, batch_handle_terminal, push_job_statuses,
}
use opendebrid.Grpc.Statuses.Told.{told_by}
use opendebrid.Grpc.Statuses.Push.{jobs-push_job_statuses, batch_handle_terminal_lost}
use opendebrid.Storage.Uri.{build_remote_file_uri}
use opendebrid.World.{calm}
use opendebrid.Tests.Data.{n1, job1, link1, world1}

abbrev report : ℕ → JobState → ℕ → StatusReport
report id state size = record {
  job_id = id;
  engine_job_id = codes "g";
  status = state;
  progress = 500000;
  speed = 9;
  total_size = size;
  downloaded_size = 4;
  name = [];
  error = codes "lost";
}

abbrev reports1 : List StatusReport
reports1 = report 2 JobState.completed 8 ∷ report 1 JobState.failed 0 ∷ []

jobs-push_job_statuses_example :
    (push_job_statuses true n1 reports1 (calm world1)).1.db.jobs
    ≡ map (told_by world1.db.clock true reports1) world1.db.jobs
jobs-push_job_statuses_example =
    jobs-push_job_statuses true n1 reports1 world1 ((refl, tt), (tt, tt)) (refl, (refl, tt))

abbrev reports2 : List StatusReport
reports2 = report 2 JobState.completed 0 ∷ []

batch_handle_terminal_lost_example :
    (batch_handle_terminal true n1 reports2 (calm world1)).1.db.jobs
    ≡ map
        (apply_failure world1.db.clock (map failure_row (select is_failed_report reports2)))
        world1.db.jobs
batch_handle_terminal_lost_example = batch_handle_terminal_lost true n1 reports2 world1 refl

abbrev remote1 : Text
remote1 = codes "rclone://r:b/0123456789abcdef0123456789abcdef"

report_upload_lem_example :
    (let w' = (report_upload 1 remote1 [] (calm world1)).1 in
      (find (has_id 1) w'.db.jobs
        ≡ some (record job1 {
          file_location = some remote1;
          upload_status = uploaded;
          node_id = none;
          updated_at = world1.db.clock;
        }))
      × In (record link1 { storage_uri = build_remote_file_uri remote1 (codes "f") }) w'.db.links)
report_upload_lem_example =
    report_upload_lem 1 remote1 job1 link1 b'f' [] world1 refl refl (inl refl) refl refl
