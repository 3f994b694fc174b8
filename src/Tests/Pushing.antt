-- ===== src/Tests/Pushing.antt =====
-- The worker's sink, the uploaders and the heartbeat at concrete inputs.
use opendebrid.Prelude.{
  ℕ, ◌≡◌, refl, true, false, none, [], ◌∷◌, ◌++◌, Text, codes, select, ◌==◌, if◌then◌else◌, arith,
}
use opendebrid.Prelude.Exec.{Err, Result, ok, err, unavailable}
use opendebrid.Database.Batches.{JobKey}
use opendebrid.Database.Uploads.{complete_upload}
use opendebrid.Grpc.Statuses.{JobState, completed, active, StatusReport, is_terminal_report}
use opendebrid.Upload.{UploadEnv, controller_upload}
use opendebrid.Upload.Kept.{IsAt, controller_upload-Safe}
use opendebrid.Upload.Retried.{Answered}
use opendebrid.Worker.Heartbeat.{refused_at, run_heartbeat}
use opendebrid.Worker.Heartbeat.Offline.{is_shut_down, run_heartbeat-refused}
use opendebrid.Worker.Sink.{Sink, Push, pushes, handed_over}
use opendebrid.Worker.Sink.Delivery.{accounted, pushes-accounted, pushes-delivers}
use opendebrid.Tests.Data.{key1, world1}

abbrev report_with : JobState → StatusReport
report_with state = record {
  job_id = 1;
  engine_job_id = codes "g";
  status = state;
  progress = 0;
  speed = 0;
  total_size = 5;
  downloaded_size = 5;
  name = codes "f";
  error = [];
}

abbrev sink1 : Sink
sink1 = record { pending = []; acked = []; uploads = 0 }

abbrev failed_push : Push
failed_push = (false, report_with active ∷ report_with completed ∷ [])

pushes-accounted_example :
    accounted (pushes true (failed_push ∷ []) sink1)
    ≡ accounted sink1 ++ handed_over (failed_push ∷ [])
pushes-accounted_example = pushes-accounted true (failed_push ∷ []) sink1 refl (omega arith)

pushes-delivers_example :
    select is_terminal_report (pushes true (failed_push ∷ (true, []) ∷ []) sink1).acked
    ≡ accounted sink1 ++ handed_over (failed_push ∷ (true, []) ∷ [])
pushes-delivers_example = pushes-delivers true (failed_push ∷ []) [] sink1 refl (omega arith)

-- The second attempt succeeds.
abbrev upload1 : UploadEnv
upload1 = record {
  exists = true;
  upload = λ n. if_second n;
  done_before = λ n. false;
  done_in_wait = λ n. false;
  report_lost = true;
}
  where
    if_second : ℕ → Result Text
    if_second n = if n == 1 then ok (codes "rclone://r:k") else err unavailable

abbrev errors1 : Err → Text
errors1 e = codes "e"

abbrev job_key1 : JobKey
job_key1 = record { id = 1; engine = codes "aria2"; storage_key = key1 }

controller_upload-Safe_example :
    (uri : Text) × Answered upload1 4 uri
    × IsAt uri 1 (controller_upload errors1 unavailable upload1 job_key1 world1).1.db
unfolding controller_upload complete_upload
controller_upload-Safe_example =
    controller_upload-Safe errors1 unavailable job_key1 upload1 world1 refl

run_heartbeat-refused_example :
    is_shut_down (run_heartbeat 60 (refused_at 10 ∷ refused_at 40 ∷ refused_at 75 ∷ [])) ≡ true
unfolding run_heartbeat
run_heartbeat-refused_example =
    run_heartbeat-refused 60 [] (record { disconnected_at = none; reconciled = 0 }) 10
      (40 ∷ 75 ∷ []) refl refl
