-- ===== src/Tests/Polling.antt =====
-- The status loop, the aria2 engine and the node server at concrete inputs.
use opendebrid.Prelude.{
  ℕ, ◌≡◌, refl, true, not, ◌&&◌, Option, none, List, [], ◌∷◌, Text, codes, eq_text, any,
}
use opendebrid.Prelude.Exec.{Err, ok, err, unavailable}
use opendebrid.Engine.Aria2.{StatusResponse, Daemon}
use opendebrid.Grpc.Statuses.Settled.{reports_on}
use opendebrid.Node.Poll.{Statuses, poll}
use opendebrid.Node.Poll.Everyone.{with_aria2, poll-batch_status}
use opendebrid.Node.Poll.Reported.{ends, tracked-poll}
use opendebrid.Node.Tracker.{TrackedJob, Tracker, tracked}

-- A torrent that is being seeded, and a daemon that knows nothing else.
abbrev seeding1 : StatusResponse
seeding1 = record {
  gid = codes "g1";
  status = codes "active";
  total_length = codes "10";
  completed_length = codes "10";
  download_speed = codes "0";
  error_message = [];
  seeder = codes "true";
  bt_name = codes "t";
  files = [];
  followed_by = [];
  following = [];
}

abbrev daemon1 : Daemon
daemon1 = record {
  tell_active = ok (seeding1 ∷ []);
  tell_status = λ calls id. err unavailable;
  ratio = λ n d. 1;
}

abbrev tracked_with : ℕ → Text → TrackedJob
tracked_with id gid = record { job_id = id; engine = codes "aria2"; engine_job_id = gid }

abbrev tracker1 : Tracker
tracker1 = tracked_with 1 (codes "g1") ∷ tracked_with 2 (codes "g2") ∷ []

abbrev no_others : Text → List Text → Option Statuses
no_others engine ids = none

-- The daemon has lost the job 2.
poll-batch_status_example :
    any (reports_on 2) (poll (with_aria2 daemon1 no_others) tracker1 tracker1).0 ≡ true
unfolding eq_text
poll-batch_status_example = poll-batch_status daemon1 no_others 2 tracker1 tracker1 refl refl

tracked-poll_example : tracked 2 (poll (with_aria2 daemon1 no_others) tracker1 tracker1).1 ≡ (
    tracked 2 tracker1
    && not (any (ends 2) (poll (with_aria2 daemon1 no_others) tracker1 tracker1).0))
tracked-poll_example = tracked-poll (with_aria2 daemon1 no_others) 2 tracker1 tracker1

abbrev errors1 : Err → Text
errors1 e = codes "e"
