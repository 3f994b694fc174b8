-- ===== src/Tests/Lifecycles.antt =====
-- The life of a job, the listing and the yt-dlp engine at concrete inputs.
use opendebrid.Prelude.{
  ◌≡◌, refl, false, none, some, List, [], ◌∷◌, codes, eq_text, has_prefix, inl,
}
use opendebrid.Database.Batches.{Progress}
use opendebrid.Database.Jobs.{CreateJobParams}
use opendebrid.Database.Lifecycle.{
  Write, write, create, accept, report_completed, node_asleep, time_passes, mark_stale,
}
use opendebrid.Database.Lifecycle.History.{WasCompleted, writes-WasCompleted}
use opendebrid.Database.Model.{inactive, not_uploaded, on_node, Job, Db}
use opendebrid.Engine.Aria2.{status_in}
use opendebrid.Engine.Aria2.Answered.{asked}
use opendebrid.Engine.Ytdlp.{JobMap, new_entry, entry_in, batch_status}
use opendebrid.Engine.Ytdlp.Once.{answered, left, batch_status-Once}
use opendebrid.Tests.Data.{n1, key1, db1}
use opendebrid.Tests.Downloads.{node1}

abbrev db2 : Db
db2 = record db1 { jobs = []; downloads = []; links = []; nodes = node1 ∷ [] }

abbrev params1 : CreateJobParams
params1 = record {
  node_id = some n1;
  engine = codes "aria2";
  engine_job_id = none;
  url = codes "u";
  storage_key = key1;
  name = codes "f";
}

abbrev progress1 : Progress
progress1 = record {
  id = 30;
  progress = 1;
  speed = 1;
  downloaded_size = 5;
  name = codes "f";
  size = 5;
  engine_job_id = codes "g";
}

-- Created, accepted, completed, and put to sleep when its node is stale.
abbrev life1 : List Write
life1 =
    create params1
    ∷ accept 30 (codes "g") (codes "file://aria2/k")
    ∷ report_completed false (progress1 ∷ [])
    ∷ time_passes 100
    ∷ mark_stale 90 false
    ∷ node_asleep n1
    ∷ []

abbrev slept1 : Job
slept1 = record {
  id = 30;
  node_id = some n1;
  engine = codes "aria2";
  engine_job_id = some (codes "g");
  url = codes "u";
  storage_key = key1;
  status = inactive;
  name = codes "f";
  size = some 5;
  file_location = some (codes "file://aria2/k");
  upload_status = not_uploaded;
  error_message = none;
  progress = 100000000;
  speed = 0;
  downloaded_size = 5;
  created_at = 50;
  updated_at = 150;
  completed_at = some 50;
}

writes-WasCompleted_example : WasCompleted life1 db2 slept1
unfolding write eq_text on_node has_prefix
writes-WasCompleted_example = writes-WasCompleted life1 db2 slept1 refl (inl refl) refl

abbrev ytdlp1 : JobMap
ytdlp1 = (key1, new_entry (codes "u")) ∷ []

batch_status-Once_example :
    (status_in (batch_status (key1 ∷ []) ytdlp1).0 key1
      ≡ answered (asked key1 (key1 ∷ [])) key1 (entry_in ytdlp1 key1) none)
    × (entry_in (batch_status (key1 ∷ []) ytdlp1).1 key1
        ≡ left (asked key1 (key1 ∷ [])) (entry_in ytdlp1 key1))
batch_status-Once_example = batch_status-Once key1 (key1 ∷ []) ytdlp1
