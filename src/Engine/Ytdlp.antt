-- ===== src/Engine/Ytdlp.antt =====
-- The yt-dlp engine's table of jobs (internal/core/engine/ytdlp/engine.go, types.go): a map from storage keys
-- to the states of running downloads. A download runs beside the calls: what it writes to its state is a
-- change of the entry between two of them. Directories and processes are left out.
pub mod Once
pub mod Runner
use opendebrid.Prelude.{
  Bool, true, false, not, Option, none, some, List, [], ◌∷◌, Text, eq_text, ℕ, if◌then◌else◌,
}
use opendebrid.Prelude.Exec.{Err, Result, ok, err, file_not_found, Exec}
use opendebrid.Engine.Aria2.{StatusMap}
use opendebrid.Grpc.Statuses.{JobState, queued, failed}
use opendebrid.Node.Poll.{JobStatus, is_terminal}
use opendebrid.World.{DispatchRequest}

-- `cancelled` says that the context of the download is done.
pub record JobEntry : Type 0 where
  pub url : Text
  pub name : Text
  pub status : JobState
  pub progress : ℕ
  pub speed : ℕ
  pub downloaded : ℕ
  pub total_size : ℕ
  pub error : Text
  pub cancelled : Bool

abbrev pub JobMap : Type 0
JobMap = List (Text × JobEntry)

abbrev pub entry_in : JobMap → Text → Option JobEntry
entry_in [] key = none
entry_in (e ∷ m) key = if eq_text e.0 key then some e.1 else entry_in m key

abbrev pub without : Text → JobMap → JobMap
without key [] = []
without key (e ∷ m) = if eq_text e.0 key then without key m else e ∷ without key m

abbrev pub new_entry : Text → JobEntry
new_entry url = record {
  url = url;
  name = [];
  status = queued;
  progress = 0;
  speed = 0;
  downloaded = 0;
  total_size = 0;
  error = [];
  cancelled = false;
}

-- The engine's job id, and whether a download is started.
abbrev pub add_new : Text → Text → Option JobEntry → JobMap → (Text × Bool) × JobMap
add_new key url (some existing) m = ((key, false), m)
add_new key url none m = ((key, true), (key, new_entry url) ∷ m)

unfoldable pub add : DispatchRequest → JobMap → (Text × Bool) × JobMap
add req m = add_new req.storage_key req.url (entry_in m req.storage_key) m

abbrev pub snapshot : Text → JobEntry → JobStatus
snapshot id e = record {
  engine_job_id = id;
  name = e.name;
  state = e.status;
  progress = e.progress;
  speed = e.speed;
  total_size = e.total_size;
  downloaded_size = e.downloaded;
  error = e.error;
}

abbrev pub set_status : Text → Option JobEntry → StatusMap → StatusMap
set_status id none r = r
set_status id (some e) r = (id, snapshot id e) ∷ r

-- What has ended is dropped once its status is taken.
abbrev pub drop_ended : Text → Option JobEntry → JobMap → JobMap
drop_ended id none m = m
drop_ended id (some e) m = if is_terminal e.status then without id m else m

abbrev pub statuses_from : List Text → JobMap → StatusMap → StatusMap × JobMap
statuses_from [] m r = (r, m)
statuses_from (id ∷ ids) m r =
    statuses_from ids (drop_ended id (entry_in m id) m) (set_status id (entry_in m id) r)

unfoldable pub batch_status : List Text → JobMap → StatusMap × JobMap
batch_status ids m = statuses_from ids m []

abbrev pub fail_entry : Text → JobMap → JobMap
fail_entry key [] = []
fail_entry key (e ∷ m) =
    if eq_text e.0 key
    then (e.0, record (e.1) { status = failed; cancelled = true }) ∷ m
    else e ∷ fail_entry key m

abbrev pub cancel_entry : Text → Option JobEntry → Exec JobMap Unit
cancel_entry key none m = (err file_not_found, m)
cancel_entry key (some e) m = (ok tt, fail_entry key m)

unfoldable pub cancel : Text → Exec JobMap Unit
cancel key m = cancel_entry key (entry_in m key) m

unfoldable pub remove : Text → Exec JobMap Unit
remove key m = (ok tt, without key m)
