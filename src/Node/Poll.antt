-- ===== src/Node/Poll.antt =====
-- `poll` (internal/core/statusloop/statusloop.go). What an engine answers is a parameter: `none` where it
-- is not known or fails, and the statuses by engine job id else.
pub mod Reported
pub mod Everyone
use opendebrid.Prelude.{
  ℕ, Bool, true, false, not, ◌&&◌, Option, none, some, List, [], ◌∷◌, ◌++◌, map, Text, eq_text,
  is_empty, if◌then◌else◌,
}
use opendebrid.Grpc.Statuses.{JobState, completed, failed, StatusReport}
use opendebrid.Node.Tracker.{TrackedJob, Tracker, remove, update_engine_job_id}

-- internal/core/engine/engine.go: the fields that a report takes.
pub record JobStatus : Type 0 where
  pub engine_job_id : Text
  pub name : Text
  pub state : JobState
  pub progress : ℕ
  pub speed : ℕ
  pub total_size : ℕ
  pub downloaded_size : ℕ
  pub error : Text

pub record EngineGroup : Type 0 where
  pub engine : Text
  pub jobs : List TrackedJob

abbrev pub add_to : TrackedJob → List EngineGroup → List EngineGroup
add_to j [] = record { engine = j.engine; jobs = j ∷ [] } ∷ []
add_to j (g ∷ gs) =
    if eq_text g.engine j.engine then record g { jobs = g.jobs ++ j ∷ [] } ∷ gs else g ∷ add_to j gs

abbrev pub group : List TrackedJob → List EngineGroup → List EngineGroup
group [] gs = gs
group (j ∷ js) gs = group js (add_to j gs)

abbrev pub report_of : ℕ → JobStatus → StatusReport
report_of id s = record {
  job_id = id;
  engine_job_id = s.engine_job_id;
  status = s.state;
  progress = s.progress;
  speed = s.speed;
  total_size = s.total_size;
  downloaded_size = s.downloaded_size;
  name = s.name;
  error = s.error;
}

abbrev pub is_terminal : JobState → Bool
is_terminal completed = true
is_terminal failed = true
is_terminal _ = false

abbrev pub renamed : TrackedJob → JobStatus → Tracker → Tracker
renamed j s t =
    if not (is_empty s.engine_job_id) && not (eq_text s.engine_job_id j.engine_job_id)
    then update_engine_job_id j.job_id s.engine_job_id t
    else t

abbrev pub ended : TrackedJob → JobStatus → Tracker → Tracker
ended j s t = if is_terminal s.state then remove j.job_id t else t

-- The answer of an engine, by engine job id.
abbrev pub Statuses : Type 0
Statuses = Text → Option JobStatus

abbrev pub poll_job : Option JobStatus → TrackedJob → Tracker → List StatusReport × Tracker
poll_job none j t = ([], t)
poll_job (some s) j t = (report_of j.job_id s ∷ [], ended j s (renamed j s t))

abbrev pub poll_jobs : Statuses → List TrackedJob → Tracker → List StatusReport × Tracker
poll_jobs statuses [] t = ([], t)
poll_jobs statuses (j ∷ js) t =
    let (rs, t') = poll_job (statuses j.engine_job_id) j t in
    let (rs', t'') = poll_jobs statuses js t' in (rs ++ rs', t'')

abbrev pub poll_answer : Option Statuses → List TrackedJob → Tracker → List StatusReport × Tracker
poll_answer none js t = ([], t)
poll_answer (some statuses) js t = poll_jobs statuses js t

module _ (batch_status : Text → List Text → Option Statuses) where
  abbrev pub poll_group : EngineGroup → Tracker → List StatusReport × Tracker
  poll_group g t =
      poll_answer (batch_status g.engine (map (λ (j : TrackedJob). j.engine_job_id) g.jobs)) g.jobs
        t

  abbrev pub poll_groups : List EngineGroup → Tracker → List StatusReport × Tracker
  poll_groups [] t = ([], t)
  poll_groups (g ∷ gs) t =
      let (rs, t') = poll_group g t in let (rs', t'') = poll_groups gs t' in (rs ++ rs', t'')

  unfoldable pub poll : List TrackedJob → Tracker → List StatusReport × Tracker
  poll jobs t = poll_groups (group jobs []) t
