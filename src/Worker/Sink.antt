-- ===== src/Worker/Sink.antt =====
-- `grpcSink.PushStatuses` (internal/worker/server.go): the buffer of reports that wait for the controller.
pub mod Delivery
use opendebrid.Prelude.{
  ℕ, suc, ◌-◌, ◌≤◌, ◌≡◌, Bool, true, false, not, ◌&&◌, Option, List, [], ◌∷◌, ◌++◌, any, select,
  length, drop, if◌then◌else◌,
}
use opendebrid.Prelude.Exec.{Result, ok, err, unavailable, Exec}
use opendebrid.Grpc.Statuses.{StatusReport, is_terminal_report, is_completed_report, is_nil}

-- `acked` are the reports of the pushes that the controller has answered, `uploads` counts the calls of
-- `UploadPending`.
pub record Sink : Type 0 where
  pub pending : List StatusReport
  pub acked : List StatusReport
  pub uploads : ℕ

abbrev pub max_pending_terminal : ℕ
max_pending_terminal = 1000

-- `terminal[len(terminal)-maxPendingTerminal:]` where there are more.
abbrev pub keep_newest : List StatusReport → List StatusReport
keep_newest rs = drop (length rs - max_pending_terminal) rs

abbrev pub is_progress_report : StatusReport → Bool
is_progress_report r = not (is_terminal_report r)

abbrev pub to_retry : Sink → List StatusReport → List StatusReport
to_retry s reports = s.pending ++ select is_terminal_report reports

-- `answered` says whether the call returns without an error.
unfoldable pub push_statuses : Bool → Bool → List StatusReport → Exec Sink Unit
push_statuses has_uploader answered reports s =
    let terminal = to_retry s reports in
    let all = terminal ++ select is_progress_report reports in
    let starts = any is_completed_report terminal && has_uploader in
    if is_nil all
    then (ok tt, s)
    else if answered
    then (
      ok tt,
      record s {
        pending = [];
        acked = s.acked ++ all;
        uploads = if starts then suc s.uploads else s.uploads;
      },
    )
    else (err unavailable, record s { pending = keep_newest terminal })

-- A push, and whether it is answered.
abbrev pub Push : Type 0
Push = Bool × List StatusReport

abbrev pub pushes : Bool → List Push → Sink → Sink
unfolding push_statuses
pushes has_uploader [] s = s
pushes has_uploader (p ∷ ps) s = pushes has_uploader ps (push_statuses has_uploader p.0 p.1 s).1

-- The terminal reports that the pushes hand over.
abbrev pub handed_over : List Push → List StatusReport
handed_over [] = []
handed_over (p ∷ ps) = select is_terminal_report p.1 ++ handed_over ps
