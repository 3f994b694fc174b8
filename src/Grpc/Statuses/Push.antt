-- ===== src/Grpc/Statuses/Push.antt =====
-- What a push of reports leaves in the database, and which files it removes.
use opendebrid.Prelude.{
  ℕ, ◌≡◌, refl, sym, ap, ◌∙◌, Bool, true, false, not, List, [], ◌∷◌, map, Text, eq_text, All, any,
  select, arith, Bool-cases, inl, inr,
}
use opendebrid.Prelude.Exec.{Result, ok, Exec, attempt, ◌>>=◌}
use opendebrid.Database.Model.{Job, Db}
use opendebrid.Database.Batches.{
  JobKey, apply_progress, apply_complete, apply_failure, lacks_size, batch_update_job_progress,
  batch_complete_jobs, batch_fail_jobs,
}
use opendebrid.Database.NodeStatus.{logged}
use opendebrid.Grpc.Statuses.{
  StatusReport, is_completed_report, is_failed_report, is_terminal_report, progress_row,
  failure_row, remove_files, clean_failed, batch_handle_terminal, push_job_statuses, is_nil, when,
  batch_update_progress, rows_or_nil, failed_ref,
}
use opendebrid.Grpc.Statuses.Settled.{
  OnePerJob, settled_by, is_sized, with_jobs, map_id_of, map-map_of, select-select,
  completed-terminal, failed-terminal, lacks_size-false, any-false, batches-settled,
}
use opendebrid.Grpc.Statuses.Told.{told_by, settled_by-told_by}
use opendebrid.World.{World, JobRef, calm, query}

db-remove_files : (node : Text) (rs : List JobRef) (w : World) → (remove_files node rs w).db ≡ w.db
unfolding remove_files
db-remove_files node [] w = refl
db-remove_files node (r ∷ rs) w = db-remove_files node rs _

stage_progress :
    (rs : List StatusReport) (w : World)
    → when (not (is_nil rs)) (batch_update_progress rs) (calm w) ≡ (
      ok tt,
      calm (with_jobs w (map (apply_progress w.db.clock (map progress_row rs)) w.db.jobs)),
    )
unfolding batch_update_job_progress
stage_progress [] w =
    ap (λ js. (ok tt, calm (with_jobs w js))) (sym (map_id_of _ w.db.jobs (λ j. refl)))
stage_progress (r ∷ rs) w = refl

abbrev complete_stage : Bool → List StatusReport → Exec World Unit
complete_stage up rs =
    when (not (is_nil rs)) (logged (query (batch_complete_jobs up (map progress_row rs))))

stage_complete :
    (up : Bool) (rs : List StatusReport) (w : World)
    → any (lacks_size (map progress_row rs)) w.db.jobs ≡ false
    → complete_stage up rs (calm w) ≡ (
      ok tt,
      calm (with_jobs w (map (apply_complete w.db.clock up (map progress_row rs)) w.db.jobs)),
    )
unfolding batch_complete_jobs
stage_complete up [] w h =
    ap (λ js. (ok tt, calm (with_jobs w js))) (sym (map_id_of _ w.db.jobs (λ j. refl)))
stage_complete up (r ∷ rs) w h = rw h

-- The statement fails as a whole, and the failure is only logged.
stage_complete_lost :
    (up : Bool) (rs : List StatusReport) (w : World)
    → any (lacks_size (map progress_row rs)) w.db.jobs ≡ true
    → complete_stage up rs (calm w) ≡ (ok tt, calm w)
unfolding batch_complete_jobs
stage_complete_lost up [] w h = refl
stage_complete_lost up (r ∷ rs) w h = rw h

abbrev fail_stage : Text → List StatusReport → Exec World Unit
fail_stage node rs =
    when (not (is_nil rs))
      (do rows ← attempt (query (batch_fail_jobs (map failure_row rs))); clean_failed node rs rows)

db-clean_failed :
    (node : Text) (rs : List StatusReport) (rows : Result (List JobKey)) (w : World)
    → (clean_failed node rs rows w).1.db ≡ w.db
db-clean_failed node rs rows w = elim (Bool-cases (any (eq_text node) w.clients)) [
  | inl e ↦ rw e (db-remove_files node (map (failed_ref rs) (rows_or_nil rows)) w)
  | inr e ↦ rw e
]

stage_fail :
    (node : Text) (rs : List StatusReport) (w : World)
    → (fail_stage node rs (calm w)).1.db.jobs
      ≡ map (apply_failure w.db.clock (map failure_row rs)) w.db.jobs
unfolding batch_fail_jobs
stage_fail node [] w = sym (map_id_of _ w.db.jobs (λ j. refl))
stage_fail node (r ∷ rs) w = ap (λ (d : Db). d.jobs) (db-clean_failed node (r ∷ rs) (ok _) _)

-- Completed and failed reports are among the terminal ones.
completed_part :
    (rs : List StatusReport)
    → select is_completed_report (select is_terminal_report rs) ≡ select is_completed_report rs
completed_part rs = select-select is_completed_report is_terminal_report rs completed-terminal

failed_part :
    (rs : List StatusReport)
    → select is_failed_report (select is_terminal_report rs) ≡ select is_failed_report rs
failed_part rs = select-select is_failed_report is_terminal_report rs failed-terminal

-- A push without reports of an end skips a handler that would do nothing.
when-terminal :
    (up : Bool) (node : Text) (rs : List StatusReport) (w : World)
    → when (not (is_nil rs)) (batch_handle_terminal up node rs) w
      ≡ batch_handle_terminal up node rs w
unfolding batch_handle_terminal
when-terminal up node [] w = refl
when-terminal up node (r ∷ rs) w = refl

jobs-batch_handle_terminal :
    (up : Bool) (node : Text) (rs : List StatusReport) (w : World)
    → any (lacks_size (map progress_row (select is_completed_report rs))) w.db.jobs ≡ false
    → (batch_handle_terminal up node rs (calm w)).1.db.jobs
      ≡ map (apply_failure w.db.clock (map failure_row (select is_failed_report rs))) (
          map
            (apply_complete w.db.clock up (map progress_row (select is_completed_report rs)))
            w.db.jobs)
unfolding batch_handle_terminal
jobs-batch_handle_terminal up node rs w h =
    rw (stage_complete up (select is_completed_report rs) w h) (
      stage_fail node (select is_failed_report rs) (
        with_jobs w (
          map (apply_complete w.db.clock up (map progress_row (select is_completed_report rs)))
            w.db.jobs)))

map_same : (f g : Job → Job) (js : List Job) → ((j : Job) → f j ≡ g j) → map f js ≡ map g js
map_same f g [] h = refl
map_same f g (j ∷ js) h = ground (arith, map_same f g js h, h j)

three_batches :
    (clock : ℕ) (up : Bool) (rs : List StatusReport) (js : List Job)
    → OnePerJob rs
    → map (apply_failure clock (map failure_row (select is_failed_report rs))) (
        map (apply_complete clock up (map progress_row (select is_completed_report rs))) (
          map
            (apply_progress clock (map progress_row (select (λ r. not (is_terminal_report r)) rs)))
            js))
      ≡ map (settled_by clock up rs) js
three_batches clock up rs js one =
    ap (map (apply_failure clock (map failure_row (select is_failed_report rs))))
      (map-map_of _ _ _ js (λ j. refl))
    ∙ map-map_of _ _ _ js (batches-settled clock up rs one)

-- A push of reports of distinct jobs, each completed one with its size, writes to each job what its own
-- report tells and to no other: of a completion all of the size, progress 100 and, where an upload is to
-- follow, that it waits; of a failure the error and no location; of any other the progress, the speed, what
-- is downloaded, and the name, the size and the engine's id where they are given.
pub jobs-push_job_statuses :
    (up : Bool) (node : Text) (statuses : List StatusReport) (w : World)
    → OnePerJob statuses
    → All (λ r. is_sized r ≡ true) statuses
    → (push_job_statuses up node statuses (calm w)).1.db.jobs
      ≡ map (told_by w.db.clock up statuses) w.db.jobs
unfolding push_job_statuses
jobs-push_job_statuses up node statuses w one sized =
    let progress = select (λ r. not (is_terminal_report r)) statuses in
    let w' = with_jobs w (map (apply_progress w.db.clock (map progress_row progress)) w.db.jobs) in
    let rows = map progress_row (select is_completed_report statuses) in
    let enough : any (lacks_size rows) w'.db.jobs ≡ false =
      any-false (lacks_size rows) w'.db.jobs (λ j. lacks_size-false statuses j sized) in
    rw (stage_progress progress w) (
      rw when-terminal (
        jobs-batch_handle_terminal up node (select is_terminal_report statuses) w'
          (rw completed_part enough)
        ∙ rw completed_part (
            rw failed_part (
              three_batches w.db.clock up statuses w.db.jobs one
              ∙ map_same _ _ w.db.jobs (λ j. settled_by-told_by w.db.clock up statuses j sized)))))

-- A completed report of size zero, for a job whose size is not known, undoes the whole batch: no
-- completion of the push is stored, and only the failures are.
pub batch_handle_terminal_lost :
    (up : Bool) (node : Text) (updates : List StatusReport) (w : World)
    → any (lacks_size (map progress_row (select is_completed_report updates))) w.db.jobs ≡ true
    → (batch_handle_terminal up node updates (calm w)).1.db.jobs
      ≡ map (apply_failure w.db.clock (map failure_row (select is_failed_report updates))) w.db.jobs
unfolding batch_handle_terminal
batch_handle_terminal_lost up node updates w h =
    rw (stage_complete_lost up (select is_completed_report updates) w h)
      (stage_fail node (select is_failed_report updates) w)
