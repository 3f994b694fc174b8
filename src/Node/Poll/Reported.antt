-- ===== src/Node/Poll/Reported.antt =====
-- What one poll reports and what it leaves tracked.
use opendebrid.Prelude.{
  ℕ, ◌+◌, ◌≤◌, ◌≡◌, Bool, false, not, ◌&&◌, ◌||◌, Option, none, some, List, [], ◌∷◌, ◌++◌, map,
  Text, any, any-append, count_where, All, ◌==◌, arith,
}
use opendebrid.Grpc.Statuses.{StatusReport, is_terminal_report}
use opendebrid.Grpc.Statuses.Settled.{OnePerJob, reports_on}
use opendebrid.Node.Tracker.{
  TrackedJob, Tracker, is_job, tracked, IsMap, tracked-remove, tracked-update_engine_job_id,
}
use opendebrid.Node.Poll.{
  JobStatus, EngineGroup, add_to, group, renamed, Statuses, poll_job, poll_jobs, poll_answer,
  poll_group, poll_groups, poll,
}

module _ {A : Type 0} where
  count-append :
      (t : A → Bool) (xs ys : List A)
      → count_where t (xs ++ ys) ≡ count_where t xs + count_where t ys
  count-append t [] ys = omega arith
  count-append t (x ∷ xs) ys = ground (arith, count-append t xs ys)

-- A report of the end of a job.
abbrev pub ends : ℕ → StatusReport → Bool
ends id r = (r.job_id == id) && is_terminal_report r

tracked-renamed :
    (k : ℕ) (j : TrackedJob) (s : JobStatus) (t : Tracker) → tracked k (renamed j s t) ≡ tracked k t
tracked-renamed k j s t = ground (arith, tracked-update_engine_job_id j.job_id k s.engine_job_id t)

tracked-poll_job :
    (k : ℕ) (o : Option JobStatus) (j : TrackedJob) (t : Tracker)
    → tracked k (poll_job o j t).1 ≡ (tracked k t && not (any (ends k) (poll_job o j t).0))
tracked-poll_job k none j t = ground arith
tracked-poll_job k (some s) j t =
    ground (arith, tracked-remove j.job_id k (renamed j s t), tracked-renamed k j s t)

-- Two stages of a poll, one after the other.
and_not : (a b c x y : Bool) → b ≡ (a && not x) → c ≡ (b && not y) → c ≡ (a && not (x || y))
and_not a b c x y p q = ground (arith, p, q)

tracked-poll_jobs :
    (k : ℕ) (st : Statuses) (js : List TrackedJob) (t : Tracker)
    → tracked k (poll_jobs st js t).1 ≡ (tracked k t && not (any (ends k) (poll_jobs st js t).0))
tracked-poll_jobs k st [] t = ground arith
tracked-poll_jobs k st (j ∷ js) t =
    let first = poll_job (st j.engine_job_id) j t in
    rw (any-append (ends k) first.0 (poll_jobs st js first.1).0) (
      and_not (tracked k t) (tracked k first.1) _ _ _ (tracked-poll_job k (st j.engine_job_id) j t)
        (tracked-poll_jobs k st js first.1))

tracked-poll_answer :
    (k : ℕ) (o : Option Statuses) (js : List TrackedJob) (t : Tracker)
    → tracked k (poll_answer o js t).1 ≡ (tracked k t && not (any (ends k) (poll_answer o js t).0))
tracked-poll_answer k none js t = ground arith
tracked-poll_answer k (some st) js t = tracked-poll_jobs k st js t

count-poll_job :
    (k : ℕ) (o : Option JobStatus) (j : TrackedJob) (t : Tracker)
    → count_where (reports_on k) (poll_job o j t).0 ≤ count_where (is_job k) (j ∷ [])
count-poll_job k none j t = omega arith
count-poll_job k (some s) j t = ground arith

count-poll_jobs :
    (k : ℕ) (st : Statuses) (js : List TrackedJob) (t : Tracker)
    → count_where (reports_on k) (poll_jobs st js t).0 ≤ count_where (is_job k) js
count-poll_jobs k st [] t = omega arith
count-poll_jobs k st (j ∷ js) t =
    let first = poll_job (st j.engine_job_id) j t in
    omega (
      arith,
      count-append (reports_on k) first.0 (poll_jobs st js first.1).0,
      count-poll_job k (st j.engine_job_id) j t,
      count-poll_jobs k st js first.1,
      count-append (is_job k) (j ∷ []) js,
    )

count-poll_answer :
    (k : ℕ) (o : Option Statuses) (js : List TrackedJob) (t : Tracker)
    → count_where (reports_on k) (poll_answer o js t).0 ≤ count_where (is_job k) js
count-poll_answer k none js t = omega arith
count-poll_answer k (some st) js t = count-poll_jobs k st js t

-- The jobs of a list of groups that have an id.
abbrev total : ℕ → List EngineGroup → ℕ
total k [] = 0
total k (g ∷ gs) = count_where (is_job k) g.jobs + total k gs

total-add_to :
    (k : ℕ) (j : TrackedJob) (gs : List EngineGroup)
    → total k (add_to j gs) ≡ total k gs + count_where (is_job k) (j ∷ [])
total-add_to k j [] = omega arith
total-add_to k j (g ∷ gs) =
    ground (arith, total-add_to k j gs, count-append (is_job k) g.jobs (j ∷ []))

total-group :
    (k : ℕ) (js : List TrackedJob) (gs : List EngineGroup)
    → total k (group js gs) ≡ total k gs + count_where (is_job k) js
total-group k [] gs = omega arith
total-group k (j ∷ js) gs = omega (
  arith,
  total-group k js (add_to j gs),
  total-add_to k j gs,
  count-append (is_job k) (j ∷ []) js,
)

-- With one report at most for every job, the reports are of distinct jobs.
OnePerJob-count :
    (rs : List StatusReport) → ((k : ℕ) → count_where (reports_on k) rs ≤ 1) → OnePerJob rs
OnePerJob-count [] h = tt
OnePerJob-count (r ∷ rs) h =
    (apart r.job_id rs (ground (arith, h r.job_id)), OnePerJob-count rs (λ k. ground (arith, h k)))
  where
    apart :
        (k : ℕ) (xs : List StatusReport)
        → count_where (reports_on k) xs ≡ 0
        → All (λ (x : StatusReport). (x.job_id == k) ≡ false) xs
    apart k [] e = tt
    apart k (x ∷ xs) e = (ground (arith, e), apart k xs (ground (arith, e)))

module _ (batch_status : Text → List Text → Option Statuses) where
  tracked-poll_groups :
      (k : ℕ) (gs : List EngineGroup) (t : Tracker)
      → tracked k (poll_groups batch_status gs t).1
        ≡ (tracked k t && not (any (ends k) (poll_groups batch_status gs t).0))
  tracked-poll_groups k [] t = ground arith
  tracked-poll_groups k (g ∷ gs) t =
      let first = poll_group batch_status g t in
      rw (any-append (ends k) first.0 (poll_groups batch_status gs first.1).0) (
        and_not (tracked k t) (tracked k first.1) _ _ _
          (tracked-poll_answer k
            (batch_status g.engine (map (λ (j : TrackedJob). j.engine_job_id) g.jobs)) g.jobs t)
          (tracked-poll_groups k gs first.1))

  count-poll_groups :
      (k : ℕ) (gs : List EngineGroup) (t : Tracker)
      → count_where (reports_on k) (poll_groups batch_status gs t).0 ≤ total k gs
  count-poll_groups k [] t = omega arith
  count-poll_groups k (g ∷ gs) t =
      let first = poll_group batch_status g t in
      omega (
        arith,
        count-append (reports_on k) first.0 (poll_groups batch_status gs first.1).0,
        count-poll_answer k
            (batch_status g.engine (map (λ (j : TrackedJob). j.engine_job_id) g.jobs)) g.jobs t,
        count-poll_groups k gs first.1,
      )

  -- Whatever the engines answer: a job stays tracked exactly if it was and the poll does not report its end.
  pub tracked-poll :
      (k : ℕ) (jobs : List TrackedJob) (t : Tracker)
      → tracked k (poll batch_status jobs t).1
        ≡ (tracked k t && not (any (ends k) (poll batch_status jobs t).0))
  unfolding poll
  tracked-poll k jobs t = tracked-poll_groups k (group jobs []) t

  -- A poll of the tracked jobs reports on each of them at most once.
  pub poll-OnePerJob : (t : Tracker) → IsMap t → OnePerJob (poll batch_status t t).0
  unfolding poll
  poll-OnePerJob t h =
      OnePerJob-count (poll batch_status t t).0
        (λ k. omega (arith, count-poll_groups k (group t []) t, total-group k t [], h k))
