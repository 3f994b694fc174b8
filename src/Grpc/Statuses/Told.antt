-- ===== src/Grpc/Statuses/Told.antt =====
-- What a report tells of its job, written out field by field.
use opendebrid.Prelude.{
  ℕ, ◌≡◌, refl, Bool, true, false, Option, none, some, List, [], ◌∷◌, Text, All, ◌==◌, find,
  find-test, ltb, is_empty, arith, if◌then◌else◌,
}
use opendebrid.Database.Model.{Job, pending, non_empty, Status}
use opendebrid.Database.Batches.{non_empty_name}
use opendebrid.Grpc.Statuses.{StatusReport, JobState, queued, active, completed, failed, other}
use opendebrid.Grpc.Statuses.Settled.{reports_on, settled, settled_by, is_sized}

-- An empty text tells nothing, nor does a size of zero.
abbrev pub told_text : Text → Text → Text
told_text s old = if is_empty s then old else s

abbrev pub told_id : Text → Option Text → Option Text
told_id s old = if is_empty s then old else some s

abbrev pub told_size : ℕ → Option ℕ → Option ℕ
told_size n old = if n == 0 then old else some n

abbrev pub tells_progress : ℕ → StatusReport → Job → Job
tells_progress clock r j = record j {
  status = Status.active;
  progress = r.progress;
  speed = r.speed;
  downloaded_size = r.downloaded_size;
  name = told_text r.name j.name;
  size = told_size r.total_size j.size;
  engine_job_id = told_id r.engine_job_id j.engine_job_id;
  updated_at = clock;
}

-- All of the reported size is there, and progress is 100.
abbrev pub tells_completion : ℕ → Bool → StatusReport → Job → Job
tells_completion clock upload_pending r j = record j {
  status = Status.completed;
  progress = 100000000;
  speed = 0;
  downloaded_size = r.total_size;
  name = told_text r.name j.name;
  size = some r.total_size;
  engine_job_id = told_id r.engine_job_id j.engine_job_id;
  upload_status = if upload_pending then pending else j.upload_status;
  completed_at = some clock;
  updated_at = clock;
}

abbrev pub tells_failure : ℕ → StatusReport → Job → Job
tells_failure clock r j = record j {
  status = Status.failed;
  error_message = some r.error;
  file_location = none;
  updated_at = clock;
}

abbrev pub tells : ℕ → Bool → StatusReport → Job → Job
tells clock upload_pending r j = elim r.status [
  | completed ↦ tells_completion clock upload_pending r j
  | failed ↦ tells_failure clock r j
  | _ ↦ tells_progress clock r j
]

-- A job that no report names stays as it is.
abbrev pub told_by : ℕ → Bool → List StatusReport → Job → Job
told_by clock upload_pending rs j = elim (find (reports_on j.id) rs) [
  | none ↦ j
  | some r ↦ tells clock upload_pending r j
]

non_empty_name-told : (t old : Text) → non_empty_name t old ≡ told_text t old
unfolding is_empty
non_empty_name-told [] old = refl
non_empty_name-told (c ∷ t) old = refl

non_empty-told : (t : Text) (old : Option Text) → non_empty t old ≡ told_id t old
unfolding is_empty
non_empty-told [] old = refl
non_empty-told (c ∷ t) old = refl

bigger-told : (n : ℕ) (old : Option ℕ) → (if ltb 0 n then some n else old) ≡ told_size n old
bigger-told n old = ground arith

settled-tells :
    (clock : ℕ) (up : Bool) (r : StatusReport) (j : Job)
    → (r.job_id == j.id) ≡ true
    → is_sized r ≡ true
    → settled clock up r j ≡ tells clock up r j
settled-tells clock up r j own sized = by_state r.status refl
  where
    by_state : (s : JobState) → r.status ≡ s → settled clock up r j ≡ tells clock up r j
    by_state queued e =
        rw e (rw own (rw non_empty_name-told (rw non_empty-told (rw bigger-told refl))))
    by_state active e =
        rw e (rw own (rw non_empty_name-told (rw non_empty-told (rw bigger-told refl))))
    by_state (other t) e =
        rw e (rw own (rw non_empty_name-told (rw non_empty-told (rw bigger-told refl))))
    by_state completed e =
        let some_size : (r.total_size == 0) ≡ false = ground (arith, rw e at sized) in
        rw e (rw own (rw some_size (rw non_empty_name-told (rw non_empty-told refl))))
    by_state failed e = rw e (rw own refl)

sized_one :
    (t : StatusReport → Bool) (rs : List StatusReport) (r : StatusReport)
    → All (λ r. is_sized r ≡ true) rs
    → find t rs ≡ some r
    → is_sized r ≡ true
sized_one t [] r h e = absurd (cc)
sized_one t (x ∷ rs) r h e = ground (arith, sized_one t rs r h.1, h.0)

-- On a job, the batches do what its report tells.
pub settled_by-told_by :
    (clock : ℕ) (up : Bool) (rs : List StatusReport) (j : Job)
    → All (λ r. is_sized r ≡ true) rs
    → settled_by clock up rs j ≡ told_by clock up rs j
settled_by-told_by clock up rs j sized = found (find (reports_on j.id) rs) refl
  where
    found :
        (o : Option StatusReport)
        → find (reports_on j.id) rs ≡ o
        → (elim o [ none ↦ j | some r ↦ settled clock up r j ])
          ≡ (elim o [ none ↦ j | some r ↦ tells clock up r j ])
    found none e = refl
    found (some r) e =
        settled-tells clock up r j (find-test (reports_on j.id) rs r e)
          (sized_one (reports_on j.id) rs r sized e)
