-- ===== src/Grpc/Statuses/Settled.antt =====
-- What a push of reports does to the jobs that it names.
use opendebrid.Prelude.{
  ℕ, ◌≡◌, refl, ap, ◌∙◌, Bool, true, false, not, ◌&&◌, Option, none, some, List, [], ◌∷◌, map, All,
  ◌==◌, any, find, find-test, select, arith, if◌then◌else◌,
}
use opendebrid.Database.Model.{Job}
use opendebrid.Database.Batches.{
  Progress, apply_progress, apply_complete, apply_failure, progressed, completed_by, failed_by,
  progress_for, failure_for, lacks_size, positive,
}
use opendebrid.Grpc.Statuses.{
  StatusReport, is_completed_report, is_failed_report, is_terminal_report, progress_row,
  failure_row,
}
use opendebrid.World.{World}

abbrev pub reports_on : ℕ → StatusReport → Bool
reports_on id r = r.job_id == id

-- No two reports name one job.
abbrev pub OnePerJob : List StatusReport → Type 0
OnePerJob [] = Unit
OnePerJob (r ∷ rs) = All (λ (x : StatusReport). (x.job_id == r.job_id) ≡ false) rs × OnePerJob rs

-- The effect of one report on its job.
abbrev pub settled : ℕ → Bool → StatusReport → Job → Job
settled clock upload_pending r j =
    if is_completed_report r
    then apply_complete clock upload_pending (progress_row r ∷ []) j
    else if is_failed_report r
    then apply_failure clock (failure_row r ∷ []) j
    else apply_progress clock (progress_row r ∷ []) j

abbrev pub settled_by : ℕ → Bool → List StatusReport → Job → Job
settled_by clock upload_pending rs j = elim (find (reports_on j.id) rs) [
  | none ↦ j
  | some r ↦ settled clock upload_pending r j
]

none_other :
    (id : ℕ) (t : StatusReport → Bool) (r : StatusReport) (rs : List StatusReport)
    → All (λ (x : StatusReport). (x.job_id == r.job_id) ≡ false) rs
    → (r.job_id == id) ≡ true
    → find (reports_on id) (select t rs) ≡ none
none_other id t r [] h e = refl
none_other id t r (x ∷ rs) h e = ground (arith, none_other id t r rs h.1 e, h.0)

abbrev keep_if : (StatusReport → Bool) → Option StatusReport → Option StatusReport
keep_if t none = none
keep_if t (some r) = if t r then some r else none

-- With one report for a job, a part of the batch holds it or no report of the job.
find-select :
    (id : ℕ) (t : StatusReport → Bool) (rs : List StatusReport)
    → OnePerJob rs
    → find (reports_on id) (select t rs) ≡ keep_if t (find (reports_on id) rs)
find-select id t [] h = refl
find-select id t (r ∷ rs) h = ground (arith, find-select id t rs h.1, none_other id t r rs h.0)

module _ {U : Type 0} (row : StatusReport → U) (for : ℕ → U → Bool) where
  find-map :
      (id : ℕ) (rs : List StatusReport)
      → ((r : StatusReport) → for id (row r) ≡ reports_on id r)
      → find (for id) (map row rs)
        ≡ elim (find (reports_on id) rs) [ none ↦ none | some r ↦ some (row r) ]
  find-map id [] h = refl
  find-map id (r ∷ rs) h = ground (arith, find-map id rs h, h r)

pub map_id_of : (f : Job → Job) (js : List Job) → ((j : Job) → f j ≡ j) → map f js ≡ js
map_id_of f [] h = refl
map_id_of f (j ∷ js) h = ground (arith, map_id_of f js h, h j)

pub map-map_of :
    (f g k : Job → Job) (js : List Job) → ((j : Job) → f (g j) ≡ k j) → map f (map g js) ≡ map k js
map-map_of f g k [] h = refl
map-map_of f g k (j ∷ js) h = ground (arith, map-map_of f g k js h, h j)

-- The rows of the three batches for one job, from the whole list of reports.
progress_find :
    (id : ℕ) (t : StatusReport → Bool) (rs : List StatusReport)
    → OnePerJob rs
    → find (progress_for id) (map progress_row (select t rs))
      ≡ elim (keep_if t (find (reports_on id) rs)) [ none ↦ none | some r ↦ some (progress_row r) ]
progress_find id t rs h =
    find-map progress_row progress_for id (select t rs) (λ r. refl)
    ∙ ap (λ o. elim o [ none ↦ none | some r ↦ some (progress_row r) ]) (find-select id t rs h)

failure_find :
    (id : ℕ) (t : StatusReport → Bool) (rs : List StatusReport)
    → OnePerJob rs
    → find (failure_for id) (map failure_row (select t rs))
      ≡ elim (keep_if t (find (reports_on id) rs)) [ none ↦ none | some r ↦ some (failure_row r) ]
failure_find id t rs h =
    find-map failure_row failure_for id (select t rs) (λ r. refl)
    ∙ ap (λ o. elim o [ none ↦ none | some r ↦ some (failure_row r) ]) (find-select id t rs h)

pub select-select :
    (t u : StatusReport → Bool) (rs : List StatusReport)
    → ((r : StatusReport) → t r ≡ true → u r ≡ true)
    → select t (select u rs) ≡ select t rs
select-select t u [] h = refl
select-select t u (r ∷ rs) h = ground (arith, select-select t u rs h, h r)

pub completed-terminal :
    (r : StatusReport) → is_completed_report r ≡ true → is_terminal_report r ≡ true
completed-terminal r h = ground arith

pub failed-terminal : (r : StatusReport) → is_failed_report r ≡ true → is_terminal_report r ≡ true
failed-terminal r h = ground arith

-- The three batches one after the other, on one job.
module _ (clock : ℕ) (up : Bool) (rs : List StatusReport) where
  abbrev pub batches : Job → Job
  batches j = apply_failure clock (map failure_row (select is_failed_report rs)) (
      apply_complete clock up (map progress_row (select is_completed_report rs))
        (apply_progress clock (map progress_row (select (λ r. not (is_terminal_report r)) rs)) j))

  id-progressed : (o : Option Progress) (j : Job) → (progressed clock o j).id ≡ j.id
  id-progressed none j = refl
  id-progressed (some u) j = refl

  id-completed_by : (o : Option Progress) (j : Job) → (completed_by clock up o j).id ≡ j.id
  id-completed_by none j = refl
  id-completed_by (some u) j = refl

  abbrev parts : Option StatusReport → Job → Job
  parts o j =
      failed_by clock
        (elim (keep_if is_failed_report o) [ none ↦ none | some r ↦ some (failure_row r) ])
        (completed_by clock up
          (elim (keep_if is_completed_report o) [ none ↦ none | some r ↦ some (progress_row r) ])
          (progressed clock
            (elim (keep_if (λ r. not (is_terminal_report r)) o) [
              | none ↦ none
              | some r ↦ some (progress_row r)
            ])
            j))

  parts-settled :
      (o : Option StatusReport) (j : Job)
      → ((r : StatusReport) → o ≡ some r → (r.job_id == j.id) ≡ true)
      → parts o j ≡ (elim o [ none ↦ j | some r ↦ settled clock up r j ])
  parts-settled none j h = refl
  parts-settled (some r) j h = ground (arith, h r refl)

  pub batches-settled : OnePerJob rs → (j : Job) → batches j ≡ settled_by clock up rs j
  batches-settled h j =
      let p = progress_find j.id (λ r. not (is_terminal_report r)) rs h in
      let c = progress_find j.id is_completed_report rs h in
      let f = failure_find j.id is_failed_report rs h in
      let before =
        apply_progress clock (map progress_row (select (λ r. not (is_terminal_report r)) rs)) j in
      let same : before.id ≡ j.id = id-progressed _ j in
      let after =
        apply_complete clock up (map progress_row (select is_completed_report rs)) before in
      let same' : after.id ≡ j.id = id-completed_by _ before ∙ same in
      ap
        (λ i.
          failed_by clock (find (failure_for i) (map failure_row (select is_failed_report rs)))
            after)
        same'
      ∙ ap
          (λ i.
            failed_by clock (find (failure_for j.id) (map failure_row (select is_failed_report rs)))
              (completed_by clock up
                (find (progress_for i) (map progress_row (select is_completed_report rs))) before))
          same
      ∙ rw (p, c, f)
          (parts-settled (find (reports_on j.id) rs) j (λ r e. find-test (reports_on j.id) rs r e))

-- A completed report of a job that names its size.
abbrev pub is_sized : StatusReport → Bool
is_sized r = not (is_completed_report r && r.total_size == 0)

sized_row :
    (id : ℕ) (rs : List StatusReport)
    → All (λ r. is_sized r ≡ true) rs
    → (u : Progress)
    → find (progress_for id) (map progress_row (select is_completed_report rs)) ≡ some u
    → (u.size == 0) ≡ false
sized_row id [] h u e = cc
sized_row id (r ∷ rs) h u e = ground (arith, sized_row id rs h.1 u, h.0)

pub lacks_size-false :
    (rs : List StatusReport) (j : Job)
    → All (λ r. is_sized r ≡ true) rs
    → lacks_size (map progress_row (select is_completed_report rs)) j ≡ false
lacks_size-false rs j h =
    go (find (progress_for j.id) (map progress_row (select is_completed_report rs))) refl
  where
    go :
        (o : Option Progress)
        → find (progress_for j.id) (map progress_row (select is_completed_report rs)) ≡ o
        → elim o [
          | none ↦ false
          | some u ↦ elim (positive u.size j.size) [ none ↦ true | some n ↦ false ]
        ]
          ≡ false
    go none e = refl
    go (some u) e = ground (arith, sized_row j.id rs h u e)

pub any-false : (t : Job → Bool) (js : List Job) → ((j : Job) → t j ≡ false) → any t js ≡ false
any-false t [] h = refl
any-false t (j ∷ js) h = ground (arith, any-false t js h, h j)

-- The worlds after the stages of a push.
abbrev pub with_jobs : World → List Job → World
with_jobs w js = record w { db = record w.db { jobs = js } }
