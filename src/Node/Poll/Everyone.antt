-- ===== src/Node/Poll/Everyone.antt =====
-- Whether a poll reports on every job of an engine that answers, and the aria2 engine as one that does.
use opendebrid.Prelude.{
  ◌≡◌, refl, ap, ◌∙◌, Bool, true, ◌&&◌, ◌||◌, Option, none, some, List, [], ◌∷◌, map, Text, codes,
  eq_text, eq_text_iff, eq_text_refl, any, any-append, ℕ, arith, if◌then◌else◌, Bool-cases, inl,
  inr,
}
use opendebrid.Prelude.Exec.{Result, ok, err, is_ok}
use opendebrid.Engine.Aria2.{Daemon, StatusMap, status_in, batch_status}
use opendebrid.Engine.Aria2.Answered.{
  is_some, asked, answer_in, batch_status-answers, is_ok-batch_status,
}
use opendebrid.Grpc.Statuses.Settled.{reports_on}
use opendebrid.Node.Tracker.{TrackedJob, Tracker, is_job}
use opendebrid.Node.Poll.{
  JobStatus, EngineGroup, add_to, group, Statuses, poll_job, poll_jobs, poll_answer, poll_group,
  poll_groups, poll,
}

abbrev pub ids_of : List TrackedJob → List Text
ids_of js = map (λ (j : TrackedJob). j.engine_job_id) js

-- The engine has a status for each id that it is asked for.
abbrev pub Answers : (Text → List Text → Option Statuses) → Text → Type 0
Answers batch engine =
    (ids : List Text)
    → (st : Statuses) × (batch engine ids ≡ some st)
      × ((id : Text) → asked id ids ≡ true → is_some (st id) ≡ true)

reported-poll_job :
    (k : ℕ) (o : Option JobStatus) (j : TrackedJob) (t : Tracker)
    → is_some o ≡ true
    → any (reports_on k) (poll_job o j t).0 ≡ is_job k j
reported-poll_job k none j t h = cc
reported-poll_job k (some s) j t h = ground arith

reported-poll_jobs :
    (k : ℕ) (st : Statuses) (js : List TrackedJob) (t : Tracker)
    → ((id : Text) → asked id (ids_of js) ≡ true → is_some (st id) ≡ true)
    → any (reports_on k) (poll_jobs st js t).0 ≡ any (is_job k) js
reported-poll_jobs k st [] t h = refl
reported-poll_jobs k st (j ∷ js) t h =
    let first = poll_job (st j.engine_job_id) j t in
    any-append (reports_on k) first.0 (poll_jobs st js first.1).0
    ∙ ground (
      arith,
      reported-poll_job k (st j.engine_job_id) j t
          (h j.engine_job_id (ground (arith, eq_text_refl j.engine_job_id))),
      reported-poll_jobs k st js first.1 (λ id a. h id (ground (arith, a))),
    )

-- The job with an engine, in a list and in the groups.
abbrev pub is_job_of : Text → ℕ → TrackedJob → Bool
is_job_of engine k j = is_job k j && eq_text j.engine engine

abbrev pub in_group : Text → ℕ → EngineGroup → Bool
in_group engine k g = any (is_job k) g.jobs && eq_text g.engine engine

same_engine :
    (a b engine : Text) (x y : Bool)
    → eq_text a b ≡ true
    → ((x || y) && eq_text a engine) ≡ ((x && eq_text a engine) || (y && eq_text b engine))
same_engine a b engine x y e = rw ((eq_text_iff a b).0 e) (ground arith)

in_group-add_to :
    (engine : Text) (k : ℕ) (j : TrackedJob) (gs : List EngineGroup)
    → any (in_group engine k) (add_to j gs) ≡ (any (in_group engine k) gs || is_job_of engine k j)
in_group-add_to engine k j [] = ground arith
in_group-add_to engine k j (g ∷ gs) = elim (Bool-cases (eq_text g.engine j.engine)) [
  | inl e ↦ rw e (
      ground (
        arith,
        any-append (is_job k) g.jobs (j ∷ []),
        same_engine g.engine j.engine engine (any (is_job k) g.jobs) (is_job k j) e,
      ))
  | inr e ↦ rw e (ground (arith, in_group-add_to engine k j gs))
]

in_group-group :
    (engine : Text) (k : ℕ) (js : List TrackedJob) (gs : List EngineGroup)
    → any (in_group engine k) (group js gs)
      ≡ (any (is_job_of engine k) js || any (in_group engine k) gs)
in_group-group engine k [] gs = refl
in_group-group engine k (j ∷ js) gs =
    in_group-group engine k js (add_to j gs) ∙ ground (arith, in_group-add_to engine k j gs)

module _ (batch : Text → List Text → Option Statuses) (engine : Text) (k : ℕ)
    (answers : Answers batch engine) where
  reported-poll_group :
      (g : EngineGroup) (t : Tracker)
      → in_group engine k g ≡ true
      → any (reports_on k) (poll_group batch g t).0 ≡ true
  reported-poll_group g t h =
      let (st, answer, every) = answers (ids_of g.jobs) in
      let mine : eq_text g.engine engine ≡ true = ground (arith, h) in
      let asks : batch g.engine (ids_of g.jobs) ≡ some st =
        ap (λ e. batch e (ids_of g.jobs)) ((eq_text_iff g.engine engine).0 mine) ∙ answer in
      ap (λ o. any (reports_on k) (poll_answer o g.jobs t).0) asks
      ∙ (reported-poll_jobs k st g.jobs t every ∙ ground (arith, h))

  reported-poll_groups :
      (gs : List EngineGroup) (t : Tracker)
      → any (in_group engine k) gs ≡ true
      → any (reports_on k) (poll_groups batch gs t).0 ≡ true
  reported-poll_groups [] t h = cc
  reported-poll_groups (g ∷ gs) t h =
      let first = poll_group batch g t in
      any-append (reports_on k) first.0 (poll_groups batch gs first.1).0
      ∙ elim (Bool-cases (in_group engine k g)) [
        | inl e ↦ ground (arith, reported-poll_group g t e)
        | inr e ↦ ground (arith, reported-poll_groups gs first.1 (ground (arith, e, h)))
      ]

  -- A poll reports on each job of an engine that answers for the ids it is asked, whatever the other engines
  -- do.
  pub reported-poll :
      (jobs : List TrackedJob) (t : Tracker)
      → any (is_job_of engine k) jobs ≡ true
      → any (reports_on k) (poll batch jobs t).0 ≡ true
  unfolding poll
  reported-poll jobs t h =
      reported-poll_groups (group jobs []) t (in_group-group engine k jobs [] ∙ ground (arith, h))

-- The aria2 engine's answers to a poll.
abbrev pub aria2_statuses : Result StatusMap → Option Statuses
aria2_statuses (err e) = none
aria2_statuses (ok m) = some (status_in m)

aria2_statuses-all :
    (r : Result StatusMap) (ids : List Text)
    → ((id : Text) → asked id ids ≡ true → is_some (answer_in r id) ≡ true)
    → is_ok r ≡ true
    → (st : Statuses) × (aria2_statuses r ≡ some st)
      × ((id : Text) → asked id ids ≡ true → is_some (st id) ≡ true)
aria2_statuses-all (err e) ids h o = absurd (cc)
aria2_statuses-all (ok m) ids h o = (status_in m, refl, h)

module _ (d : Daemon) (others : Text → List Text → Option Statuses) where
  -- A node whose engines are aria2 and others.
  abbrev pub with_aria2 : Text → List Text → Option Statuses
  with_aria2 engine ids =
      if eq_text engine (codes "aria2")
      then aria2_statuses (batch_status d ids).0
      else others engine ids

  with_aria2-Answers : is_ok d.tell_active ≡ true → Answers with_aria2 (codes "aria2")
  with_aria2-Answers o ids =
      let (st, e, h) =
        aria2_statuses-all (batch_status d ids).0 ids
          (λ id a. batch_status-answers d id ids ∙ ground (arith, a, o))
          (is_ok-batch_status d ids ∙ o) in
      (st, rw (eq_text_refl (codes "aria2")) e, h)

  -- Where the daemon lists its active downloads, a poll reports on each tracked job of the aria2 engine, also
  -- where the daemon does not know its id any more.
  pub poll-batch_status :
      (k : ℕ) (jobs : List TrackedJob) (t : Tracker)
      → is_ok d.tell_active ≡ true
      → any (is_job_of (codes "aria2") k) jobs ≡ true
      → any (reports_on k) (poll with_aria2 jobs t).0 ≡ true
  poll-batch_status k jobs t o =
      reported-poll with_aria2 (codes "aria2") k (with_aria2-Answers o) jobs t
