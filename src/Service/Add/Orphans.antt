-- ===== src/Service/Add/Orphans.antt =====
-- Jobs and their downloads under the queries that `Add` runs (internal/core/service/download.go).
use opendebrid.Prelude.{
  ℕ, ◌≡◌, refl, ap, ◌∙◌, Bool, true, false, ◌&&◌, ◌||◌, List, [], ◌∷◌, Text, eq_text, All, ◌==◌,
  any, update_where, arith, if◌then◌else◌, Bool-cases, inl, inr,
}
use opendebrid.Prelude.Exec.{Result, ok, Preserves}
use opendebrid.Database.Model.{Status, Job, Download, Db}
use opendebrid.Database.Jobs.{
  CreateJobParams, create_job, new_job, has_key, node_exists, get_job_by_storage_key,
  update_job_status, reset_job, of_job, has_id, can_reset,
}
use opendebrid.Database.Downloads.{
  of_user_job, create_download, new_download, find_download_by_user_and_job_id, touch_download,
  is_download,
}
use opendebrid.Service.Add.{create_new, AddDownloadRequest}
use opendebrid.Prelude.Ensures.{Ensures, Ensures-pure, Ensures-bind}
use opendebrid.Service.Add.Transaction.{Preserves-transaction}
use opendebrid.Service.Env.{Env}
use opendebrid.World.{Ensures-query, OnDb}

-- What holds of both branches.
both : {X : Type 0} (P : X → Type 0) (b : Bool) (x y : X) → P x → P y → P (if b then x else y)
both P true x y p q = p
both P false x y p q = q

abbrev pub has_download : Db → Job → Bool
has_download db j = any (of_job j.id) db.downloads

-- Every job is a job of some download.
abbrev pub NoOrphans : Db → Type 0
NoOrphans db = All (λ j. has_download db j ≡ true) db.jobs

module _ (ds ds' : List Download)
    (more : (id : ℕ) → any (of_job id) ds ≡ true → any (of_job id) ds' ≡ true) where
  All-more :
      (js : List Job)
      → All (λ j. any (of_job j.id) ds ≡ true) js
      → All (λ j. any (of_job j.id) ds' ≡ true) js
  All-more [] h = tt
  All-more (j ∷ js) (h, hs) = (more j.id h, All-more js hs)

All-update_where :
    (ds : List Download) (t : Job → Bool) (f : Job → Job)
    → ((j : Job) → (f j).id ≡ j.id)
    → (js : List Job) → All (λ j. any (of_job j.id) ds ≡ true) js
    → All (λ j. any (of_job j.id) ds ≡ true) (update_where t f js)
All-update_where ds t f same [] h = tt
All-update_where ds t f same (j ∷ js) (h, hs) = elim (Bool-cases (t j)) [
  | inl e ↦ (rw (e, same j) h, All-update_where ds t f same js hs)
  | inr e ↦ (rw e h, All-update_where ds t f same js hs)
]

any-touch :
    (id job clock : ℕ) (ds : List Download)
    → any (of_job job) (update_where (is_download id) (λ d. record d { created_at = clock }) ds)
      ≡ any (of_job job) ds
any-touch id job clock [] = refl
any-touch id job clock (d ∷ ds) = elim (Bool-cases (is_download id d)) [
  | inl e ↦ rw e (ap (λ b. (d.job_id == job) || b) (any-touch id job clock ds))
  | inr e ↦ rw e (ap (λ b. (d.job_id == job) || b) (any-touch id job clock ds))
]

pub NoOrphans-touch_download : (id : ℕ) → Preserves (touch_download id) NoOrphans
unfolding touch_download
NoOrphans-touch_download id = record {
  after = λ db h.
      All-more db.downloads _ (λ job e. any-touch id job db.clock db.downloads ∙ e) db.jobs h;
}

pub NoOrphans-find_download :
    (user job : ℕ) → Preserves (find_download_by_user_and_job_id user job) NoOrphans
unfolding find_download_by_user_and_job_id
NoOrphans-find_download user job = record { after = λ db h. h }

pub NoOrphans-get_job : (key : Text) → Preserves (get_job_by_storage_key key) NoOrphans
unfolding get_job_by_storage_key
NoOrphans-get_job key = record { after = λ db h. h }

pub NoOrphans-update_job_status :
    (id : ℕ) (status : Status) (engine_id message location : Text)
    → Preserves (update_job_status id status engine_id message location) NoOrphans
unfolding update_job_status
NoOrphans-update_job_status id status engine_id message location = record {
  after = λ db h. All-update_where db.downloads (has_id id) _ (λ j. refl) db.jobs h;
}

pub NoOrphans-reset_job : (id : ℕ) (node url : Text) → Preserves (reset_job id node url) NoOrphans
unfolding reset_job
NoOrphans-reset_job id node url = record {
  after = λ db h.
      both {X = Result Job × Db} (λ r. NoOrphans r.1) (any (can_reset id) db.jobs) _ _
        (both {X = Result Job × Db} (λ r. NoOrphans r.1) (any (λ n. eq_text n.id node) db.nodes) _ _
          (All-update_where db.downloads (can_reset id) _ (λ j. refl) db.jobs h) h)
        h;
}

pub NoOrphans-create_download : (user job : ℕ) → Preserves (create_download user job) NoOrphans
unfolding create_download
NoOrphans-create_download user job = record {
  after = λ db h.
      both {X = Result Download × Db} (λ r. NoOrphans r.1) (any (of_user_job user job) db.downloads)
        _ _ h
        (both {X = Result Download × Db} (λ r. NoOrphans r.1)
          (any (λ u. u == user) db.users && any (has_id job) db.jobs) _ _
          (All-more db.downloads (new_download user job db ∷ db.downloads)
            (λ id e. ground (arith, e)) db.jobs h)
          h);
}

-- Between the two inserts of a new job, that job alone may lack a download.
abbrev ExceptFor : Job → Db → Type 0
ExceptFor new db = All (λ j. ((new.id == j.id) || any (of_job j.id) db.downloads) ≡ true) db.jobs

All-except :
    (ds : List Download) (id : ℕ) (js : List Job)
    → All (λ j. any (of_job j.id) ds ≡ true) js
    → All (λ j. ((id == j.id) || any (of_job j.id) ds) ≡ true) js
All-except ds id [] h = tt
All-except ds id (j ∷ js) (h, hs) = (ground (arith, h), All-except ds id js hs)

create_job-ExceptFor : (p : CreateJobParams) → Ensures NoOrphans (create_job p) ExceptFor
unfolding create_job
create_job-ExceptFor p db h j e = elim (Bool-cases (any (has_key p.storage_key) db.jobs)) [
  | inl dup ↦ cc (rw dup at e)
  | inr new ↦ elim (Bool-cases (node_exists p.node_id db.nodes)) [
    | inr gone ↦ cc (rw (new, gone) at e)
    | inl there ↦
        let made : ok (new_job p db) ≡ ok j = rw (new, there) at e in
        let same : db.next_id ≡ j.id = ground (arith, made) in
        rw (new, there) (ground (arith, same), All-except db.downloads j.id db.jobs h)
  ]
]

create_download-NoOrphans :
    (user : ℕ) (j : Job) → Ensures (ExceptFor j) (create_download user j.id) (λ _ db. NoOrphans db)
unfolding create_download
create_download-NoOrphans user j db h d e =
    elim (Bool-cases (any (of_user_job user j.id) db.downloads)) [
      | inl dup ↦ cc (rw dup at e)
      | inr new ↦ elim (Bool-cases (any (λ u. u == user) db.users && any (has_id j.id) db.jobs)) [
        | inr gone ↦ cc (rw (new, gone) at e)
        | inl there ↦ rw (new, there) h
      ]
    ]

pub NoOrphans-create_new :
    (env : Env) (req : AddDownloadRequest) (node key : Text)
    → Preserves (create_new env req node key) (OnDb NoOrphans)
unfolding create_new
NoOrphans-create_new env req node key = Preserves-transaction NoOrphans _ (
    Ensures-bind (OnDb NoOrphans) (λ j. OnDb (ExceptFor j)) (λ _. OnDb NoOrphans) _ _
      (Ensures-query NoOrphans ExceptFor _ (create_job-ExceptFor _))
      (λ j.
        Ensures-bind (OnDb (ExceptFor j)) (λ _. OnDb NoOrphans) (λ _. OnDb NoOrphans) _ _
          (Ensures-query (ExceptFor j) (λ _ db. NoOrphans db) _
            (create_download-NoOrphans req.user_id j))
          (λ d. Ensures-pure (OnDb NoOrphans) (j.id, d.id))))
