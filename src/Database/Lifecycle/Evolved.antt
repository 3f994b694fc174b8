-- ===== src/Database/Lifecycle/Evolved.antt =====
-- What a write does to the status of a job.
use opendebrid.Prelude.{
  ℕ, suc, ◌≡◌, ◌⊎◌, refl, sym, ap, subst, Bool, true, false, not, Option, none, some, List, [], ◌∷◌,
  map, Text, eq_text, any, find, update_where, In, In-of-select, arith, if◌then◌else◌, Bool-cases,
  inl, inr,
}
use opendebrid.Database.Batches.{
  Progress, Failure, progressed, apply_progress, progress_for, completed_by, apply_complete,
  lacks_size, batch_complete_jobs, failed_by, apply_failure, failure_for,
}
use opendebrid.Database.Jobs.{
  CreateJobParams, create_job, has_id, has_key, node_exists, new_job, can_reset, reset_job,
  completed_local_on,
}
use opendebrid.Database.Lifecycle.{
  Write, write, Move, stay, start, complete, give_up, sleep, retry_failed, retry_inactive, create,
  accept, reject, fail, start_again, delete, node_lost, node_deleted, node_asleep, node_back,
  restore_keys, fail_missing, restore_stale, report_progress, report_completed, report_failed,
  claim_uploads, finish_upload, set_upload, reset_uploads, time_passes, register, beat, set_offline,
  mark_stale, remove_node,
}
use opendebrid.Database.Model.{
  Status, queued, active, completed, failed, inactive, is_completed, is_resettable, Job, Node, Db,
}

-- The same job, with a move of its status.
pub record Follows (j j' : Job) : Type 0 where
  pub same_id : j'.id ≡ j.id
  pub same_key : j'.storage_key ≡ j.storage_key
  pub move : Move j.status j'.status

-- Each job of the later table follows one of the earlier, or is new and queued.
abbrev pub Evolves : Db → Db → Type 0
Evolves db db' =
    (j' : Job)
    → In j' db'.jobs
    → ((j : Job) × In j db.jobs × Follows j j') ⊎ ((j'.id ≡ db.next_id) × (j'.status ≡ queued))

same_job : (j : Job) → Follows j j
same_job j = record { same_id = refl; same_key = refl; move = stay }

In-of-update_where :
    (t : Job → Bool) (f : Job → Job) (js : List Job) (j' : Job)
    → In j' (update_where t f js)
    → (j : Job) × In j js × (j' ≡ (if t j then f j else j))
In-of-update_where t f [] j' m = absurd m
In-of-update_where t f (x ∷ js) j' (inl e) = (x, inl refl, e)
In-of-update_where t f (x ∷ js) j' (inr m) =
    let (j, n, e) = In-of-update_where t f js j' m in (j, inr n, e)

In-of-map :
    (f : Job → Job) (js : List Job) (j' : Job) → In j' (map f js) → (j : Job) × In j js × (j' ≡ f j)
In-of-map f [] j' m = absurd m
In-of-map f (x ∷ js) j' (inl e) = (x, inl refl, e)
In-of-map f (x ∷ js) j' (inr m) = let (j, n, e) = In-of-map f js j' m in (j, inr n, e)

Evolves-update_where :
    (t : Job → Bool) (f : Job → Job) (db : Db)
    → ((j : Job) → t j ≡ true → Follows j (f j))
    → Evolves db (record db { jobs = update_where t f db.jobs })
Evolves-update_where t f db h j' m =
    let (j, n, e) = In-of-update_where t f db.jobs j' m in
    inl (j, n, subst (Follows j) (sym e) (one j))
  where
    one : (j : Job) → Follows j (if t j then f j else j)
    one j = elim (Bool-cases (t j)) [ inl e ↦ rw e (h j e) | inr e ↦ rw e (same_job j) ]

Evolves-map :
    (f : Job → Job) (db : Db)
    → ((j : Job) → Follows j (f j))
    → Evolves db (record db { jobs = map f db.jobs })
Evolves-map f db h j' m =
    let (j, n, e) = In-of-map f db.jobs j' m in inl (j, n, subst (Follows j) (sym e) (h j))

Evolves-same : (db : Db) → Evolves db db
Evolves-same db j m = inl (j, m, same_job j)

-- Where a query is made or refused.
Evolves-if :
    (b : Bool) (db x y : Db)
    → (b ≡ true → Evolves db x)
    → (b ≡ false → Evolves db y)
    → Evolves db (if b then x else y)
Evolves-if true db x y h k = h refl
Evolves-if false db x y h k = k refl

Follows-progressed : (clock : ℕ) (o : Option Progress) (j : Job) → Follows j (progressed clock o j)
Follows-progressed clock none j = same_job j
Follows-progressed clock (some u) j = record { same_id = refl; same_key = refl; move = start }

Follows-completed_by :
    (clock : ℕ) (b : Bool) (o : Option Progress) (j : Job) → Follows j (completed_by clock b o j)
Follows-completed_by clock b none j = same_job j
Follows-completed_by clock b (some u) j = record {
  same_id = refl;
  same_key = refl;
  move = complete;
}

Follows-failed_by : (clock : ℕ) (o : Option Failure) (j : Job) → Follows j (failed_by clock o j)
Follows-failed_by clock none j = same_job j
Follows-failed_by clock (some u) j = record { same_id = refl; same_key = refl; move = give_up }

Move-sleep : (s : Status) → is_completed s ≡ true → Move s inactive
Move-sleep completed h = sleep
Move-sleep queued h = absurd (cc)
Move-sleep active h = absurd (cc)
Move-sleep failed h = absurd (cc)
Move-sleep inactive h = absurd (cc)

Move-retry : (s : Status) → is_resettable s ≡ true → Move s queued
Move-retry failed h = retry_failed
Move-retry inactive h = retry_inactive
Move-retry queued h = absurd (cc)
Move-retry active h = absurd (cc)
Move-retry completed h = absurd (cc)

Evolves-create : (p : CreateJobParams) (db : Db) → Evolves db (create_job p db).1
unfolding create_job
Evolves-create p db = elim (Bool-cases (any (has_key p.storage_key) db.jobs)) [
  | inl e ↦ rw e (Evolves-same db)
  | inr e ↦ elim (Bool-cases (node_exists p.node_id db.nodes)) [
    | inl f ↦ rw (e, f) added
    | inr f ↦ rw (e, f) (Evolves-same db)
  ]
]
  where
    added : Evolves db (record db { jobs = new_job p db ∷ db.jobs; next_id = suc db.next_id })
    added j (inl e) = inr (ap (λ (x : Job). x.id) e, ap (λ (x : Job). x.status) e)
    added j (inr m) = inl (j, m, same_job j)

Evolves-start_again : (id : ℕ) (node url : Text) (db : Db) → Evolves db (reset_job id node url db).1
unfolding reset_job
Evolves-start_again id node url db = elim (Bool-cases (any (can_reset id) db.jobs)) [
  | inr e ↦ rw e (Evolves-same db)
  | inl e ↦ elim (Bool-cases (any (λ (n : Node). eq_text n.id node) db.nodes)) [
    | inr f ↦ rw (e, f) (Evolves-same db)
    | inl f ↦
        rw (e, f)
          (Evolves-update_where (can_reset id) _ db (λ j h. record {
            same_id = refl;
            same_key = refl;
            move = Move-retry j.status (ground (arith, h));
          }))
  ]
]

Evolves-completed :
    (upload : Bool) (us : List Progress) (db : Db) → Evolves db (batch_complete_jobs upload us db).1
unfolding batch_complete_jobs
Evolves-completed upload us db = elim (Bool-cases (any (lacks_size us) db.jobs)) [
  | inl e ↦ rw e (Evolves-same db)
  | inr e ↦ rw e (
      Evolves-map (apply_complete db.clock upload us) db
        (λ j. Follows-completed_by db.clock upload (find (progress_for j.id) us) j))
]

-- A write leaves each job its id and storage key; it makes a job inactive only if it was completed, and
-- queues one again only if it had failed or was inactive; and a job that is new is queued, with the next id.
pub write-Evolves : (q : Write) (db : Db) → Evolves db (write q db)
unfolding write
write-Evolves (create p) db = Evolves-create p db
write-Evolves (accept id engine_job location) db =
    Evolves-update_where _ _ db (λ j h. record { same_id = refl; same_key = refl; move = start })
write-Evolves (reject id message) db =
    Evolves-update_where _ _ db (λ j h. record { same_id = refl; same_key = refl; move = give_up })
write-Evolves (fail id message) db =
    Evolves-update_where _ _ db (λ j h. record { same_id = refl; same_key = refl; move = give_up })
write-Evolves (start_again id node url) db = Evolves-start_again id node url db
write-Evolves (delete id) db =
    λ j m. inl (j, (In-of-select (λ j. not (has_id id j)) db.jobs j m).0, same_job j)
write-Evolves (node_lost node) db =
    Evolves-update_where _ _ db (λ j h. record { same_id = refl; same_key = refl; move = give_up })
write-Evolves (node_deleted node) db =
    Evolves-update_where _ _ db (λ j h. record { same_id = refl; same_key = refl; move = give_up })
write-Evolves (node_asleep node) db = Evolves-update_where (completed_local_on node) _ db (λ j h.
    record { same_id = refl; same_key = refl; move = Move-sleep j.status (ground (arith, h)) })
write-Evolves (node_back node) db =
    Evolves-update_where _ _ db (λ j h. record { same_id = refl; same_key = refl; move = complete })
write-Evolves (restore_keys node keys) db =
    Evolves-update_where _ _ db (λ j h. record { same_id = refl; same_key = refl; move = complete })
write-Evolves (fail_missing node) db =
    Evolves-update_where _ _ db (λ j h. record { same_id = refl; same_key = refl; move = give_up })
write-Evolves restore_stale db =
    Evolves-update_where _ _ db (λ j h. record { same_id = refl; same_key = refl; move = complete })
write-Evolves (report_progress us) db =
    Evolves-map (apply_progress db.clock us) db
      (λ j. Follows-progressed db.clock (find (progress_for j.id) us) j)
write-Evolves (report_completed upload us) db = Evolves-completed upload us db
write-Evolves (report_failed us) db =
    Evolves-map (apply_failure db.clock us) db
      (λ j. Follows-failed_by db.clock (find (failure_for j.id) us) j)
write-Evolves (claim_uploads node) db =
    Evolves-update_where _ _ db (λ j h. record { same_id = refl; same_key = refl; move = stay })
write-Evolves (finish_upload uri id) db =
    Evolves-update_where _ _ db (λ j h. record { same_id = refl; same_key = refl; move = stay })
write-Evolves (set_upload status id) db =
    Evolves-update_where _ _ db (λ j h. record { same_id = refl; same_key = refl; move = stay })
write-Evolves (reset_uploads node) db =
    Evolves-update_where _ _ db (λ j h. record { same_id = refl; same_key = refl; move = stay })
write-Evolves (time_passes n) db = λ j m. inl (j, m, same_job j)
write-Evolves (register p) db = λ j m. inl (j, m, same_job j)
write-Evolves (beat node total available) db = λ j m. inl (j, m, same_job j)
write-Evolves (set_offline node) db = λ j m. inl (j, m, same_job j)
write-Evolves (mark_stale interval controller) db = λ j m. inl (j, m, same_job j)
write-Evolves (remove_node node) db =
    Evolves-update_where _ _ db (λ j h. record { same_id = refl; same_key = refl; move = stay })
