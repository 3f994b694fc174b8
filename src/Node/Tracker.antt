-- ===== src/Node/Tracker.antt =====
-- `Tracker` (internal/core/statusloop/statusloop.go): a map from job ids to tracked jobs, as the list of
-- its entries. A new entry comes first.
use opendebrid.Prelude.{
  ℕ, ◌≤◌, ◌≡◌, refl, Bool, not, ◌&&◌, ◌||◌, List, [], ◌∷◌, Text, any, select, update_where,
  count_where, ◌==◌, arith,
}

pub record TrackedJob : Type 0 where
  pub job_id : ℕ
  pub engine : Text
  pub engine_job_id : Text

abbrev pub Tracker : Type 0
Tracker = List TrackedJob

abbrev pub is_job : ℕ → TrackedJob → Bool
is_job id j = j.job_id == id

unfoldable pub remove : ℕ → Tracker → Tracker
remove id t = select (λ j. not (is_job id j)) t

unfoldable pub add : ℕ → Text → Text → Tracker → Tracker
unfolding remove
add id engine engine_job_id t =
    record { job_id = id; engine = engine; engine_job_id = engine_job_id } ∷ remove id t

unfoldable pub update_engine_job_id : ℕ → Text → Tracker → Tracker
update_engine_job_id id engine_job_id t =
    update_where (is_job id) (λ j. record j { engine_job_id = engine_job_id }) t

abbrev pub tracked : ℕ → Tracker → Bool
tracked id t = any (is_job id) t

-- A key has one entry.
abbrev pub IsMap : Tracker → Type 0
IsMap t = (id : ℕ) → count_where (is_job id) t ≤ 1

pub tracked-remove :
    (id k : ℕ) (t : Tracker) → tracked k (remove id t) ≡ (tracked k t && not (k == id))
unfolding remove
tracked-remove id k [] = ground arith
tracked-remove id k (j ∷ t) = ground (arith, tracked-remove id k t)

pub tracked-add :
    (id k : ℕ) (engine e : Text) (t : Tracker)
    → tracked k (add id engine e t) ≡ ((k == id) || tracked k t)
unfolding add
tracked-add id k engine e t = ground (arith, tracked-remove id k t)

pub tracked-update_engine_job_id :
    (id k : ℕ) (e : Text) (t : Tracker) → tracked k (update_engine_job_id id e t) ≡ tracked k t
unfolding update_engine_job_id
tracked-update_engine_job_id id k e [] = refl
tracked-update_engine_job_id id k e (j ∷ t) = ground (arith, tracked-update_engine_job_id id k e t)

count-remove :
    (id k : ℕ) (t : Tracker) → count_where (is_job k) (remove id t) ≤ count_where (is_job k) t
unfolding remove
count-remove id k [] = omega arith
count-remove id k (j ∷ t) = ground (arith, count-remove id k t)

count-remove_self : (id : ℕ) (t : Tracker) → count_where (is_job id) (remove id t) ≡ 0
unfolding remove
count-remove_self id [] = refl
count-remove_self id (j ∷ t) = ground (arith, count-remove_self id t)

count-update :
    (id k : ℕ) (e : Text) (t : Tracker)
    → count_where (is_job k) (update_engine_job_id id e t) ≡ count_where (is_job k) t
unfolding update_engine_job_id
count-update id k e [] = refl
count-update id k e (j ∷ t) = ground (arith, count-update id k e t)

add-IsMap : (id : ℕ) (engine e : Text) (t : Tracker) → IsMap t → IsMap (add id engine e t)
unfolding add
add-IsMap id engine e t h k = ground (arith, h k, count-remove id k t, count-remove_self id t)

-- The operations of the tracker keep one entry for a job.
pub tracker-IsMap :
    (id : ℕ) (engine e : Text) (t : Tracker)
    → IsMap t
    → IsMap (add id engine e t) × IsMap (remove id t) × IsMap (update_engine_job_id id e t)
tracker-IsMap id engine e t h = (
  add-IsMap id engine e t h,
  (λ k. omega (arith, h k, count-remove id k t)),
  λ k. omega (arith, h k, count-update id k e t),
)
