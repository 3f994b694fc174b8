-- ===== src/Database/Lifecycle/History.antt =====
-- What stands behind an inactive job.
use opendebrid.Prelude.{◌≡◌, ◌⊎◌, refl, ap, ◌∙◌, List, [], ◌∷◌, ◌++◌, In, inl, inr}
use opendebrid.Database.Lifecycle.{
  Write, write, writes, Move, stay, start, complete, give_up, sleep, retry_failed, retry_inactive,
}
use opendebrid.Database.Lifecycle.Evolved.{Follows, write-Evolves}
use opendebrid.Database.Model.{Status, queued, completed, inactive, Job, Db}

-- The row of the job among the jobs, in a state.
abbrev pub Had : Db → Job → Status → Type 0
Had db j' s =
    (j : Job) × In j db.jobs × (j.status ≡ s) × (j'.id ≡ j.id) × (j'.storage_key ≡ j.storage_key)

-- Some of the writes, from the first on, lead to a table in which the job is completed.
abbrev pub WasCompleted : List Write → Db → Job → Type 0
WasCompleted qs db j =
    (before : List Write) × (after : List Write) × (qs ≡ before ++ after)
    × Had (writes before db) j completed

into_inactive : (s s' : Status) → Move s s' → s' ≡ inactive → (s ≡ inactive) ⊎ (s ≡ completed)
into_inactive s s' stay e = inl e
into_inactive s s' start e = absurd (cc)
into_inactive s s' complete e = absurd (cc)
into_inactive s s' give_up e = absurd (cc)
into_inactive s s' sleep e = inr refl
into_inactive s s' retry_failed e = absurd (cc)
into_inactive s s' retry_inactive e = absurd (cc)

-- One write further back.
earlier :
    (q : Write) (qs : List Write) (db : Db) (j' : Job)
    → Had (write q db) j' inactive
    → Had db j' inactive ⊎ WasCompleted (q ∷ qs) db j'
earlier q qs db j' (j, m, s, i, k) = go (write-Evolves q db j m)
  where
    go :
        ((x : Job) × In x db.jobs × Follows x j) ⊎ ((j.id ≡ db.next_id) × (j.status ≡ queued))
        → Had db j' inactive ⊎ WasCompleted (q ∷ qs) db j'
    go (inr (n, new)) = absurd (cc)
    go (inl (x, m', f)) = elim (into_inactive x.status j.status f.move s) [
      | inl e ↦ inl (x, m', e, i ∙ f.same_id, k ∙ f.same_key)
      | inr e ↦ inr ([], q ∷ qs, refl, (x, m', e, i ∙ f.same_id, k ∙ f.same_key))
    ]

writes-history :
    (qs : List Write) (db : Db) (j : Job)
    → In j (writes qs db).jobs
    → j.status ≡ inactive
    → Had db j inactive ⊎ WasCompleted qs db j
writes-history [] db j m e = inl (j, m, e, refl, refl)
writes-history (q ∷ qs) db j m e = elim (writes-history qs (write q db) j m e) [
  | inl had ↦ earlier q qs db j had
  | inr (before, after, p, had) ↦ inr (q ∷ before, after, ap (λ rest. q ∷ rest) p, had)
]

-- Whatever the queries on jobs and nodes write, from an empty table of jobs on, with any time passing in
-- between: an inactive job was completed at some point on the way, with the same id and storage key.
pub writes-WasCompleted :
    (qs : List Write) (db : Db) (j : Job)
    → db.jobs ≡ []
    → In j (writes qs db).jobs
    → j.status ≡ inactive
    → WasCompleted qs db j
writes-WasCompleted qs db j none_yet m e = elim (writes-history qs db j m e) [
  | inl (x, n, s, i, k) ↦ absurd (rw none_yet at n)
  | inr was ↦ was
]
