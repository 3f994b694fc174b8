-- ===== src/Service/Delete/Others.antt =====
-- `Delete` (internal/core/service/download.go) and the downloads of other users.
use opendebrid.Prelude.{
  ℕ, ◌≤◌, ◌≡◌, refl, ap, Bool, true, false, not, Option, none, some, List, [], ◌∷◌, ◌==◌, leb, find,
  find-test, select, count_where, In, arith, Bool-cases, Option-cases, inl, inr,
}
use opendebrid.Prelude.Exec.{continue, Preserves, Preserves-bind}
use opendebrid.Database.Model.{Download, Db, one_row}
use opendebrid.Database.Jobs.{has_id, of_job, delete_job}
use opendebrid.Database.Downloads.{
  CountRow, owned, join, counted, delete_download, get_download_with_job_and_count,
}
use opendebrid.Service.Delete.{delete, delete_counted, clean_up}
use opendebrid.World.{World, OnDb, query, run_query, Preserves-query}

module _ {A : Type 0} where
  In-select : (t : A → Bool) (a : A) (xs : List A) → t a ≡ true → In a xs → In a (select t xs)
  In-select t a [] h m = absurd m
  In-select t a (x ∷ xs) h (inl e) = rw (← e, h) (inl refl)
  In-select t a (x ∷ xs) h (inr m) = elim (Bool-cases (t x)) [
    | inl e ↦ rw e (inr (In-select t a xs h m))
    | inr e ↦ rw e (In-select t a xs h m)
  ]

  count_where-pos :
      (p : A → Bool) (a : A) (xs : List A) → p a ≡ true → In a xs → 1 ≤ count_where p xs
  count_where-pos p a [] h m = absurd m
  count_where-pos p a (x ∷ xs) h (inl e) = ground (arith, ap p e)
  count_where-pos p a (x ∷ xs) h (inr m) = ground (arith, count_where-pos p a xs h m)

  head_found :
      (t : A → Bool) (a x : A) (xs : List A) → find t (x ∷ xs) ≡ some a → t x ≡ true → x ≡ a
  head_found t a x xs f h = ground (arith, h)

  count_where-found :
      (p t : A → Bool) (a : A) (xs : List A)
      → find t xs ≡ some a
      → p a ≡ true
      → 1 ≤ count_where p xs
  count_where-found p t a [] f h = cc
  count_where-found p t a (x ∷ xs) f h = elim (Bool-cases (t x)) [
    | inl e ↦ ground (arith, head_found t a x xs f e, ap p (head_found t a x xs f e))
    | inr e ↦ ground (arith, count_where-found p t a xs (rw e at f) h)
  ]

  -- The first row that passes a test, and a row that does not, are two.
  count_where-two :
      (p t : A → Bool) (a b : A) (xs : List A)
      → find t xs ≡ some a
      → t b ≡ false
      → In b xs
      → p a ≡ true
      → p b ≡ true
      → 2 ≤ count_where p xs
  count_where-two p t a b [] f n m pa pb = absurd m
  count_where-two p t a b (x ∷ xs) f n (inl e) pa pb =
      ground (arith, ap p e, ap t e, count_where-found p t a xs)
  count_where-two p t a b (x ∷ xs) f n (inr m) pa pb = elim (Bool-cases (t x)) [
    | inl h ↦ ground (
      arith,
      head_found t a x xs f h,
      ap p (head_found t a x xs f h),
      count_where-pos p b xs pb m,
    )
    | inr h ↦ ground (arith, count_where-two p t a b xs (rw h at f) n m pa pb)
  ]

module _ (id user : ℕ) (d : Download) (other : (d.user_id == user) ≡ false) where
  -- A row that counts one download is of another job.
  row-other :
      (db : Db) (o : Option Download)
      → find (owned id user) db.downloads ≡ o
      → In d db.downloads
      → (row : CountRow) → counted db (join db o) ≡ some row
      → leb row.download_count 1 ≡ true
      → of_job row.job.id d ≡ false
  row-other db none e m row h le = cc
  row-other db (some a) e m row h le = elim (Option-cases (find (has_id a.job_id) db.jobs)) [
    | inl n ↦ cc (rw (n, join, counted) at h)
    | inr (j, f) ↦ elim (Bool-cases (of_job row.job.id d)) [
      | inr differs ↦ differs
      | inl same ↦ ground (
        arith,
        rw (f, join, counted) at h,
        find-test (has_id a.job_id) db.jobs j f,
        count_where-two (of_job a.job_id) (owned id user) a d db.downloads e,
      )
    ]
  ]

  -- Neither the deletion of a row with its job nor that of the download alone takes another's download.
  Preserves-delete_job :
      (job : ℕ) → of_job job d ≡ false → Preserves (delete_job job) (λ (db : Db). In d db.downloads)
  unfolding delete_job
  Preserves-delete_job job h = record {
    after = λ db m. In-select (λ x. not (of_job job x)) d db.downloads (ap not h) m;
  }

  Preserves-delete_download :
      (d.id == id) ≡ false → Preserves (delete_download id) (λ (db : Db). In d db.downloads)
  unfolding delete_download
  Preserves-delete_download h = record {
    after = λ db m. In-select (λ x. not (x.id == id)) d db.downloads (ap not h) m;
  }

  Preserves-delete_counted :
      (has_storage : Bool) (row : CountRow)
      → (d.id == id) ≡ false
      → (leb row.download_count 1 ≡ true → of_job row.job.id d ≡ false)
      → Preserves (delete_counted has_storage id row) (OnDb (λ (db : Db). In d db.downloads))
  Preserves-delete_counted has_storage row h k = elim (Bool-cases (leb row.download_count 1)) [
    | inl last ↦ rw last (
        Preserves-bind (OnDb (λ (db : Db). In d db.downloads)) (λ _. clean_up has_storage row.job)
          (λ _. record { after = λ w m. m }) (query (delete_job row.job.id))
          (Preserves-query (λ (db : Db). In d db.downloads) (delete_job row.job.id)
            (Preserves-delete_job row.job.id (k last))))
    | inr more ↦ rw more (
        Preserves-query (λ (db : Db). In d db.downloads) (delete_download id)
          (Preserves-delete_download h))
  ]

  found-delete :
      (has_storage : Bool) (w : World)
      → (d.id == id) ≡ false
      → In d w.db.downloads
      → (o : Option CountRow) → counted w.db (join w.db (find (owned id user) w.db.downloads)) ≡ o
      → In d (continue (one_row o) (delete_counted has_storage id) w).1.db.downloads
  found-delete has_storage w h m none e = m
  found-delete has_storage w h m (some row) e =
      (Preserves-delete_counted has_storage row h
          (row-other w.db (find (owned id user) w.db.downloads) refl m row e)).after
        w m

  -- The id is the primary key: the row is the only one with its id.
  abbrev pub OneOfItsId : Db → Type 0
  OneOfItsId db = (x : Download) → In x db.downloads → (x.id == d.id) ≡ true → x ≡ d

  -- A user who names the download of another finds none.
  none-owned :
      (ds : List Download)
      → (d.id == id) ≡ true
      → ((x : Download) → In x ds → (x.id == d.id) ≡ true → x ≡ d)
      → find (owned id user) ds ≡ none
  none-owned [] same one = refl
  none-owned (x ∷ ds) same one =
      let rest = none-owned ds same (λ y m. one y (inr m)) in
      elim (Bool-cases (owned id user x)) [
        | inr e ↦ rw e rest
        | inl e ↦
            let is_d : x ≡ d = one x (inl refl) (ground (arith, e, same)) in
            absurd (ground (arith, e, other, ap (λ (y : Download). y.user_id) is_d))
      ]

  deleted_other :
      (has_storage : Bool) (w : World)
      → In d w.db.downloads
      → OneOfItsId w.db
      → In d
          (continue
            (one_row (counted w.db (join w.db (find (owned id user) w.db.downloads))))
            (delete_counted has_storage id)
            w).1.db.downloads
  deleted_other has_storage w m one = elim (Bool-cases (d.id == id)) [
    | inr h ↦ found-delete has_storage w h m _ refl
    | inl h ↦ rw (none-owned w.db.downloads h one) m
  ]

  -- Whatever queries are lost and whichever id is named, also that of another's download: a user who deletes
  -- a download takes no download of another user. Ids are to be unique among downloads.
  pub delete-others :
      (has_storage : Bool) (w : World)
      → In d w.db.downloads
      → OneOfItsId w.db
      → In d (delete has_storage id user w).1.db.downloads
  unfolding delete get_download_with_job_and_count
  delete-others has_storage w m one = go w.faults
    where
      go :
          (fs : List Bool)
          → In d
              (continue
                (run_query fs (get_download_with_job_and_count id user) w).0
                (delete_counted has_storage id)
                (run_query fs (get_download_with_job_and_count id user) w).1).1.db.downloads
      go [] = deleted_other has_storage w m one
      go (true ∷ fs) = m
      go (false ∷ fs) = deleted_other has_storage (record w { faults = fs }) m one
