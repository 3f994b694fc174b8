-- ===== src/Service/Listing/Pages.antt =====
-- What the pages of a listing hold together.
use opendebrid.Prelude.{
  ℕ, zero, suc, ◌+◌, ◌*◌, ◌≤◌, ◌<◌, ◌≡◌, refl, sym, ap, ◌∙◌, Option, List, [], ◌∷◌, ◌++◌, map, Text,
  length, take, drop, ltb, arith, if◌then◌else◌,
}
use opendebrid.Prelude.Exec.{Result, ok, err}
use opendebrid.Database.Downloads.{DownloadRow}
use opendebrid.Service.Listing.{
  rows_for, with_total, list_downloads, DownloadWithStatus, with_status, total_of, list_with_status,
}
use opendebrid.World.{World, calm}

-- Page after page, `n` of them, of a database that does not change.
abbrev pub pages : ℕ → Option Text → ℕ → ℕ → ℕ → World → List DownloadWithStatus
pages user engine limit offset zero w = []
pages user engine limit offset (suc n) w =
    rows_in (list_with_status user engine limit offset w).0
    ++ pages user engine limit (offset + limit) n w
  where
    rows_in : Result (List DownloadWithStatus × ℕ) → List DownloadWithStatus
    rows_in (ok p) = p.0
    rows_in (err e) = []

module _ {A : Type 0} where
  drop_nil : (k : ℕ) → drop {A = A} k [] ≡ []
  drop_nil zero = refl
  drop_nil (suc k) = refl

  take_nil : (k : ℕ) → take {A = A} k [] ≡ []
  take_nil zero = refl
  take_nil (suc k) = refl

  drop-drop : (m n : ℕ) (xs : List A) → drop (m + n) xs ≡ drop n (drop m xs)
  drop-drop zero n xs = let e : 0 + n ≡ n = omega arith in rw e refl
  drop-drop (suc m) n [] = drop_nil (suc m + n) ∙ sym (drop_nil n)
  drop-drop (suc m) n (x ∷ xs) =
      let e : suc m + n ≡ suc (m + n) = omega arith in rw e (drop-drop m n xs)

  take_add : (m n : ℕ) (xs : List A) → take m xs ++ take n (drop m xs) ≡ take (m + n) xs
  take_add zero n xs = let e : 0 + n ≡ n = omega arith in rw e refl
  take_add (suc m) n [] = take_nil n ∙ sym (take_nil (suc m + n))
  take_add (suc m) n (x ∷ xs) =
      let e : suc m + n ≡ suc (m + n) = omega arith in rw e (ap (λ t. x ∷ t) (take_add m n xs))

  take_all : (n : ℕ) (xs : List A) → length xs ≤ n → take n xs ≡ xs
  take_all zero [] h = refl
  take_all zero (x ∷ xs) h = absurd (omega (arith, h))
  take_all (suc n) [] h = refl
  take_all (suc n) (x ∷ xs) h = ap (λ t. x ∷ t) (take_all n xs (omega (arith, h)))

map-append : {A B : Type 0} (f : A → B) (xs ys : List A) → map f (xs ++ ys) ≡ map f xs ++ map f ys
map-append f [] ys = refl
map-append f (x ∷ xs) ys = ap (λ t. f x ∷ t) (map-append f xs ys)

-- What the listing shows of a row.
abbrev pub shown : DownloadRow → DownloadWithStatus
shown r = with_status (with_total 0 r)

map-shown : (n : ℕ) (rs : List DownloadRow) → map with_status (map (with_total n) rs) ≡ map shown rs
map-shown n [] = refl
map-shown n (r ∷ rs) = ap (λ t. shown r ∷ t) (map-shown n rs)

total_of-page :
    (n limit offset : ℕ) (rs : List DownloadRow)
    → 0 < limit
    → total_of (map (with_total n) (take limit (drop offset rs)))
      ≡ (if ltb offset (length rs) then n else 0)
total_of-page n zero offset rs h = absurd (omega (arith, h))
total_of-page n (suc limit) zero [] h = refl
total_of-page n (suc limit) zero (r ∷ rs) h = ground arith
total_of-page n (suc limit) (suc offset) [] h = ground arith
total_of-page n (suc limit) (suc offset) (r ∷ rs) h =
    total_of-page n (suc limit) offset rs h ∙ ground arith

abbrev total_in : Result (List DownloadWithStatus × ℕ) → ℕ
total_in (ok p) = p.1
total_in (err e) = 0

module _ (user : ℕ) (engine : Option Text) (limit : ℕ) (w : World) where
  pages-take :
      (n offset : ℕ)
      → pages user engine limit offset n (calm w)
        ≡ map shown (take (n * limit) (drop offset (rows_for user engine w.db)))
  unfolding list_with_status list_downloads
  pages-take zero offset = let e : 0 * limit ≡ 0 = omega arith in rw e refl
  pages-take (suc n) offset =
      let all = rows_for user engine w.db in
      ap (λ t. t ++ pages user engine limit (offset + limit) n (calm w))
        (map-shown (length all) (take limit (drop offset all)))
      ∙ (ap (λ t. map shown (take limit (drop offset all)) ++ t)
            (pages-take n (offset + limit)
              ∙ ap (λ t. map shown (take (n * limit) t)) (drop-drop offset limit all))
          ∙ (sym (
                map-append shown (take limit (drop offset all))
                  (take (n * limit) (drop limit (drop offset all))))
              ∙ (ap (map shown) (take_add limit (n * limit) (drop offset all))
                  ∙ (let e : limit + n * limit ≡ suc n * limit = ground arith in
                      ap (λ k. map shown (take k (drop offset all))) e))))

  -- Enough pages from the first on hold each of the rows once, in the order of the listing.
  pub pages-all :
      (n : ℕ)
      → length (rows_for user engine w.db) ≤ n * limit
      → pages user engine limit 0 n (calm w) ≡ map shown (rows_for user engine w.db)
  pages-all n enough =
      pages-take n 0 ∙ ap (map shown) (take_all (n * limit) (rows_for user engine w.db) enough)

  -- The total that a page gives is that of all rows, but 0 where the page lies behind the last row.
  pub list_with_status-total :
      (offset : ℕ) (page : List DownloadWithStatus) (total : ℕ)
      → 0 < limit
      → (list_with_status user engine limit offset (calm w)).0 ≡ ok (page, total)
      → total ≡ (
          if ltb offset (length (rows_for user engine w.db))
          then length (rows_for user engine w.db)
          else 0)
  unfolding list_with_status list_downloads
  list_with_status-total offset page total some_limit e =
      let all = rows_for user engine w.db in
      sym (ap total_in e) ∙ total_of-page (length all) limit offset all some_limit
