-- ===== src/Api/Downloads/Shown.antt =====
-- What the handlers show of a download, against the service.
use opendebrid.Prelude.{
  ℕ, ◌^◌, ◌+◌, ◌<◌, ◌≡◌, refl, sym, ap, ◌∙◌, Bool, true, false, Option, none, some, List, Text,
  length, ltb, arith, if◌then◌else◌,
}
use opendebrid.Prelude.Exec.{Result, ok, err}
use opendebrid.Api.Accounts.{Http, answered, refused}
use opendebrid.Api.Downloads.{
  in_int32, DownloadDto, Page, to_download_dto, running_dto, whole, engine_filter, listed, list,
  answer, eta_of,
}
use opendebrid.Database.Downloads.{DownloadRow}
use opendebrid.Database.Model.{is_completed}
use opendebrid.Service.Links.{compute_eta}
use opendebrid.Service.Listing.{
  DownloadWithStatus, rows_for, list_downloads, size_or_zero, list_with_status,
}
use opendebrid.Service.Listing.Pages.{list_with_status-total}
use opendebrid.World.{World, calm}

eta_of-compute_eta :
    (size : Option ℕ) (downloaded speed : ℕ)
    → eta_of size downloaded speed ≡ compute_eta (size_or_zero size) downloaded speed
unfolding compute_eta
eta_of-compute_eta none downloaded speed = ground arith
eta_of-compute_eta (some n) downloaded speed = ground arith

-- The remaining time that a handler shows is the one the service computes for the same row, and 0 for a
-- completed job.
pub to_download_dto-compute_eta :
    (r : DownloadRow)
    → (to_download_dto r).eta ≡ (
        if is_completed r.job.status
        then 0
        else compute_eta (size_or_zero r.job.size) r.job.downloaded_size r.job.speed)
unfolding to_download_dto
to_download_dto-compute_eta r = by_case (is_completed r.job.status)
  where
    by_case :
        (b : Bool)
        → (if b
            then record (running_dto r) {
              progress = 1000000;
              speed = 0;
              downloaded_size = whole r.job.size;
            }
            else record (running_dto r) {
              eta = eta_of r.job.size r.job.downloaded_size r.job.speed;
            }).eta
          ≡ (if b
              then 0
              else compute_eta (size_or_zero r.job.size) r.job.downloaded_size r.job.speed)
    by_case true = refl
    by_case false = eta_of-compute_eta r.job.size r.job.downloaded_size r.job.speed

has_more_of : Http (Page DownloadDto) → Bool
has_more_of (answered p) = p.has_more
has_more_of (refused s) = false

-- The rows behind a page are counted by the total of the page.
behind :
    (limit offset n total : ℕ)
    → 0 < limit
    → total ≡ (if ltb offset n then n else 0)
    → ltb (offset + limit) total ≡ ltb (offset + limit) n
behind limit offset n total some_limit e = rw e (ground (arith, some_limit))

in_int32-small : (n : ℕ) → n < 2 ^ 31 → in_int32 n ≡ some n
unfolding in_int32
in_int32-small n h = ground (arith, h)

list-small :
    (user : ℕ) (engine : Text) (limit offset : ℕ) (w : World)
    → limit < 2 ^ 31
    → offset < 2 ^ 31
    → list user engine limit offset w
      ≡ answer 500
          (listed limit offset)
          (list_with_status user (engine_filter engine) limit offset w)
unfolding list
list-small user engine limit offset w h k =
    rw (in_int32-small limit h) (rw (in_int32-small offset k) refl)

-- Of a database that does not change, a page of a positive size, with a limit and an offset below 2^31, says
-- that more follows exactly where rows of the listing lie behind it.
pub list-has_more :
    (user : ℕ) (engine : Text) (limit offset : ℕ) (w : World) (page : Page DownloadDto)
    → 0 < limit
    → limit < 2 ^ 31
    → offset < 2 ^ 31
    → (list user engine limit offset (calm w)).0 ≡ answered page
    → page.has_more ≡ ltb (offset + limit) (length (rows_for user (engine_filter engine) w.db))
unfolding list_with_status has_more_of listed list_downloads
list-has_more user engine limit offset w page some_limit h k e =
    by_result (list_with_status user (engine_filter engine) limit offset (calm w)).0 refl
      (sym (ap (λ r. r.0) (list-small user engine limit offset (calm w) h k)) ∙ e)
  where
    rows : List DownloadRow
    rows = rows_for user (engine_filter engine) w.db

    by_result :
        (r : Result (List DownloadWithStatus × ℕ))
        → (list_with_status user (engine_filter engine) limit offset (calm w)).0 ≡ r
        → (answer 500 (listed limit offset) (r, calm w)).0 ≡ answered page
        → page.has_more ≡ ltb (offset + limit) (length rows)
    by_result (ok (shown, total)) h e =
        sym (ap has_more_of e)
        ∙ behind limit offset (length rows) total some_limit (
            list_with_status-total user (engine_filter engine) limit w offset shown total some_limit
              h)
    by_result (err x) h e = absurd (cc)
