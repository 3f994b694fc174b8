-- ===== src/Tests/Remote.antt =====
-- Remote nodes, runs of yt-dlp and the API's listings at concrete inputs.
use opendebrid.Prelude.{
  ℕ, ◌+◌, ◌≡◌, refl, false, Option, none, some, List, [], ◌∷◌, Text, codes, eq_text, length, ltb,
  has_prefix, arith, if◌then◌else◌,
}
use opendebrid.Prelude.Exec.{Err, ok, err, remote, unavailable}
use opendebrid.Api.Accounts.{Http, answered, refused}
use opendebrid.Api.Downloads.{DownloadDto, Page, list, engine_filter}
use opendebrid.Api.Downloads.Shown.{list-has_more}
use opendebrid.Api.Nodes.{delete}
use opendebrid.Api.Nodes.Deleted.{Deletion, delete-Deletion}
use opendebrid.Engine.Aria2.Calls.{option_in, job_options}
use opendebrid.Engine.Aria2.Calls.Directory.{chosen_or, last_option, option_in-job_options}
use opendebrid.Engine.Ytdlp.{new_entry}
use opendebrid.Engine.Ytdlp.Runner.{Floats, int64, begun, on_lines}
use opendebrid.Engine.Ytdlp.Runner.Totals.{add_up, last_or, sizes_in, on_lines-total}
use opendebrid.Node.Remote.{delivered, grpc_cancel_job, remote_dispatch_job, remote_cancel_job}
use opendebrid.Node.Remote.Same.{
  reply_of, unwrapped, cancel_request, settle-remote_dispatch_job, remote_cancel_job-ignored,
}
use opendebrid.Node.Server.{Engine, NodeServer, dispatch_job, cancel_job}
use opendebrid.Service.Add.{settle}
use opendebrid.Service.Listing.{rows_for, list_with_status, list_downloads}
use opendebrid.Storage.Path.{join}
use opendebrid.World.{World, DispatchRequest, JobRef, calm}
use opendebrid.Tests.Data.{n1, db1, world1}
use opendebrid.Tests.Downloads.{env1, node1}

-- An engine that does nothing.
abbrev lost_engine : Engine
lost_engine = record {
  download_dir = codes "/data/aria2";
  add_job = λ r. err unavailable;
  list_files = λ k i. err unavailable;
  cancel = λ i. err unavailable;
  remove_files = λ k i. err unavailable;
}

abbrev lost_server : NodeServer
lost_server = record {
  registry = λ e. if eq_text e (codes "aria2") then some lost_engine else none;
  download_dir = codes "/data";
}

abbrev errors2 : Err → Text
errors2 e = codes "e"

-- The request names a directory of its own.
abbrev dispatch2 : DispatchRequest
dispatch2 = record {
  job_id = 2;
  engine = codes "aria2";
  url = codes "http://h/f";
  storage_key = codes "k";
  options = (codes "dir", codes "/etc") ∷ [];
}

abbrev ref2 : JobRef
ref2 = record {
  engine = codes "aria2";
  job_id = some 2;
  storage_key = codes "k";
  engine_job_id = codes "g2";
}

abbrev errors3 : Err → Text
errors3 (remote m) = m
errors3 e = codes "e"

-- The engine cannot be reached.
settle-remote_dispatch_job_example :
    settle env1 n1
      (2, 11)
      (reply_of errors3 (remote_dispatch_job errors3 lost_server delivered dispatch2 []).0)
    ≡ settle env1 n1
        (2, 11)
        (unwrapped env1 (reply_of errors3 (dispatch_job errors3 lost_server dispatch2 []).0))
unfolding has_prefix
settle-remote_dispatch_job_example =
    settle-remote_dispatch_job errors3 (λ m. refl) refl env1 lost_server n1 (2, 11) dispatch2 []

remote_cancel_job-ignored_example :
    (grpc_cancel_job errors2 lost_server (cancel_request ref2) []
      ≡ (ok (record { acknowledged = false; message = codes "e" }), []))
    × (remote_cancel_job errors2 lost_server delivered ref2 [] ≡ (ok tt, []))
unfolding cancel_job eq_text
remote_cancel_job-ignored_example =
    remote_cancel_job-ignored errors2 lost_server ref2 [] unavailable refl

option_in-job_options_example :
    option_in (codes "dir") (job_options (codes "/data") [] dispatch2)
    ≡ chosen_or
        (last_option (codes "dir") dispatch2.options)
        (some (join (codes "/data") (codes "k")))
option_in-job_options_example = option_in-job_options (codes "/data") [] dispatch2

abbrev naturals : Floats
naturals = record {
  Float = ℕ;
  parse_float = λ t. none;
  of_nat = λ n. n;
  of_int64 = λ n. n;
  mul = λ m n. m;
  div = λ m n. m;
  to_int = λ n. n;
  millionths = λ n. n;
}

-- Two tracks.
abbrev output1 : List Text
output1 =
    codes "OPENDEBRID_NAME=v"
    ∷ codes "OPENDEBRID_SIZE=7"
    ∷ codes "[Merger]"
    ∷ codes "OPENDEBRID_SIZE=5"
    ∷ []

abbrev no_match : Text → Option (Text × Text × Text)
no_match t = none

on_lines-total_example :
    let r = on_lines naturals no_match output1 (begun (new_entry (codes "u"))) in
    (r.entry.total_size ≡ int64 (add_up (sizes_in output1)))
    × (r.current_announced ≡ last_or 0 (sizes_in output1))
    × (int64 (r.completed_bytes + r.current_announced) ≡ r.entry.total_size)
on_lines-total_example = on_lines-total naturals no_match output1 (new_entry (codes "u")) refl

-- The node is offline.
abbrev world4 : World
world4 = record world1 { db = record db1 { nodes = record node1 { is_online = false } ∷ [] } }

delete-Deletion_example : let r = delete n1 world4 in Deletion n1 world4.db r.0 r.1.db
delete-Deletion_example = delete-Deletion n1 world4

abbrev empty_page : Page DownloadDto
empty_page = record { items = []; total = 0; limit = 1; offset = 0; has_more = false }

abbrev shown_page : Http (Page DownloadDto) → Page DownloadDto
shown_page (answered p) = p
shown_page (refused status) = empty_page

abbrev page1 : Page DownloadDto
unfolding list
page1 = shown_page (list 7 [] 1 0 (calm world1)).0

list-has_more_example :
    page1.has_more ≡ ltb (0 + 1) (length (rows_for 7 (engine_filter []) world1.db))
unfolding list list_with_status list_downloads
list-has_more_example =
    list-has_more 7 [] 1 0 world1 page1 (omega arith) (omega arith) (omega arith) refl
