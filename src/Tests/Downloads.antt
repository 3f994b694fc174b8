-- ===== src/Tests/Downloads.antt =====
-- The download service at a concrete database.
use opendebrid.Prelude.{
  refl, true, false, none, some, [], ◌∷◌, codes, eq_text, In, inl, inr, ◌≡◌, ap, ◌==◌, arith,
}
use opendebrid.Prelude.Exec.{ok}
use opendebrid.Database.Model.{Download, Node}
use opendebrid.Service.Keys.{CacheKeyType}
use opendebrid.Service.Env.{Env, refused}
use opendebrid.Service.Add.{AddDownloadRequest, add}
use opendebrid.Service.Add.Orphans.{NoOrphans}
use opendebrid.Service.Add.Whole.{add-NoOrphans}
use opendebrid.Service.Delete.{delete}
use opendebrid.Service.Delete.Others.{delete-others}
use opendebrid.World.{World}
use opendebrid.Tests.Data.{n1, job1, download1, db1, world1}

-- The job of `download1` has a download of the user 8 too.
abbrev shared : Download
shared = record { id = 11; user_id = 8; job_id = 1; created_at = 2 }

abbrev world2 : World
world2 = record world1 { db = record db1 { downloads = download1 ∷ shared ∷ [] } }

-- The user 7 names the download of the user 8.
delete-others_example : In shared (delete true 11 7 world2).1.db.downloads
delete-others_example = delete-others 11 7 shared refl true world2 (inr (inl refl)) one
  where
    one : (x : Download) → In x world2.db.downloads → (x.id == 11) ≡ true → x ≡ shared
    one x (inl e) h = absurd (ground (arith, h, ap (λ (y : Download). y.id) e))
    one x (inr (inl e)) h = e
    one x (inr (inr m)) h = absurd m

abbrev pub env1 : Env
env1 = record {
  known_engine = λ e. eq_text e (codes "aria2");
  resolve_cache_key = λ e u. ok (record { type = CacheKeyType.url; value = u });
  sha256 = λ s. s;
  parse_url = λ s. none;
  parse_engines = λ s. some (s ∷ []);
  dispatch_job = λ calls node r. refused (codes "disk full");
  has_storage = false;
}

abbrev pub node1 : Node
node1 = record {
  id = n1;
  grpc_endpoint = none;
  file_endpoint = codes "http://n1";
  engines = codes "aria2";
  is_controller = false;
  is_online = true;
  disk_total = 100;
  disk_available = 50;
  last_heartbeat = none;
  registered_at = 1;
}

abbrev pub world3 : World
world3 = record world1 { db = record db1 { jobs = job1 ∷ []; nodes = node1 ∷ [] } }

abbrev request1 : AddDownloadRequest
request1 = record {
  url = codes "http://h/g";
  engine = codes "aria2";
  user_id = 7;
  options = [];
  prefer_node = [];
}

add-NoOrphans_example : NoOrphans (add env1 request1 world3).1.db
add-NoOrphans_example = add-NoOrphans env1 request1 world3 (refl, tt)
