-- ===== src/Tests/Serving.antt =====
-- Links, the file server and range headers at concrete inputs.
use opendebrid.Prelude.{
  refl, true, false, some, List, [], ◌∷◌, ◌++◌, Text, codes, eq_text, trim_right, has_prefix,
  trim_prefix, is_empty, All,
}
use opendebrid.Prelude.Exec.{ok, err, unavailable}
use opendebrid.Database.Downloads.{get_download_with_job_by_user}
use opendebrid.Database.Model.{completed}
use opendebrid.Database.Nodes.{get_node}
use opendebrid.Database.Uploads.{create_download_link, get_download_link_by_token}
use opendebrid.Engine.{FileInfo, FileTree, file, folder, nil, entry, scan_files}
use opendebrid.Engine.Scanned.{IsServed, scan_files-IsServed, HasNames}
use opendebrid.FileServer.{serve_file, resolve_token, token_of}
use opendebrid.FileServer.Inside.{Inside, serve_file-Inside}
use opendebrid.Service.Env.{last_part}
use opendebrid.Service.Links.{
  LinkEnv, GenerateLinkRequest, GenerateLinkResult, list_files, generate_link, path_escape, link_to,
  new_link_at,
}
use opendebrid.Service.Links.Stored.{Granted, generate_link-Granted}
use opendebrid.Storage.Path.{clean, join}
use opendebrid.Storage.Path.Normal.{AreNormal}
use opendebrid.Storage.Uri.{is_remote_uri}
use opendebrid.World.{World}
use opendebrid.Tests.Data.{job1, db1, world1}
use opendebrid.Tests.Downloads.{node1}

abbrev world4 : World
world4 = record world1 {
  db = record db1 { jobs = record job1 { status = completed } ∷ []; nodes = node1 ∷ [] };
}

abbrev path1 : Text
path1 = codes "/data/aria2/k/a"

abbrev link_env1 : LinkEnv
link_env1 = record {
  has_storage = false;
  has_url = false;
  remote_files = λ u. err unavailable;
  generate_url = λ u. err unavailable;
  job_files = λ n r.
      ok (record { path = codes "a"; size = 3; storage_uri = codes "file://" ++ path1 } ∷ []);
  parse_engines = λ s. some (s ∷ []);
  random_token = ok (codes "tok");
  download_dir = codes "/data";
  link_expiry = 100;
}

abbrev link_request1 : GenerateLinkRequest
link_request1 = record { download_id = 10; user_id = 7; file_path = codes "a" }

abbrev link_result1 : GenerateLinkResult
link_result1 = record { url = codes "http://n1/dl/tok/a"; token = codes "tok"; expires_at = 150 }

generate_link-Granted_example :
    Granted link_env1 link_request1
      (list_files link_env1 10 7 world4).0
      link_result1
      (generate_link link_env1 link_request1 world4).1
unfolding generate_link get_download_with_job_by_user eq_text is_empty is_remote_uri has_prefix
    get_node new_link_at create_download_link trim_right trim_prefix last_part path_escape link_to
generate_link-Granted_example =
    generate_link-Granted link_env1 link_request1 world4 link_result1 refl

-- "/data/aria2/k" with the file a.
abbrev tree1 : FileTree
tree1 = folder (entry (codes "a") (file 3) nil)

abbrev files1 : List FileInfo
files1 = record { path = codes "a"; size = 3; storage_uri = codes "file://" ++ path1 } ∷ []

data-AreNormal : AreNormal (codes "data" ∷ [])
unfolding is_empty eq_text
data-AreNormal = (
  record { no_slash = (refl, (refl, (refl, (refl, tt)))); not_dot = refl; not_dot_dot = refl },
  tt,
)

job-AreNormal : AreNormal (codes "aria2" ∷ codes "k" ∷ [])
unfolding is_empty eq_text
job-AreNormal = (
  record {
    no_slash = (refl, (refl, (refl, (refl, (refl, tt)))));
    not_dot = refl;
    not_dot_dot = refl;
  },
  (record { no_slash = (refl, tt); not_dot = refl; not_dot_dot = refl }, tt),
)

tree1-HasNames : HasNames tree1
unfolding HasNames is_empty eq_text
tree1-HasNames = (record { no_slash = (refl, tt); not_dot = refl; not_dot_dot = refl }, tt, tt)

scan_files-IsServed_example :
    All
      (IsServed
        (codes "data")
        []
        (codes "aria2")
        (codes "k" ∷ [])
        data-AreNormal
        job-AreNormal
        link_env1
        refl
        false
        (λ p. true))
      files1
unfolding scan_files
scan_files-IsServed_example =
    scan_files-IsServed (codes "data") [] (codes "aria2") (codes "k" ∷ []) data-AreNormal
      job-AreNormal link_env1 refl false (λ p. true) tree1 files1 tree1-HasNames refl

-- The link of the database, served from /data.
serve_file-Inside_example :
    Inside (codes "/data") (codes "/data/aria2/0123456789abcdef0123456789abcdef/f")
unfolding serve_file is_empty token_of trim_prefix has_prefix resolve_token
    get_download_link_by_token eq_text is_remote_uri join clean
serve_file-Inside_example =
    serve_file-Inside (codes "/data") false (λ p. true) refl (codes "/dl/t") []
      (codes "/data/aria2/0123456789abcdef0123456789abcdef/f") world4 refl
