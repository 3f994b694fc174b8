-- ===== src/Tests/Data.antt =====
-- A small database: two jobs on the node n1, one of them with a download and a link.
use opendebrid.Prelude.{ℕ, true, none, some, List, [], ◌∷◌, Text, codes}
use opendebrid.Database.Model.{Status, inactive, active, pending, Job, Download, DownloadLink, Db}
use opendebrid.Util.StorageDir.{Dir}
use opendebrid.World.{World}

abbrev pub n1 : Text
n1 = codes "n1"

abbrev pub key1 : Text
key1 = codes "0123456789abcdef0123456789abcdef"

abbrev pub key2 : Text
key2 = codes "fedcba9876543210fedcba9876543210"

abbrev pub job_with : ℕ → Text → Status → Job
job_with id key status = record {
  id = id;
  node_id = some n1;
  engine = codes "aria2";
  engine_job_id = none;
  url = codes "http://h/f";
  storage_key = key;
  status = status;
  name = codes "f";
  size = none;
  file_location = some (codes "file:///d");
  upload_status = pending;
  error_message = none;
  progress = 0;
  speed = 0;
  downloaded_size = 0;
  created_at = 1;
  updated_at = 1;
  completed_at = none;
}

abbrev pub job1 : Job
job1 = job_with 1 key1 inactive

abbrev pub job2 : Job
job2 = job_with 2 key2 active

abbrev pub download1 : Download
download1 = record { id = 10; user_id = 7; job_id = 1; created_at = 1 }

abbrev pub link1 : DownloadLink
link1 = record {
  id = 20;
  user_id = 7;
  download_id = 10;
  storage_uri = codes "aria2/0123456789abcdef0123456789abcdef/f";
  token = codes "t";
  expires_at = 90;
  created_at = 1;
  access_count = 0;
}

abbrev pub db1 : Db
db1 = record {
  jobs = job1 ∷ job2 ∷ [];
  downloads = download1 ∷ [];
  links = link1 ∷ [];
  nodes = [];
  users = 7 ∷ [];
  clock = 50;
  next_id = 30;
}

abbrev pub world1 : World
world1 = record {
  db = db1;
  faults = [];
  clients = n1 ∷ [];
  trace = [];
  cached_nodes = none;
  cached_at = 0;
  counter = 0;
}

-- The download directories of the node: `key1`, and a directory that is no storage key.
abbrev pub dirs1 : List Dir
dirs1 =
    some (record { name = key1; is_dir = true } ∷ record { name = codes "tmp"; is_dir = true } ∷ [])
    ∷ none
    ∷ []
