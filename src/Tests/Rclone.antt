-- ===== src/Tests/Rclone.antt =====
-- The rclone provider at a concrete configuration.
use opendebrid.Prelude.{◌≡◌, refl, [], ◌∷◌, Text, codes}
use opendebrid.Prelude.Exec.{ok, err, unavailable}
use opendebrid.Storage.Rclone.{Rclone, RcloneConfig, Commands, upload}
use opendebrid.Storage.Rclone.Stored.{IsStored, upload-IsStored}
use opendebrid.Storage.Uri.{remote_path, upload_uri}

-- Each command is answered by nothing, and each file has five bytes.
abbrev rclone1 : Rclone
rclone1 = record {
  answer = λ h args. ok [];
  starts = λ h args. ok tt;
  parse_size = λ out. ok 5;
  parse_entries = λ out. err unavailable;
  format_int = λ n. codes "n";
  format_duration = λ n. codes "1h";
}

abbrev config1 : RcloneConfig
config1 = record {
  remote_name = codes "r";
  base_path = codes "bucket";
  binary = [];
  serve_mode = [];
  config = [];
}

abbrev dest1 : Text
dest1 = remote_path (codes "r") (codes "bucket") (codes "k1")

upload-IsStored_example :
    ((upload rclone1 config1 (codes "/d") (codes "k1") []).1
      ≡ (codes "copy" ∷ codes "/d" ∷ dest1 ∷ []) ∷ [])
    × ((h : Commands)
        → IsStored rclone1 dest1 (upload_uri (codes "r") (codes "bucket") (codes "k1")) h)
unfolding upload
upload-IsStored_example =
    upload-IsStored rclone1 config1 (codes "/d") b'k' (codes "1")
      (upload_uri (codes "r") (codes "bucket") (codes "k1")) [] refl refl
