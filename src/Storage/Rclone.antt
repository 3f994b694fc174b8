-- ===== src/Storage/Rclone.antt =====
-- The rclone provider (internal/core/storage/rclone.go): the commands that its operations run. What a command
-- answers, the parsers of rclone's JSON and the printers of numbers are parameters; a stream that a client
-- breaks off and the headers of an answer are left out, as are the texts that errors are wrapped in.
pub mod Stored
use opendebrid.Prelude.{
  ℕ, Bool, true, false, not, Option, none, some, List, [], ◌∷◌, ◌++◌, map, Text, codes, eq_text,
  is_empty, trim_prefix, trim_space, select, ltb, if◌then◌else◌,
}
use opendebrid.Prelude.Exec.{
  Err, Result, ok, err, not_supported, remote, Exec, pure, raise, lift, attempt, ◌>>=◌, ◌>>◌,
}
use opendebrid.Storage.Range.{Range, Served, unsatisfiable, whole, partial}
use opendebrid.Storage.Range.{serve_file as ranged}
use opendebrid.Storage.Uri.{remote_path, upload_uri}

pub record RcloneConfig : Type 0 where
  pub remote_name : Text
  pub base_path : Text
  pub binary : Text
  pub serve_mode : Text
  pub config : List (Text × Text)

pub record StorageSettings : Type 0 where
  pub provider : Text
  pub rclone : Option RcloneConfig

-- internal/core/storage/provider.go, without the content type.
pub record RemoteFileInfo : Type 0 where
  pub path : Text
  pub size : ℕ

pub record LsjsonEntry : Type 0 where
  pub path : Text
  pub size : ℕ
  pub is_dir : Bool

-- The arguments of the commands that were run, the last one first.
abbrev pub Commands : Type 0
Commands = List (List Text)

-- What comes from outside: the answer to a command behind others, and whether one that streams starts; what
-- the JSON of `rclone size` and `rclone lsjson` says; and the texts of numbers and of durations.
pub record Rclone : Type 0 where
  pub answer : Commands → List Text → Result Text
  pub starts : Commands → List Text → Result {0} Unit
  pub parse_size : Text → Result ℕ
  pub parse_entries : Text → Result (List LsjsonEntry)
  pub format_int : ℕ → Text
  pub format_duration : ℕ → Text

abbrev pub with_binary : RcloneConfig → RcloneConfig
with_binary cfg = if is_empty cfg.binary then record cfg { binary = codes "rclone" } else cfg

abbrev pub param : Text → List (Text × Text) → Option Text
param name [] = none
param name (p ∷ ps) = if eq_text p.0 name then some p.1 else param name ps

-- `key=value` of all parameters but the type.
abbrev pub assignments : List (Text × Text) → List Text
assignments [] = []
assignments (p ∷ ps) =
    let rest = assignments ps in
    if eq_text p.0 (codes "type") then rest else (p.0 ++ b'=' ∷ p.1) ∷ rest

abbrev pub destination : Text → Text
destination uri = trim_prefix uri (codes "rclone://")

abbrev pub inside : Text → Text → Text
inside dest [] = dest
inside dest (c ∷ rel) = dest ++ b'/' ∷ c ∷ rel

module _ (rc : Rclone) where
  abbrev pub run : List Text → Exec Commands Text
  run args h = (rc.answer h args, args ∷ h)

  abbrev pub start : List Text → Exec Commands Unit
  start args h = (rc.starts h args, args ∷ h)

  abbrev pub file_size : Text → Exec Commands ℕ
  file_size dest =
      run (codes "size" ∷ codes "--json" ∷ dest ∷ []) >>= λ out. lift (rc.parse_size out)

  abbrev pub offset_args : ℕ → List Text
  offset_args offset = if ltb 0 offset then codes "--offset" ∷ rc.format_int offset ∷ [] else []

  abbrev pub cat_args : Text → ℕ → List Text → List Text
  cat_args dest offset count = codes "cat" ∷ dest ∷ (offset_args offset ++ count)

  abbrev pub stream : Text → Served → Exec Commands Served
  stream dest unsatisfiable = pure unsatisfiable
  stream dest (whole n) = start (cat_args dest 0 []) >>= λ u. pure (whole n)
  stream dest (partial r n) =
      start (cat_args dest r.start (codes "--count" ∷ rc.format_int n ∷ [])) >>= λ u.
      pure (partial r n)

  -- `rel` is the path of a file below the URI; `header` is the Range header.
  unfoldable pub serve_file : Text → Text → Text → Exec Commands Served
  unfolding ranged
  serve_file uri rel header = file_size (inside (destination uri) rel) >>= λ size.
      stream (inside (destination uri) rel) (ranged header size)

  abbrev pub info_of : LsjsonEntry → RemoteFileInfo
  info_of e = record { path = e.path; size = e.size }

  unfoldable pub list_files : Text → Exec Commands (List RemoteFileInfo)
  list_files uri = do
    out ← run (codes "lsjson" ∷ codes "--recursive" ∷ destination uri ∷ [])
    entries ← lift (rc.parse_entries out)
    pure (map info_of (select (λ (e : LsjsonEntry). not e.is_dir) entries))

  unfoldable pub delete : Text → Exec Commands Unit
  delete uri = run (codes "purge" ∷ destination uri ∷ []) >>= λ out. pure tt

  module _ (cfg : RcloneConfig) where
    unfoldable pub upload : Text → Text → Exec Commands Text
    unfolding remote_path upload_uri
    upload dir key =
        run (codes "copy" ∷ dir ∷ remote_path cfg.remote_name cfg.base_path key ∷ []) >>= λ out.
        pure (upload_uri cfg.remote_name cfg.base_path key)

    abbrev pub expire_args : ℕ → List Text
    expire_args expiry =
        if ltb 0 expiry then codes "--expire" ∷ rc.format_duration expiry ∷ [] else []

    unfoldable pub generate_url : Text → Text → ℕ → Exec Commands Text
    generate_url uri rel expiry =
        if eq_text cfg.serve_mode (codes "url")
        then (run (codes "link" ∷ inside (destination uri) rel ∷ expire_args expiry) >>= λ out.
            pure (trim_space out))
        else raise not_supported

    abbrev pub create_remote : Option Text → Exec Commands Unit
    create_remote none = raise (remote (codes "rclone config requires a 'type' field"))
    create_remote (some type) =
        if is_empty type
        then raise (remote (codes "rclone config requires a 'type' field"))
        else run (codes "config" ∷ codes "create" ∷ cfg.remote_name ∷ type ∷ assignments cfg.config)
          >>= λ out. pure tt

    abbrev pub ensure_remote : List (Text × Text) → Exec Commands Unit
    ensure_remote [] = pure tt
    ensure_remote (p ∷ ps) = create_remote (param (codes "type") (p ∷ ps))

    unfoldable pub check : Exec Commands Unit
    unfolding remote_path
    check = do
      run (codes "version" ∷ [])
      ensure_remote cfg.config
      run (codes "lsd" ∷ remote_path cfg.remote_name cfg.base_path [] ∷ []) >>= λ out. pure tt
