-- ===== src/Engine/Aria2/Calls.antt =====
-- The calls of the aria2 engine that start, cancel and remove a download (internal/core/engine/aria2/engine.go).
-- What the daemon and the file system answer is a parameter.
pub mod Directory
use opendebrid.Prelude.{
  Bool, true, false, ◌&&◌, not, Option, none, some, List, [], ◌∷◌, ◌++◌, Text, codes, eq_text,
  has_prefix, if◌then◌else◌,
}
use opendebrid.Prelude.Exec.{Err, Result, ok, err}
use opendebrid.Engine.Aria2.{Rpc, force_remove, remove_download_result}
use opendebrid.Storage.Path.{join}
use opendebrid.World.{DispatchRequest}

-- A Go map from names to values: what is set last stands first.
abbrev pub Options : Type 0
Options = List (Text × Text)

abbrev pub option_in : Text → Options → Option Text
option_in name [] = none
option_in name (o ∷ os) = if eq_text o.0 name then some o.1 else option_in name os

-- `strings.Join(trackers, ",")`
abbrev pub joined_after : Text → List Text → Text
joined_after s [] = s
joined_after s (t ∷ ts) = s ++ b',' ∷ joined_after t ts

abbrev pub with_trackers : Text → List Text → Options → Options
with_trackers url [] opts = opts
with_trackers url (t ∷ ts) opts =
    if has_prefix url (codes "magnet:")
    then (codes "bt-tracker", joined_after t ts) ∷ opts
    else opts

-- `for k, v := range req.Options { opts[k] = v }`
abbrev pub overlay : Options → Options → Options
overlay [] opts = opts
overlay (o ∷ os) opts = overlay os (o ∷ opts)

unfoldable pub job_options : Text → List Text → DispatchRequest → Options
job_options download_dir trackers req =
    overlay req.options
      (with_trackers req.url trackers ((codes "dir", join download_dir req.storage_key) ∷ []))

-- `make_dir` is the outcome of `os.MkdirAll`, `add_uri` that of the call.
abbrev pub added_in : Result {0} Unit → Result Text → Result Text
added_in (err e) gid = err e
added_in (ok u) gid = gid

unfoldable pub add :
    (Text → Result {0} Unit)
    → (Text → Options → Result Text)
    → Text
    → List Text
    → DispatchRequest
    → Result Text
unfolding job_options
add make_dir add_uri download_dir trackers req =
    added_in (make_dir (join download_dir req.storage_key))
      (add_uri req.url (job_options download_dir trackers req))

-- The answer of `ForceRemove` is that of the cancellation.
abbrev pub cancel : (Rpc → Result {0} Unit) → Text → Result {0} Unit
cancel call id = call (force_remove id)

-- What the daemon is told, and the directory that is removed; no answer is looked at.
abbrev pub remove : Text → Text → Text → List Rpc × Text
remove download_dir key id =
    (force_remove id ∷ remove_download_result id ∷ [], join download_dir key)
