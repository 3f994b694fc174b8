-- ===== src/Engine/Aria2/Calls/Directory.antt =====
-- Where aria2 is told to store a download.
use opendebrid.Prelude.{
  ◌≡◌, refl, ap, ◌∙◌, Bool, true, false, Option, none, some, List, [], ◌∷◌, Text, codes, eq_text,
  has_prefix, Bool-cases, inl, inr, if◌then◌else◌,
}
use opendebrid.Engine.Aria2.Calls.{Options, option_in, with_trackers, overlay, job_options}
use opendebrid.Storage.Path.{join}
use opendebrid.World.{DispatchRequest}

-- The value of the last option of a name, or else another.
abbrev pub chosen_or : Option Text → Option Text → Option Text
chosen_or (some v) other = some v
chosen_or none other = other

abbrev pub last_option : Text → Options → Option Text
last_option name [] = none
last_option name (o ∷ os) =
    chosen_or (last_option name os) (if eq_text o.0 name then some o.1 else none)

chosen_or_assoc :
    (a : Option Text) (b : Bool) (v : Text) (c : Option Text)
    → chosen_or a (if b then some v else c) ≡ chosen_or (chosen_or a (if b then some v else none)) c
chosen_or_assoc (some x) b v c = refl
chosen_or_assoc none true v c = refl
chosen_or_assoc none false v c = refl

option_in-overlay :
    (name : Text) (os opts : Options)
    → option_in name (overlay os opts) ≡ chosen_or (last_option name os) (option_in name opts)
option_in-overlay name [] opts = refl
option_in-overlay name (o ∷ os) opts =
    option_in-overlay name os (o ∷ opts)
    ∙ chosen_or_assoc (last_option name os) (eq_text o.0 name) o.1 (option_in name opts)

-- The trackers do not name a directory.
option_in-with_trackers :
    (url : Text) (trackers : List Text) (opts : Options)
    → option_in (codes "dir") (with_trackers url trackers opts) ≡ option_in (codes "dir") opts
unfolding eq_text
option_in-with_trackers url [] opts = refl
option_in-with_trackers url (t ∷ ts) opts = elim (Bool-cases (has_prefix url (codes "magnet:"))) [
  | inl b ↦ rw b refl
  | inr b ↦ rw b refl
]

-- The directory that aria2 is told is the one of the job's storage key below the download directory only where
-- the request has no option `dir`; where it has one, its value is taken as it is, whatever path it names.
pub option_in-job_options :
    (download_dir : Text) (trackers : List Text) (req : DispatchRequest)
    → option_in (codes "dir") (job_options download_dir trackers req)
      ≡ chosen_or (last_option (codes "dir") req.options) (some (join download_dir req.storage_key))
unfolding job_options eq_text
option_in-job_options download_dir trackers req =
    let base : Options = (codes "dir", join download_dir req.storage_key) ∷ [] in
    option_in-overlay (codes "dir") req.options (with_trackers req.url trackers base)
    ∙ ap (λ o. chosen_or (last_option (codes "dir") req.options) o)
        (option_in-with_trackers req.url trackers base)
