-- ===== src/Engine/Aria2.antt =====
-- The status calls of the aria2 engine (internal/core/engine/aria2/engine.go, types.go). What the daemon
-- answers is a parameter; the calls that change it are kept in order. The engine state, the remaining time
-- and the extra fields of a status are left out, since no report takes them.
pub mod Answered
pub mod Keys
pub mod Calls
use opendebrid.Prelude.{
  ℕ, zero, suc, Bool, true, false, not, ◌&&◌, ◌||◌, Option, none, some, List, [], ◌∷◌, ◌++◌, Text,
  ◌-◌, ◌^◌, codes, eq_text, is_empty, any, find, ltb, ◌==◌, if◌then◌else◌,
}
use opendebrid.Prelude.Exec.{Result, ok, err}
use opendebrid.Grpc.Statuses.{JobState, queued, active, completed, failed}
use opendebrid.Node.Poll.{JobStatus}
use opendebrid.Service.Env.{base}
use opendebrid.Storage.Range.{read_unsigned}

-- `bt_name` is empty where there is no torrent information; `files` are the paths.
pub record StatusResponse : Type 0 where
  pub gid : Text
  pub status : Text
  pub total_length : Text
  pub completed_length : Text
  pub download_speed : Text
  pub error_message : Text
  pub seeder : Text
  pub bt_name : Text
  pub files : List Text
  pub followed_by : List Text
  pub following : Text

-- The calls of the client that change the daemon; what they answer is not looked at.
pub data Rpc : Type 0 where
  force_remove remove_download_result : Text → Rpc

-- The daemon answers by the calls made before. `ratio` is the division of two floats.
pub record Daemon : Type 0 where
  pub tell_active : Result (List StatusResponse)
  pub tell_status : List Rpc → Text → Result StatusResponse
  pub ratio : ℕ → ℕ → ℕ

abbrev pub is_seeding : StatusResponse → Bool
is_seeding s = eq_text s.seeder (codes "true")

unfoldable pub map_status : Text → Bool → JobState
map_status status seeding =
    if eq_text status (codes "active")
    then (if seeding then completed else active)
    else if eq_text status (codes "waiting")
    then queued
    else if eq_text status (codes "paused")
    then active
    else if eq_text status (codes "complete")
    then completed
    else if eq_text status (codes "removed")
    then failed
    else if eq_text status (codes "error")
    then failed
    else active

-- What ParseInt returns beside an error that is not looked at: 0 for no number, and the largest int64 for one
-- that is too large. A negative length, which the daemon never sends, counts as 0.
abbrev pub saturated : Option ℕ → ℕ
saturated none = 0
saturated (some n) = if ltb n (2 ^ 63) then n else 2 ^ 63 - 1

abbrev pub length_of : Text → ℕ
length_of [] = 0
length_of (c ∷ s) =
    if c == b'-'
    then 0
    else if c == b'+'
    then saturated (read_unsigned s)
    else saturated (read_unsigned (c ∷ s))

abbrev pub file_name : List Text → Text
file_name [] = []
file_name (f ∷ fs) = if is_empty f then [] else base f

abbrev pub progress_of : (ℕ → ℕ → ℕ) → ℕ → ℕ → ℕ
progress_of ratio zero done = 0
progress_of ratio (suc n) done = ratio done (suc n)

unfoldable pub convert_status : (ℕ → ℕ → ℕ) → StatusResponse → JobStatus
unfolding map_status
convert_status ratio s = record {
  engine_job_id = s.gid;
  name = if is_empty s.bt_name then file_name s.files else s.bt_name;
  state = map_status s.status (is_seeding s);
  progress = progress_of ratio (length_of s.total_length) (length_of s.completed_length);
  speed = length_of s.download_speed;
  total_size = length_of s.total_length;
  downloaded_size = length_of s.completed_length;
  error = s.error_message;
}

-- A Go map from ids to statuses: what is set last stands first.
abbrev pub StatusMap : Type 0
StatusMap = List (Text × JobStatus)

abbrev pub status_in : StatusMap → Text → Option JobStatus
status_in [] id = none
status_in (e ∷ m) id = if eq_text e.0 id then some e.1 else status_in m id

-- `gidMap` and `followedParents`, with the calls so far.
pub record Index : Type 0 where
  pub gid_map : StatusMap
  pub followed_parents : List Text
  pub calls : List Rpc

abbrev pub has_followers : StatusResponse → Bool
has_followers s = elim s.followed_by [ [] ↦ false | c ∷ cs ↦ true ]

abbrev pub seeding_calls : StatusResponse → List Rpc
seeding_calls s =
    if is_seeding s then force_remove s.gid ∷ remove_download_result s.gid ∷ [] else []

abbrev pub with_parent : StatusResponse → JobStatus → StatusMap → StatusMap
with_parent s js m = if is_empty s.following then m else (s.following, js) ∷ m

abbrev pub parents_with : StatusResponse → List Text → List Text
parents_with s ps = if is_empty s.following then ps else s.following ∷ ps

abbrev pub ended_in_aria2 : StatusResponse → Bool
ended_in_aria2 s = eq_text s.status (codes "complete") || eq_text s.status (codes "error")

abbrev pub result_calls : Bool → Text → List Rpc
result_calls removes id = if removes then remove_download_result id ∷ [] else []

module _ (daemon : Daemon) where
  abbrev pub convert : StatusResponse → JobStatus
  unfolding convert_status
  convert s = convert_status daemon.ratio s

  abbrev pub index_one : StatusResponse → Index → Index
  index_one s i = if has_followers s then i else record {
    gid_map = with_parent s (convert s) ((s.gid, convert s) ∷ i.gid_map);
    followed_parents = parents_with s i.followed_parents;
    calls = i.calls ++ seeding_calls s;
  }

  abbrev pub index_active : List StatusResponse → Index → Index
  index_active [] i = i
  index_active (s ∷ ss) i = index_active ss (index_one s i)

  abbrev pub lost : Text → JobStatus
  lost id = record {
    engine_job_id = id;
    name = [];
    state = failed;
    progress = 0;
    speed = 0;
    total_size = 0;
    downloaded_size = 0;
    error = codes "download lost from aria2 (GID not found)";
  }

  -- A status with followers is that of the first of them, where the daemon knows it.
  abbrev pub of_child :
      StatusResponse → Text → Text → Result StatusResponse → List Rpc → JobStatus × List Rpc
  of_child s id child (err e) calls = (convert s, calls ++ remove_download_result id ∷ [])
  of_child s id child (ok c) calls = (
    record (convert c) { engine_job_id = child },
    (calls ++ result_calls (ended_in_aria2 c) child) ++ remove_download_result id ∷ [],
  )

  abbrev pub of_status : StatusResponse → Text → List Text → List Rpc → JobStatus × List Rpc
  of_status s id [] calls = (convert s, calls ++ result_calls (ended_in_aria2 s) id)
  of_status s id (child ∷ cs) calls = of_child s id child (daemon.tell_status calls child) calls

  abbrev pub of_answer : Text → Result StatusResponse → List Rpc → JobStatus × List Rpc
  of_answer id (err e) calls = (lost id, calls)
  of_answer id (ok s) calls = of_status s id s.followed_by calls

  abbrev pub status_of : Index → Text → Option JobStatus → List Rpc → JobStatus × List Rpc
  status_of i id (some js) calls =
      (js, calls ++ result_calls (any (eq_text id) i.followed_parents) id)
  status_of i id none calls = of_answer id (daemon.tell_status calls id) calls

  abbrev pub statuses_of : Index → List Text → List Rpc → StatusMap → StatusMap × List Rpc
  statuses_of i [] calls m = (m, calls)
  statuses_of i (id ∷ ids) calls m =
      let (js, calls') = status_of i id (status_in i.gid_map id) calls in
      statuses_of i ids calls' ((id, js) ∷ m)

  abbrev pub batch_of : Result (List StatusResponse) → List Text → Result StatusMap × List Rpc
  batch_of (err e) ids = (err e, [])
  batch_of (ok ss) ids =
      let i = index_active ss (record { gid_map = []; followed_parents = []; calls = [] }) in
      let (m, calls) = statuses_of i ids i.calls [] in (ok m, calls)

  unfoldable pub batch_status : List Text → Result StatusMap × List Rpc
  unfolding convert_status
  batch_status ids = batch_of daemon.tell_active ids
