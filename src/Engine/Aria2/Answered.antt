-- ===== src/Engine/Aria2/Answered.antt =====
-- Which ids the aria2 engine answers, and what it removes from the daemon.
use opendebrid.Prelude.{
  ◌≡◌, refl, ◌∙◌, Bool, true, false, not, ◌&&◌, ◌||◌, Option, none, some, List, [], ◌∷◌, ◌++◌, Text,
  eq_text, any, any-append, arith,
}
use opendebrid.Prelude.Exec.{Result, ok, err, is_ok}
use opendebrid.Node.Poll.{JobStatus}
use opendebrid.Engine.Aria2.{
  StatusResponse, Rpc, force_remove, remove_download_result, Daemon, is_seeding, StatusMap,
  status_in, Index, has_followers, ended_in_aria2, seeding_calls, result_calls, index_one,
  index_active, of_child, of_status, of_answer, status_of, statuses_of, batch_of, batch_status,
}

abbrev pub is_some : {A : Type 0} → Option A → Bool
is_some none = false
is_some (some a) = true

is_some-status_in :
    (id k : Text) (js : JobStatus) (m : StatusMap)
    → is_some (status_in ((id, js) ∷ m) k) ≡ (eq_text id k || is_some (status_in m k))
is_some-status_in id k js m = ground arith

-- The ids that a batch asks for, in the test's order of arguments.
abbrev pub asked : Text → List Text → Bool
asked k ids = any (λ id. eq_text id k) ids

is_some-statuses_of :
    (d : Daemon) (i : Index) (k : Text) (ids : List Text) (calls : List Rpc) (m : StatusMap)
    → is_some (status_in (statuses_of d i ids calls m).0 k)
      ≡ (asked k ids || is_some (status_in m k))
is_some-statuses_of d i k [] calls m = refl
is_some-statuses_of d i k (id ∷ ids) calls m =
    let now = status_of d i id (status_in i.gid_map id) calls in
    is_some-statuses_of d i k ids now.1 ((id, now.0) ∷ m)
    ∙ ground (arith, is_some-status_in id k now.0 m)

-- The status in an answer, where there is one.
abbrev pub answer_in : Result StatusMap → Text → Option JobStatus
answer_in (err e) id = none
answer_in (ok m) id = status_in m id

batch_of-answers :
    (d : Daemon) (r : Result (List StatusResponse)) (k : Text) (ids : List Text)
    → is_some (answer_in (batch_of d r ids).0 k) ≡ (is_ok r && asked k ids)
batch_of-answers d (err e) k ids = refl
batch_of-answers d (ok ss) k ids =
    let i = index_active d ss (record { gid_map = []; followed_parents = []; calls = [] }) in
    ground (arith, is_some-statuses_of d i k ids i.calls [])

-- A batch has a status for exactly the ids that it is asked for, whatever the daemon says of each, and none
-- where the daemon does not list its active downloads.
pub batch_status-answers :
    (d : Daemon) (k : Text) (ids : List Text)
    → is_some (answer_in (batch_status d ids).0 k) ≡ (is_ok d.tell_active && asked k ids)
unfolding batch_status
batch_status-answers d k ids = batch_of-answers d d.tell_active k ids

is_ok-batch_of :
    (d : Daemon) (r : Result (List StatusResponse)) (ids : List Text)
    → is_ok (batch_of d r ids).0 ≡ is_ok r
is_ok-batch_of d (err e) ids = refl
is_ok-batch_of d (ok ss) ids = refl

pub is_ok-batch_status :
    (d : Daemon) (ids : List Text) → is_ok (batch_status d ids).0 ≡ is_ok d.tell_active
unfolding batch_status
is_ok-batch_status d ids = is_ok-batch_of d d.tell_active ids

abbrev pub forces : Text → Rpc → Bool
forces g (force_remove h) = eq_text h g
forces g (remove_download_result h) = false

-- A download in the active list that is only being seeded.
abbrev pub seeds : Text → StatusResponse → Bool
seeds g s = not (has_followers s) && (is_seeding s && eq_text s.gid g)

forced-index_one :
    (d : Daemon) (g : Text) (s : StatusResponse) (i : Index)
    → any (forces g) (index_one d s i).calls ≡ (seeds g s || any (forces g) i.calls)
forced-index_one d g s i = ground (arith, any-append (forces g) i.calls (seeding_calls s))

forced-index_active :
    (d : Daemon) (g : Text) (ss : List StatusResponse) (i : Index)
    → any (forces g) (index_active d ss i).calls ≡ (any (seeds g) ss || any (forces g) i.calls)
forced-index_active d g [] i = refl
forced-index_active d g (s ∷ ss) i =
    forced-index_active d g ss (index_one d s i) ∙ ground (arith, forced-index_one d g s i)

forced-result_calls :
    (g id : Text) (b : Bool) (calls : List Rpc)
    → any (forces g) (calls ++ result_calls b id) ≡ any (forces g) calls
forced-result_calls g id b calls = ground (arith, any-append (forces g) calls (result_calls b id))

forced-of_child :
    (d : Daemon) (g : Text) (s : StatusResponse) (id child : Text) (r : Result StatusResponse)
    (calls : List Rpc)
    → any (forces g) (of_child d s id child r calls).1 ≡ any (forces g) calls
forced-of_child d g s id child (err e) calls = forced-result_calls g id true calls
forced-of_child d g s id child (ok c) calls =
    forced-result_calls g id true (calls ++ result_calls (ended_in_aria2 c) child)
    ∙ forced-result_calls g child (ended_in_aria2 c) calls

forced-of_answer :
    (d : Daemon) (g id : Text) (r : Result StatusResponse) (calls : List Rpc)
    → any (forces g) (of_answer d id r calls).1 ≡ any (forces g) calls
forced-of_answer d g id (err e) calls = refl
forced-of_answer d g id (ok s) calls = go s.followed_by
  where
    go : (fs : List Text) → any (forces g) (of_status d s id fs calls).1 ≡ any (forces g) calls
    go [] = forced-result_calls g id (ended_in_aria2 s) calls
    go (child ∷ cs) = forced-of_child d g s id child (d.tell_status calls child) calls

forced-status_of :
    (d : Daemon) (g : Text) (i : Index) (id : Text) (o : Option JobStatus) (calls : List Rpc)
    → any (forces g) (status_of d i id o calls).1 ≡ any (forces g) calls
forced-status_of d g i id (some js) calls =
    forced-result_calls g id (any (eq_text id) i.followed_parents) calls
forced-status_of d g i id none calls = forced-of_answer d g id (d.tell_status calls id) calls

forced-statuses_of :
    (d : Daemon) (g : Text) (i : Index) (ids : List Text) (calls : List Rpc) (m : StatusMap)
    → any (forces g) (statuses_of d i ids calls m).1 ≡ any (forces g) calls
forced-statuses_of d g i [] calls m = refl
forced-statuses_of d g i (id ∷ ids) calls m =
    let now = status_of d i id (status_in i.gid_map id) calls in
    forced-statuses_of d g i ids now.1 ((id, now.0) ∷ m)
    ∙ forced-status_of d g i id (status_in i.gid_map id) calls

abbrev pub seeding_in : Text → Result (List StatusResponse) → Bool
seeding_in g (err e) = false
seeding_in g (ok ss) = any (seeds g) ss

forced-batch_of :
    (d : Daemon) (g : Text) (r : Result (List StatusResponse)) (ids : List Text)
    → any (forces g) (batch_of d r ids).1 ≡ seeding_in g r
forced-batch_of d g (err e) ids = refl
forced-batch_of d g (ok ss) ids =
    let i = index_active d ss (record { gid_map = []; followed_parents = []; calls = [] }) in
    forced-statuses_of d g i ids i.calls []
    ∙ ground (
      arith,
      forced-index_active d g ss (record { gid_map = []; followed_parents = []; calls = [] }),
    )

-- A batch makes the daemon drop a download by force exactly where the active list has it as a torrent that
-- is only being seeded and that no other download follows: one that still downloads goes on.
pub batch_status-forced :
    (d : Daemon) (g : Text) (ids : List Text)
    → any (forces g) (batch_status d ids).1 ≡ seeding_in g d.tell_active
unfolding batch_status
batch_status-forced d g ids = forced-batch_of d g d.tell_active ids
