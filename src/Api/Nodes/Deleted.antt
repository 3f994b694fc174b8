-- ===== src/Api/Nodes/Deleted.antt =====
-- What deleting a node leaves.
use opendebrid.Prelude.{
  ◌≡◌, refl, Bool, true, false, not, Option, none, some, List, [], ◌∷◌, Text, any, find, select,
  update_where, if◌then◌else◌, arith,
}
use opendebrid.Api.Accounts.{Http, answered, refused}
use opendebrid.Api.Nodes.{delete, delete_found, delete_failed, deleted}
use opendebrid.Database.Jobs.{fail_node_jobs_for_deletion}
use opendebrid.Database.Model.{Node, Db, on_node, one_row}
use opendebrid.Database.Nodes.{is_node, get_node, delete_node}
use opendebrid.World.{World, run_query, query}

-- Neither a node of this id nor a job on it.
abbrev pub NoneLeft : Text → Db → Type 0
NoneLeft id db = (any (is_node id) db.nodes ≡ false) × (any (on_node id) db.jobs ≡ false)

-- A node of this id is there and offline.
abbrev pub Offline : Text → Db → Type 0
Offline id db = (n : Node) × (find (is_node id) db.nodes ≡ some n) × (n.is_online ≡ false)

-- Done: the node was offline, and nothing of it is left. Refused: all nodes are as they were.
abbrev pub Deletion : Text → Db → Http (Unit {0}) → Db → Type 0
Deletion id old (answered u) new = Offline id old × NoneLeft id new
Deletion id old (refused status) new = new.nodes ≡ old.nodes

any-select : {A : Type 0} (t : A → Bool) (xs : List A) → any t (select (λ x. not (t x)) xs) ≡ false
any-select t [] = refl
any-select t (x ∷ xs) = let rest = any-select t xs in ground arith

-- What a write leaves of a test that it makes false.
any-update_where :
    {A : Type 0} (t : A → Bool) (f : A → A) (xs : List A)
    → ((x : A) → t (f x) ≡ false)
    → any t (update_where t f xs) ≡ false
any-update_where t f [] h = refl
any-update_where t f (x ∷ xs) h =
    let rest = any-update_where t f xs h in let k = h x in ground arith

module _ (id : Text) where
  NoneLeft-delete_node : (db : Db) → NoneLeft id (delete_node id db).1
  unfolding delete_node on_node
  NoneLeft-delete_node db =
      (any-select (is_node id) db.nodes, any-update_where (on_node id) _ db.jobs (λ j. refl))

  module _ (old : Db) (was : Offline id old) where
    Deletion-deleted :
        (fs : List Bool) (w : World)
        → w.db.nodes ≡ old.nodes
        → let r = deleted (run_query fs (delete_node id) w) in Deletion id old r.0 r.1.db
    unfolding delete_node
    Deletion-deleted [] w e = (was, NoneLeft-delete_node w.db)
    Deletion-deleted (true ∷ fs) w e = e
    Deletion-deleted (false ∷ fs) w e = (was, NoneLeft-delete_node w.db)

    Deletion-delete_failed :
        (fs : List Bool) (w : World)
        → w.db.nodes ≡ old.nodes
        → let r = delete_failed id (run_query fs (fail_node_jobs_for_deletion id) w) in
          Deletion id old r.0 r.1.db
    unfolding fail_node_jobs_for_deletion
    Deletion-delete_failed [] w e = Deletion-deleted w.faults _ e
    Deletion-delete_failed (true ∷ fs) w e = e
    Deletion-delete_failed (false ∷ fs) w e = Deletion-deleted fs _ e

  Deletion-delete_found :
      (found : Option Node) (w : World) (fs : List Bool)
      → find (is_node id) w.db.nodes ≡ found
      → let r = delete_found id (one_row found, record w { faults = fs }) in
        Deletion id w.db r.0 r.1.db
  Deletion-delete_found none w fs e = refl
  Deletion-delete_found (some n) w fs e = by_status n.is_online refl
    where
      by_status :
          (b : Bool)
          → n.is_online ≡ b
          → let r =
              if b
              then (refused 409, record w { faults = fs })
              else delete_failed id
                  (query (fail_node_jobs_for_deletion id) (record w { faults = fs })) in
            Deletion id w.db r.0 r.1.db
      by_status true h = refl
      by_status false h = Deletion-delete_failed w.db (n, e, h) fs _ refl

  -- Whatever connections are lost: where deleting a node is answered, the node was there and offline, and
  -- neither it nor a job on it is left; where it is refused, all nodes are as they were.
  pub delete-Deletion : (w : World) → let r = delete id w in Deletion id w.db r.0 r.1.db
  unfolding delete get_node
  delete-Deletion w = go w.faults
    where
      go :
          (fs : List Bool)
          → let r = delete_found id (run_query fs (get_node id) w) in Deletion id w.db r.0 r.1.db
      go [] = Deletion-delete_found _ w w.faults refl
      go (true ∷ fs) = refl
      go (false ∷ fs) = Deletion-delete_found _ w fs refl
