-- ===== src/Database/Nodes.antt =====
-- The queries on nodes (internal/database/gen/nodes.sql.go).
use opendebrid.Prelude.{
  ℕ, ◌+◌, Bool, true, false, not, ◌&&◌, ◌||◌, Option, none, some, List, [], ◌∷◌, map, Text, eq_text,
  ltb, find, any, select, update_where, length, take, drop, if◌then◌else◌,
}
use opendebrid.Prelude.Exec.{ok, Exec}
use opendebrid.Database.Model.{Node, Db, on_node, one_row}

abbrev pub is_node : Text → Node → Bool
is_node id n = eq_text n.id id

unfoldable pub get_node : Text → Exec Db Node
get_node id db = (one_row (find (is_node id) db.nodes), db)

unfoldable pub list_online_nodes : Exec Db (List Node)
list_online_nodes db = (ok (select (λ n. n.is_online) db.nodes), db)

pub record UpsertNodeParams : Type 0 where
  pub id : Text
  pub grpc_endpoint : Option Text
  pub file_endpoint : Text
  pub engines : Text
  pub is_controller : Bool
  pub disk_total : ℕ
  pub disk_available : ℕ

-- A new row: last_heartbeat is NULL; is_controller is not part of the update of an old one.
abbrev pub new_node : UpsertNodeParams → ℕ → Node
new_node p clock = record {
  id = p.id;
  grpc_endpoint = p.grpc_endpoint;
  file_endpoint = p.file_endpoint;
  engines = p.engines;
  is_controller = p.is_controller;
  is_online = true;
  disk_total = p.disk_total;
  disk_available = p.disk_available;
  last_heartbeat = none;
  registered_at = clock;
}

unfoldable pub upsert_node : UpsertNodeParams → Exec Db Node
upsert_node p db =
    let refresh = λ (n : Node). record n {
      grpc_endpoint = p.grpc_endpoint;
      file_endpoint = p.file_endpoint;
      engines = p.engines;
      is_online = true;
      disk_total = p.disk_total;
      disk_available = p.disk_available;
      last_heartbeat = some db.clock;
    } in
    let nodes =
      if any (is_node p.id) db.nodes
      then update_where (is_node p.id) refresh db.nodes
      else new_node p db.clock ∷ db.nodes in
    (one_row (find (is_node p.id) nodes), record db { nodes = nodes })

unfoldable pub update_node_heartbeat : Text → ℕ → ℕ → Exec Db Unit
update_node_heartbeat id total available db = (
  ok tt,
  record db {
    nodes =
        update_where (is_node id)
          (λ n. record n {
            is_online = true;
            disk_total = total;
            disk_available = available;
            last_heartbeat = some db.clock;
          })
          db.nodes;
  },
)

unfoldable pub set_node_offline : Text → Exec Db Unit
set_node_offline id db = (
  ok tt,
  record db { nodes = update_where (is_node id) (λ n. record n { is_online = false }) db.nodes },
)

-- `last_heartbeat < NOW() - interval`: NULL does not compare.
abbrev pub heartbeat_before : Option ℕ → ℕ → ℕ → Bool
heartbeat_before none interval clock = false
heartbeat_before (some t) interval clock = ltb (t + interval) clock

abbrev pub is_stale_node : ℕ → ℕ → Bool → Node → Bool
is_stale_node clock interval exclude_controller n =
    n.is_online
    && (heartbeat_before n.last_heartbeat interval clock
        && (not exclude_controller || not n.is_controller))

unfoldable pub mark_stale_nodes_offline : ℕ → Bool → Exec Db (List Text)
mark_stale_nodes_offline interval exclude_controller db =
    let t = is_stale_node db.clock interval exclude_controller in
    (
      ok (map (λ (n : Node). n.id) (select t db.nodes)),
      record db { nodes = update_where t (λ n. record n { is_online = false }) db.nodes },
    )

-- The jobs of the node keep their rows: node_id REFERENCES nodes(id) ON DELETE SET NULL.
unfoldable pub delete_node : Text → Exec Db Unit
delete_node id db = (
  ok tt,
  record db {
    nodes = select (λ n. not (is_node id n)) db.nodes;
    jobs =
        update_where (on_node id) (λ j. record j { node_id = none; updated_at = db.clock }) db.jobs;
  },
)

-- With COUNT(*) OVER (), the number of nodes before the page is cut.
pub record ListNodesRow : Type 0 where
  pub node : Node
  pub total_count : ℕ

-- ORDER BY registered_at
abbrev pub insert_registered : Node → List Node → List Node
insert_registered n [] = n ∷ []
insert_registered n (x ∷ xs) =
    let rest = insert_registered n xs in
    if ltb x.registered_at n.registered_at then x ∷ rest else n ∷ x ∷ xs

abbrev pub by_registration : List Node → List Node
by_registration [] = []
by_registration (n ∷ ns) = insert_registered n (by_registration ns)

abbrev pub counted : ℕ → Node → ListNodesRow
counted total n = record { node = n; total_count = total }

unfoldable pub list_nodes : ℕ → ℕ → Exec Db (List ListNodesRow)
list_nodes limit offset db =
    (ok (map (counted (length db.nodes)) (take limit (drop offset (by_registration db.nodes)))), db)

abbrev pub is_other_controller : Text → Node → Bool
is_other_controller id n = n.is_controller && (n.is_online && not (is_node id n))

unfoldable pub has_existing_controller : Text → Exec Db Bool
has_existing_controller id db = (ok (any (is_other_controller id) db.nodes), db)
