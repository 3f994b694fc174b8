-- ===== src/Api/Nodes.antt =====
-- The handlers for nodes (internal/controller/api/handlers/nodes.go). `parse` reads a node's engines, JSON that
-- gives none where it does not parse.
pub mod Deleted
use opendebrid.Prelude.{ℕ, Bool, Option, none, some, List, [], ◌∷◌, map, Text, if◌then◌else◌}
use opendebrid.Prelude.Exec.{Err, Result, ok, err}
use opendebrid.Api.Accounts.{Http, answered, refused}
use opendebrid.Api.Downloads.{Page, page_of, answer, in_int32, paged, negative_page}
use opendebrid.Database.Jobs.{fail_node_jobs_for_deletion}
use opendebrid.Database.Model.{Node}
use opendebrid.Database.Nodes.{ListNodesRow, get_node, list_nodes, delete_node}
use opendebrid.World.{World, query}

pub record NodeDto : Type 0 where
  pub id : Text
  pub engines : List Text
  pub is_online : Bool
  pub is_controller : Bool
  pub disk_total : ℕ
  pub disk_available : ℕ

module _ (parse : Text → List Text) where
  abbrev pub node_dto : Node → NodeDto
  node_dto n = record {
    id = n.id;
    engines = parse n.engines;
    is_online = n.is_online;
    is_controller = n.is_controller;
    disk_total = n.disk_total;
    disk_available = n.disk_available;
  }

  abbrev pub listed_total : List ListNodesRow → ℕ
  listed_total [] = 0
  listed_total (r ∷ rs) = r.total_count

  abbrev pub node_page : ℕ → ℕ → List ListNodesRow → Page NodeDto
  node_page limit offset rows =
      page_of (map (λ (r : ListNodesRow). node_dto r.node) rows) (listed_total rows) limit offset

  unfoldable pub list : ℕ → ℕ → World → Http (Page NodeDto) × World
  unfolding in_int32
  list limit offset w = answer 500 (node_page limit offset) (
      paged (query negative_page) (λ l o. query (list_nodes l o)) (in_int32 limit) (in_int32 offset)
        w)

  unfoldable pub get : Text → World → Http NodeDto × World
  get id w = answer 404 node_dto (query (get_node id) w)

abbrev pub deleted : Result (Unit {0}) × World → Http (Unit {0}) × World
deleted (ok u, w) = (answered tt, w)
deleted (err e, w) = (refused 500, w)

abbrev pub delete_failed : Text → Result (Unit {0}) × World → Http (Unit {0}) × World
delete_failed id (ok u, w) = deleted (query {A = Unit {0}} (delete_node id) w)
delete_failed id (err e, w) = (refused 500, w)

abbrev pub delete_found : Text → Result Node × World → Http (Unit {0}) × World
delete_found id (err e, w) = (refused 404, w)
delete_found id (ok n, w) =
    if n.is_online
    then (refused 409, w)
    else delete_failed id (query {A = Unit {0}} (fail_node_jobs_for_deletion id) w)

-- `Delete`
unfoldable pub delete : Text → World → Http (Unit {0}) × World
delete id w = delete_found id (query (get_node id) w)
