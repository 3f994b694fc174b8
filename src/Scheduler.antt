-- ===== src/Scheduler.antt =====
-- The scheduler (internal/controller/scheduler): the cached list of online nodes, the filter of
-- candidates and the round-robin strategy. `parse_engines` is encoding/json on the engines column.
pub mod Fairness
pub mod Eligible
use opendebrid.Prelude.{
  ℕ, ◌+◌, ◌-◌, ◌%◌, ◌^◌, Bool, not, ◌&&◌, ◌||◌, Option, none, some, List, [], ◌∷◌, Text, eq_text,
  is_empty, any, find, select, length, get_elem?, ltb, if◌then◌else◌,
}
use opendebrid.Prelude.Exec.{ok, no_eligible_node, Exec, pure, raise, ◌>>=◌}
use opendebrid.Database.Model.{Node}
use opendebrid.Database.Nodes.{list_online_nodes}
use opendebrid.World.{World, CachedNode, query}

-- internal/core/service/download.go
pub record NodeSelectRequest : Type 0 where
  pub engine : Text
  pub estimated_size : ℕ
  pub preferred_node : Text

pub record NodeSelection : Type 0 where
  pub node_id : Text
  pub endpoint : Text

-- nodesCacheTTL, in seconds
abbrev pub nodes_cache_ttl : ℕ
nodes_cache_ttl = 10

abbrev pub word : ℕ
word = 2 ^ 64

abbrev pub candidate : NodeSelectRequest → CachedNode → Bool
candidate req n =
    (is_empty req.engine || any (λ e. eq_text e req.engine) n.engines)
    && not (ltb 0 req.estimated_size && ltb n.node.disk_available req.estimated_size)

abbrev pub selection_of : CachedNode → NodeSelection
selection_of c = record { node_id = c.node.id; endpoint = c.node.file_endpoint }

abbrev pub or_first : CachedNode → Option CachedNode → CachedNode
or_first c none = c
or_first c (some x) = x

-- `counter.Add(1) - 1` on a uint64, and the element of a list that is not empty.
unfoldable pub round_robin : CachedNode → List CachedNode → ℕ → CachedNode × ℕ
round_robin c cs counter =
    let next = (counter + 1) % word in
    let idx = (next + word - 1) % word in
    (or_first c (get_elem? (c ∷ cs) (idx % length (c ∷ cs))), next)

abbrev pub rotate : CachedNode → List CachedNode → Exec World NodeSelection
rotate c cs w =
    let (chosen, counter) = round_robin c cs w.counter in
    (ok (selection_of chosen), record w { counter = counter })

-- The preferred node where it is among the candidates, and the next in turn where it is not.
abbrev pub preferred_or_next :
    CachedNode → List CachedNode → Option CachedNode → Exec World NodeSelection
preferred_or_next c cs none = rotate c cs
preferred_or_next c cs (some x) = pure (selection_of x)

abbrev pub choose : NodeSelectRequest → List CachedNode → Exec World NodeSelection
choose req [] = raise no_eligible_node
choose req (c ∷ cs) =
    if is_empty req.preferred_node
    then rotate c cs
    else preferred_or_next c cs (find (λ x. eq_text x.node.id req.preferred_node) (c ∷ cs))

module _ (parse_engines : Text → Option (List Text)) where
  -- A node whose engines do not parse is left out.
  abbrev pub parse_nodes : List Node → List CachedNode
  parse_nodes [] = []
  parse_nodes (n ∷ ns) =
      let rest = parse_nodes ns in
      elim (parse_engines n.engines) [
        | none ↦ rest
        | some es ↦ record { node = n; engines = es } ∷ rest
      ]

  abbrev pub refresh : Exec World (List CachedNode)
  refresh = do
    nodes ← query list_online_nodes
    λ w. (
      ok (parse_nodes nodes),
      record w { cached_nodes = some (parse_nodes nodes); cached_at = w.db.clock },
    )

  abbrev pub cached_or_fresh : Option (List CachedNode) → Exec World (List CachedNode)
  cached_or_fresh none = refresh
  cached_or_fresh (some nodes) =
      λ w. if ltb (w.db.clock - w.cached_at) nodes_cache_ttl then (ok nodes, w) else refresh w

  unfoldable pub online_nodes : Exec World (List CachedNode)
  online_nodes w = cached_or_fresh w.cached_nodes w

  unfoldable pub select_node : NodeSelectRequest → Exec World NodeSelection
  select_node req = do nodes ← online_nodes; choose req (select (candidate req) nodes)
