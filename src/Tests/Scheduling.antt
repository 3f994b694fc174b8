-- ===== src/Tests/Scheduling.antt =====
-- The scheduler at concrete nodes.
use opendebrid.Prelude.{ℕ, ◌≡◌, ◌<◌, some, [], ◌∷◌, codes, get_elem?, arith}
use opendebrid.Scheduler.Fairness.{picks, picks-fair}
use opendebrid.World.{CachedNode}
use opendebrid.Tests.Downloads.{node1}

abbrev cached1 : CachedNode
cached1 = record { node = node1; engines = codes "aria2" ∷ [] }

abbrev cached2 : CachedNode
cached2 = record { node = record node1 { id = codes "n2" }; engines = codes "ytdlp" ∷ [] }

-- Two selections in a row reach the second of two nodes.
picks-fair_example :
    (j : ℕ) × (j < 2) × (get_elem? (picks 2 cached1 (cached2 ∷ []) 5) j ≡ some cached2)
picks-fair_example = picks-fair cached1 (cached2 ∷ []) 5 1 (omega arith) (omega arith)
