-- ===== src/Scheduler/Eligible.antt =====
-- Which node `SelectNode` (internal/controller/scheduler/scheduler.go) returns.
use opendebrid.Prelude.{
  ℕ, zero, suc, ◌≡◌, refl, ◌+◌, ◌-◌, ◌%◌, Bool, true, Option, none, some, List, [], ◌∷◌, Text,
  is_empty, eq_text, find, select, length, get_elem?, In, In-of-select, arith, Bool-cases, inl, inr,
}
use opendebrid.Prelude.Exec.{Result, ok, err, continue}
use opendebrid.Scheduler.{
  NodeSelectRequest, word, or_first, preferred_or_next, NodeSelection, candidate, selection_of,
  round_robin, rotate, choose, online_nodes, select_node,
}
use opendebrid.World.{World, CachedNode}

module _ {A : Type 0} where
  In-get_elem? : (xs : List A) (i : ℕ) (x : A) → get_elem? xs i ≡ some x → In x xs
  In-get_elem? [] i x h = cc
  In-get_elem? (y ∷ xs) zero x h = inl (ground (arith, h))
  In-get_elem? (y ∷ xs) (suc i) x h = inr (In-get_elem? xs i x h)

  In-find : (t : A → Bool) (xs : List A) (x : A) → find t xs ≡ some x → In x xs
  In-find t [] x h = cc
  In-find t (y ∷ xs) x h = elim (Bool-cases (t y)) [
    | inl e ↦ inl (ground (arith, rw e at h))
    | inr e ↦ inr (In-find t xs x (rw e at h))
  ]

-- One of the nodes, by its selection.
abbrev pub SelectedFrom : List CachedNode → NodeSelection → Type 0
SelectedFrom cs s = (c : CachedNode) × In c cs × (s ≡ selection_of c)

or_first-In :
    (c : CachedNode) (cs : List CachedNode) (o : Option CachedNode)
    → In c cs
    → ((x : CachedNode) → o ≡ some x → In x cs)
    → In (or_first c o) cs
or_first-In c cs none m h = m
or_first-In c cs (some x) m h = h x refl

index-In :
    (c : CachedNode) (cs : List CachedNode) (i : ℕ)
    → In (or_first c (get_elem? (c ∷ cs) i)) (c ∷ cs)
index-In c cs i =
    or_first-In c (c ∷ cs) (get_elem? (c ∷ cs) i) (inl refl) (λ x. In-get_elem? (c ∷ cs) i x)

round_robin-In :
    (c : CachedNode) (cs : List CachedNode) (k : ℕ) → In (round_robin c cs k).0 (c ∷ cs)
unfolding round_robin
round_robin-In c cs k = index-In c cs ((((k + 1) % word) + word - 1) % word % length (c ∷ cs))

rotated :
    (c : CachedNode) (cs : List CachedNode) (w : World) (s : NodeSelection)
    → (rotate c cs w).0 ≡ ok s
    → SelectedFrom (c ∷ cs) s
rotated c cs w s h =
    ((round_robin c cs w.counter).0, round_robin-In c cs w.counter, ground (arith, h))

choose-SelectedFrom :
    (req : NodeSelectRequest) (cs : List CachedNode) (w : World) (s : NodeSelection)
    → (choose req cs w).0 ≡ ok s
    → SelectedFrom cs s
choose-SelectedFrom req [] w s h = cc
choose-SelectedFrom req (c ∷ cs) w s h = elim (Bool-cases (is_empty req.preferred_node)) [
  | inl e ↦ rotated c cs w s (rw e at h)
  | inr e ↦ preferred (find (λ x. eq_text x.node.id req.preferred_node) (c ∷ cs)) refl (rw e at h)
]
  where
    preferred :
        (o : Option CachedNode)
        → find (λ x. eq_text x.node.id req.preferred_node) (c ∷ cs) ≡ o
        → (preferred_or_next c cs o w).0 ≡ ok s
        → SelectedFrom (c ∷ cs) s
    preferred none e k = rotated c cs w s k
    preferred (some x) e k =
        (x, In-find (λ y. eq_text y.node.id req.preferred_node) (c ∷ cs) x e, ground (arith, k))

module _ (parse_engines : Text → Option (List Text)) where
  -- A selected node is one of the nodes that the cache or the database gives, and a candidate: it has the
  -- engine that is asked for, and the space.
  pub select_node-candidate :
      (req : NodeSelectRequest) (w : World) (s : NodeSelection)
      → (select_node parse_engines req w).0 ≡ ok s
      → (nodes : List CachedNode) × (c : CachedNode) × ((online_nodes parse_engines w).0 ≡ ok nodes)
        × In c nodes
        × (candidate req c ≡ true)
        × (s ≡ selection_of c)
  unfolding select_node
  select_node-candidate req w s h = go (online_nodes parse_engines w).0 refl h
    where
      go :
          (r : Result (List CachedNode))
          → (online_nodes parse_engines w).0 ≡ r
          → (continue r
              (λ nodes. choose req (select (candidate req) nodes))
              (online_nodes parse_engines w).1).0
            ≡ ok s
          → (nodes : List CachedNode) × (c : CachedNode) × ((online_nodes parse_engines w).0
              ≡ ok nodes)
            × In c nodes
            × (candidate req c ≡ true)
            × (s ≡ selection_of c)
      go (err x) e k = cc
      go (ok nodes) e k =
          let (c, m, p) =
            choose-SelectedFrom req (select (candidate req) nodes) (online_nodes parse_engines w).1
              s k in
          let (n, t) = In-of-select (candidate req) nodes c m in (nodes, c, e, n, t, p)
