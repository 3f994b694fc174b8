-- ===== src/Scheduler/Fairness.antt =====
-- A round of `RoundRobin.Select` (internal/controller/scheduler/strategy.go).
use native.Mathlib.Nat.{mod-add-mod, add-mod_right, mod-eq_of_lt, mod-lt}
use opendebrid.Prelude.{
  ℕ, zero, suc, ◌+◌, ◌-◌, ◌%◌, ◌<◌, ◌≡◌, ◌⊎◌, refl, sym, ap, ◌∙◌, some, List, [], ◌∷◌, arith,
  length, get_elem?, inl, inr, ltb, Bool-cases,
}
use opendebrid.Scheduler.{round_robin, word}
use opendebrid.World.{CachedNode}

-- What `m` selections in a row return.
abbrev pub picks : ℕ → CachedNode → List CachedNode → ℕ → List CachedNode
picks zero c cs counter = []
picks (suc m) c cs counter = let (x, next) = round_robin c cs counter in x ∷ picks m c cs next

get_elem?-some :
    (xs : List CachedNode) (i : ℕ) → i < length xs → (x : CachedNode) × (get_elem? xs i ≡ some x)
get_elem?-some [] i h = absurd (omega arith)
get_elem?-some (x ∷ xs) zero h = (x, refl)
get_elem?-some (x ∷ xs) (suc i) h = get_elem?-some xs i (omega arith)

round_robin_lem :
    (c : CachedNode) (cs : List CachedNode) (counter : ℕ)
    → suc counter < word
    → (some (round_robin c cs counter).0 ≡ get_elem? (c ∷ cs) (counter % length (c ∷ cs)))
      × ((round_robin c cs counter).1 ≡ suc counter)
unfolding round_robin
round_robin_lem c cs counter h =
    let e : ((counter + 1) % word + word - 1) % word ≡ counter = omega arith in
    let (x, f) =
      get_elem?-some (c ∷ cs) (counter % length (c ∷ cs)) (mod-lt counter (omega arith)) in
    (rw (e, round_robin) (rw (f, round_robin) refl), omega arith)

picks-get :
    (m j : ℕ) (c : CachedNode) (cs : List CachedNode) (counter : ℕ)
    → j < m
    → counter + m < word
    → get_elem? (picks m c cs counter) j ≡ get_elem? (c ∷ cs) ((counter + j) % length (c ∷ cs))
picks-get zero j c cs counter h small = absurd (omega arith)
picks-get (suc m) zero c cs counter h small =
    (round_robin_lem c cs counter (omega arith)).0
    ∙ ap (λ k. get_elem? (c ∷ cs) (k % length (c ∷ cs))) (omega arith)
picks-get (suc m) (suc j) c cs counter h small =
    let e = (round_robin_lem c cs counter (omega arith)).1 in
    rw e (
      picks-get m j c cs (suc counter) (omega arith) (omega arith)
      ∙ ap (λ k. get_elem? (c ∷ cs) (k % length (c ∷ cs))) (omega arith))

-- How many rounds after `r` the index `i` comes up.
distance : (n r i : ℕ) → r < n → i < n → (j : ℕ) × (j < n) × ((r + j ≡ i) ⊎ (r + j ≡ i + n))
distance n r i hr hi = elim (Bool-cases (ltb i r)) [
  | inl below ↦ (i + n - r, ground (arith, below), inr (ground (arith, below)))
  | inr above ↦ (i - r, omega arith, inl (ground (arith, above)))
]

reached : (n r j i : ℕ) → i < n → ((r + j ≡ i) ⊎ (r + j ≡ i + n)) → (r + j) % n ≡ i
reached n r j i hi (inl e) = rw e (mod-eq_of_lt hi)
reached n r j i hi (inr e) = rw e (add-mod_right i n ∙ mod-eq_of_lt hi)

-- In as many selections in a row as there are candidates, with no wrap of the counter, every
-- candidate is selected.
pub picks-fair :
    (c : CachedNode) (cs : List CachedNode) (counter i : ℕ)
    → counter + length (c ∷ cs) < word
    → i < length (c ∷ cs)
    → (j : ℕ) × (j < length (c ∷ cs))
      × (get_elem? (picks (length (c ∷ cs)) c cs counter) j ≡ get_elem? (c ∷ cs) i)
picks-fair c cs counter i small hi =
    let n = length (c ∷ cs) in
    let (j, lt, e) = distance n (counter % n) i (mod-lt counter (omega arith)) hi in
    (
      j,
      lt,
      picks-get n j c cs counter lt small
          ∙ ap (get_elem? (c ∷ cs))
              (sym (mod-add-mod counter n j) ∙ reached n (counter % n) j i hi e),
    )
