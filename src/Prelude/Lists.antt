-- ===== src/Prelude/Lists.antt =====
-- Lists over the native numbers, tests and predicates on all their elements, and tables: lists of
-- rows that are searched, updated and filtered by a test.
use Prim.Native.Nat.{ℕ, zero, suc, ◌+◌, ◌-◌, ◌≤◌, min}
use mathlib.Core.Path.{◌≡◌, refl, ap}
use mathlib.Core.Logic.{◌⊎◌, inl, inr}
use mathlib.Core.Bool.{Bool, true, false, ◌||◌}
use mathlib.Core.List.{List, [], ◌∷◌, ◌++◌}
use mathlib.Core.Option.{Option, none, some}
use native.Mathlib.Omega.{arith}
use opendebrid.Prelude.Tests.{if◌then◌else◌, Bool-cases}

module _ {ℓ} {A : Type ℓ} where
  abbrev pub length : List A → ℕ
  length [] = 0
  length (x ∷ xs) = suc (length xs)

  abbrev pub get_elem? : List A → ℕ → Option A
  get_elem? [] i = none
  get_elem? (x ∷ xs) zero = some x
  get_elem? (x ∷ xs) (suc i) = get_elem? xs i

  abbrev pub take : ℕ → List A → List A
  take zero xs = []
  take (suc n) [] = []
  take (suc n) (x ∷ xs) = x ∷ take n xs

  abbrev pub drop : ℕ → List A → List A
  drop zero xs = xs
  drop (suc n) [] = []
  drop (suc n) (x ∷ xs) = drop n xs

  pub length-append : (xs ys : List A) → length (xs ++ ys) ≡ length xs + length ys
  length-append [] ys = omega arith
  length-append (x ∷ xs) ys = omega (arith, length-append xs ys)

  pub length-drop : (n : ℕ) (xs : List A) → length (drop n xs) ≡ length xs - n
  length-drop zero xs = omega arith
  length-drop (suc n) [] = omega arith
  length-drop (suc n) (x ∷ xs) = omega (arith, length-drop n xs)

  pub length-take : (n : ℕ) (xs : List A) → length (take n xs) ≡ min n (length xs)
  length-take zero xs = omega arith
  length-take (suc n) [] = omega arith
  length-take (suc n) (x ∷ xs) = omega (arith, length-take n xs)

  pub drop-append : (xs ys : List A) → drop (length xs) (xs ++ ys) ≡ ys
  drop-append [] ys = refl
  drop-append (x ∷ xs) ys = drop-append xs ys

  pub take-append : (xs ys : List A) → take (length xs) (xs ++ ys) ≡ xs
  take-append [] ys = refl
  take-append (x ∷ xs) ys = ap (λ t. x ∷ t) (take-append xs ys)

  pub take-le : (n : ℕ) (xs : List A) → length xs ≤ n → take n xs ≡ xs
  take-le zero [] h = refl
  take-le zero (x ∷ xs) h = absurd (omega arith)
  take-le (suc n) [] h = refl
  take-le (suc n) (x ∷ xs) h = ap (λ t. x ∷ t) (take-le n xs (omega arith))

-- Every element satisfies `P`: a predicate that computes to a product.
abbrev pub All {ℓ κ} : {A : Type ℓ} → (A → Type κ) → List A → Type κ
All P [] = Unit
All P (x ∷ xs) = P x × All P xs

module _ {ℓ} {A : Type ℓ} where
  -- The first row that passes the test.
  abbrev pub find : (A → Bool) → List A → Option A
  find t [] = none
  find t (x ∷ xs) = if t x then some x else find t xs

  abbrev pub any : (A → Bool) → List A → Bool
  any t [] = false
  any t (x ∷ xs) = t x || any t xs

  -- The rows that pass the test, in order.
  pub any-append : (t : A → Bool) (xs ys : List A) → any t (xs ++ ys) ≡ (any t xs || any t ys)
  any-append t [] ys = refl
  any-append t (x ∷ xs) ys = ground (arith, any-append t xs ys)

  abbrev pub select : (A → Bool) → List A → List A
  select t [] = []
  select t (x ∷ xs) = let rest = select t xs in if t x then x ∷ rest else rest

  -- `UPDATE ... SET f WHERE t`
  abbrev pub update_where : (A → Bool) → (A → A) → List A → List A
  update_where t f [] = []
  update_where t f (x ∷ xs) = (if t x then f x else x) ∷ update_where t f xs

  abbrev pub count_where : (A → Bool) → List A → ℕ
  count_where t [] = 0
  count_where t (x ∷ xs) = let rest = count_where t xs in if t x then suc rest else rest

  pub find-test : (t : A → Bool) (xs : List A) (a : A) → find t xs ≡ some a → t a ≡ true
  find-test t [] a h = cc
  find-test t (x ∷ xs) a h = ground (arith, find-test t xs a)

-- Membership that computes to a sum.
module _ {A : Type 0} where
  abbrev pub In : A → List A → Type 0
  In a [] = ⊥
  In a (x ∷ xs) = (a ≡ x) ⊎ In a xs

  -- A row that the test selects stands updated among the updated rows.
  pub In-update_where :
      (t : A → Bool) (f : A → A) (a : A) (xs : List A)
      → t a ≡ true
      → In a xs
      → In (f a) (update_where t f xs)
  In-update_where t f a [] h m = absurd m
  In-update_where t f a (x ∷ xs) h (inl e) = inl (ground (arith, e, ap t e))
  In-update_where t f a (x ∷ xs) h (inr m) = inr (In-update_where t f a xs h m)

  -- What is selected was there, and passes the test.
  pub In-of-select :
      (t : A → Bool) (xs : List A) (x : A) → In x (select t xs) → In x xs × (t x ≡ true)
  In-of-select t [] x m = absurd m
  In-of-select t (y ∷ xs) x m = elim (Bool-cases (t y)) [
    | inl e ↦ kept e (λ n. In-of-select t xs x n) (rw e at m)
    | inr e ↦ let (n, h) = In-of-select t xs x (rw e at m) in (inr n, h)
  ]
    where
      kept :
          t y ≡ true
          → (In x (select t xs) → In x xs × (t x ≡ true))
          → In x (y ∷ select t xs)
          → In x (y ∷ xs) × (t x ≡ true)
      kept e rest (inl p) = (inl p, rw p e)
      kept e rest (inr n) = let (n', h) = rest n in (inr n', h)
