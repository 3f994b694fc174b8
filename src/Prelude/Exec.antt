-- ===== src/Prelude/Exec.antt =====
-- Code that changes a state and may fail: what was written before a failure stays written.
use mathlib.Core.Bool.{Bool, true, false}
use opendebrid.Prelude.Tests.{if◌then◌else◌}
use opendebrid.Prelude.Texts.{Text}

-- The errors that the program tells apart; `remote` carries the text of an error from outside.
pub data Err : Type 0 where
  no_rows unique_violation foreign_key not_null unavailable : Err
  unknown_engine no_cache_key no_eligible_node not_connected : Err
  not_completed file_not_found no_node not_supported : Err
  remote : Text → Err

pub data Result {ℓ} (A : Type ℓ) : Type ℓ where
  ok : A → Result A
  err : Err → Result A

abbrev pub is_ok : {A : Type 0} → Result A → Bool
is_ok (ok a) = true
is_ok (err e) = false

abbrev pub Exec {ℓ} : Type ℓ → Type ℓ → Type ℓ
Exec S A = S → Result A × S

module _ {ℓ} {S A : Type ℓ} where
  abbrev pub raise : Err → Exec S A
  raise e s = (err e, s)

  abbrev pub pure : A → Exec S A
  pure a s = (ok a, s)

  abbrev pub lift : Result A → Exec S A
  lift r s = (r, s)

  -- The error becomes a value: the caller looks at it.
  abbrev pub attempt : Exec S A → Exec S (Result A)
  attempt m s = let (r, s') = m s in (ok r, s')

module _ {ℓ} {S A B : Type ℓ} where
  abbrev pub continue : Result A → (A → Exec S B) → Exec S B
  continue (ok a) f s = f a s
  continue (err e) f s = (err e, s)

  infixl 5 ◌>>=◌ ◌>>◌
  abbrev pub ◌>>=◌ : Exec S A → (A → Exec S B) → Exec S B
  ◌>>=◌ m f s = let (r, s') = m s in continue r f s'

  abbrev pub ◌>>◌ : Exec S A → Exec S B → Exec S B
  m >> n = m >>= λ _. n

-- What holds of the state before the code still holds after it, also where it fails.
pub record Preserves {ℓ} {S A : Type ℓ} (code : Exec S A) (P : S → Type ℓ) : Type ℓ where
  pub after : (s : S) → P s → P (code s).1

module _ {ℓ} {S A : Type ℓ} (P : S → Type ℓ) where
  pub Preserves-pure : {a : A} → Preserves (pure a) P
  Preserves-pure = record { after = λ s p. p }

  pub Preserves-raise : {e : Err} → Preserves (raise {A = A} e) P
  Preserves-raise = record { after = λ s p. p }

  pub Preserves-lift : {r : Result A} → Preserves (lift r) P
  Preserves-lift = record { after = λ s p. p }

  pub Preserves-attempt : {code : Exec S A} → Preserves code P → Preserves (attempt code) P
  Preserves-attempt c = record { after = c.after }

  pub Preserves-if :
      (b : Bool) {m n : Exec S A} → Preserves m P → Preserves n P → Preserves (if b then m else n) P
  Preserves-if true km kn = km
  Preserves-if false km kn = kn

module _ {ℓ} {S A B : Type ℓ} (P : S → Type ℓ) (next : A → Exec S B)
    (rest : (a : A) → Preserves (next a) P) where
  Preserves-continue : (r : Result A) (s : S) → P s → P (continue r next s).1
  Preserves-continue (err e) s p = p
  Preserves-continue (ok a) s p = (rest a).after s p

  pub Preserves-bind : (code : Exec S A) → Preserves code P → Preserves (code >>= next) P
  Preserves-bind code first = record {
    after = λ s p. Preserves-continue (code s).0 (code s).1 (first.after s p);
  }
