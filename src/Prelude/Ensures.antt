-- ===== src/Prelude/Ensures.antt =====
-- What code ensures where it returns.
use mathlib.Core.Path.{◌≡◌, refl, ◌∙◌}
use mathlib.Core.Bool.{Bool, true, false}
use opendebrid.Prelude.Tests.{if◌then◌else◌}
use opendebrid.Prelude.Exec.{Err, Result, ok, err, Exec, pure, raise, attempt, continue, ◌>>=◌}

-- Code that, where it returns, takes `P` to `Q`.
abbrev pub Ensures : {S A : Type 0} → (S → Type 0) → Exec S A → (A → S → Type 0) → Type 0
Ensures {S} {A} P m Q = (s : S) → P s → (a : A) → (m s).0 ≡ ok a → Q a (m s).1

module _ {S A : Type 0} (P : S → Type 0) where
  pub Ensures-pure : (a : A) → Ensures P (pure a) (λ _. P)
  Ensures-pure a s p b e = p

module _ {S A B : Type 0} where
  Ensures-continue :
      (Q : A → S → Type 0) (R : B → S → Type 0) (f : A → Exec S B)
      → ((a : A) → Ensures (Q a) (f a) R)
      → (r : Result A) (s : S) → ((a : A) → r ≡ ok a → Q a s)
      → (b : B) → (continue r f s).0 ≡ ok b
      → R b (continue r f s).1
  Ensures-continue Q R f k (ok a) s h b e = k a s (h a refl) b e
  Ensures-continue Q R f k (err x) s h b e = cc

  pub Ensures-bind :
      (P : S → Type 0) (Q : A → S → Type 0) (R : B → S → Type 0) (m : Exec S A) (f : A → Exec S B)
      → Ensures P m Q
      → ((a : A) → Ensures (Q a) (f a) R)
      → Ensures P (m >>= f) R
  Ensures-bind P Q R m f h k s p = Ensures-continue Q R f k (m s).0 (m s).1 (h s p)

module _ {S A : Type 0} (P : S → Type 0) (Q : A → S → Type 0) where
  pub Ensures-raise : (e : Err) → Ensures P (raise e) Q
  Ensures-raise e s p a h = cc

  pub Ensures-if :
      (b : Bool) (m n : Exec S A) → Ensures P m Q → Ensures P n Q → Ensures P (if b then m else n) Q
  Ensures-if true m n hm hn = hm
  Ensures-if false m n hm hn = hn

-- Code of which only the result matters ensures nothing.
pub Ensures-any : {S A : Type 0} (m : Exec S A) → Ensures (λ _. Unit) m (λ _ _. Unit)
Ensures-any m s p a h = tt

-- What is looked at ensures what it did, where it returned.
pub Ensures-attempt :
    {S A : Type 0} (P : S → Type 0) (Q : A → S → Type 0) (m : Exec S A)
    → Ensures P m Q
    → Ensures P (attempt m) (λ r s. (a : A) → r ≡ ok a → Q a s)
Ensures-attempt P Q m h s p r e a k = h s p a (ok_inj (m s).0 r e ∙ k)
  where
    ok_inj : {A : Type 0} (a b : A) → ok a ≡ ok b → a ≡ b
    ok_inj a b h = cc
