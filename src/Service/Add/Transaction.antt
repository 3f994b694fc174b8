-- ===== src/Service/Add/Transaction.antt =====
-- The transaction of `Add` (internal/core/service/download.go): code by what it ensures where it returns.
use opendebrid.Prelude.{◌≡◌, refl}
use opendebrid.Prelude.Ensures.{Ensures, Ensures-pure, Ensures-bind}
use opendebrid.Prelude.Exec.{Result, ok, err, Exec, pure, Preserves}
use opendebrid.Database.Model.{Db}
use opendebrid.Service.Add.{transaction, roll_back, no_change}
use opendebrid.World.{Ensures-query, World, OnDb, query}

no_change-Ensures : (P : Db → Type 0) → Ensures (OnDb P) (query no_change) (λ _. OnDb P)
no_change-Ensures P = Ensures-query P (λ _. P) no_change (λ db p a e. p)

module _ {A : Type 0} (P : Db → Type 0) where
  Preserves-roll_back :
      (old : Db) (r : Result A) (w : World)
      → P old
      → ((a : A) → r ≡ ok a → P w.db)
      → P (roll_back old (r, w)).1.db
  Preserves-roll_back old (ok a) w p h = h a refl
  Preserves-roll_back old (err e) w p h = p

  -- A transaction preserves what its code restores where it returns.
  pub Preserves-transaction :
      (m : Exec World A) → Ensures (OnDb P) m (λ _. OnDb P) → Preserves (transaction m) (OnDb P)
  Preserves-transaction m h =
      let end = λ (a : A).
        Ensures-bind (OnDb P) (λ (_ : Unit). OnDb P) (λ (_ : A). OnDb P) (query no_change)
          (λ _. pure a) (no_change-Ensures P) (λ _. Ensures-pure (OnDb P) a) in
      let body =
        Ensures-bind (OnDb P) (λ (_ : Unit). OnDb P) (λ (_ : A). OnDb P) (query no_change) _
          (no_change-Ensures P)
          (λ _. Ensures-bind (OnDb P) (λ (_ : A). OnDb P) (λ (_ : A). OnDb P) m _ h end) in
      record { after = λ w p. Preserves-roll_back w.db _ _ p (body w p) }
