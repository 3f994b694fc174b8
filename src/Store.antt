-- ===== src/Store.antt =====
-- What the set-up, the settings API and the web pages run on: the tables of settings and of users.
use opendebrid.Prelude.{◌≡◌, Bool, true, false, List, [], ◌∷◌}
use opendebrid.Prelude.Ensures.{Ensures}
use opendebrid.Prelude.Exec.{Result, ok, err, unavailable, Exec}
use opendebrid.Api.Accounts.{Users}
use opendebrid.Database.Settings.{Settings}

-- The two tables, and the lost connections that are still to come.
pub record Store : Type 0 where
  pub settings : Settings
  pub users : Users
  pub faults : List Bool

module _ {A : Type 0} where
  abbrev pub put_settings : Store → Result A × Settings → Result A × Store
  put_settings s (r, ss) = (r, record s { settings = ss })

  abbrev pub put_users : Store → Result A × Users → Result A × Store
  put_users s (r, us) = (r, record s { users = us })

  abbrev pub reached : List Bool → (Store → Result A × Store) → Exec Store A
  reached [] q s = q s
  reached (true ∷ fs) q s = (err unavailable, record s { faults = fs })
  reached (false ∷ fs) q s = q (record s { faults = fs })

  abbrev pub on_settings : Exec Settings A → Exec Store A
  on_settings q s = reached s.faults (λ s. put_settings s (q s.settings)) s

  abbrev pub on_users : Exec Users A → Exec Store A
  on_users q s = reached s.faults (λ s. put_users s (q s.users)) s

-- The same tables, with every query to come reaching the database.
abbrev pub calm : Store → Store
calm s = record s { faults = [] }

-- What a query ensures, it ensures over a connection that may be lost.
module _ {A : Type 0} (Q : A → Settings → Type 0) (q : Exec Settings A)
    (h : Ensures (λ _. Unit) q Q) where
  pub Ensures-on_settings : Ensures (λ _. Unit) (on_settings q) (λ a s. Q a s.settings)
  Ensures-on_settings s p = go s.faults
    where
      go :
          (fs : List Bool) (a : A)
          → (reached fs (λ s. put_settings s (q s.settings)) s).0 ≡ ok a
          → Q a (reached fs (λ s. put_settings s (q s.settings)) s).1.settings
      go [] a e = h s.settings tt a e
      go (true ∷ fs) a e = cc
      go (false ∷ fs) a e = h s.settings tt a e
