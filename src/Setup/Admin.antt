-- ===== src/Setup/Admin.antt =====
-- The first administrator.
use opendebrid.Prelude.{
  ℕ, suc, ◌+◌, ◌≡◌, refl, ◌⊎◌, subst, true, false, ◌||◌, some, List, [], ◌∷◌, Text, codes, eq_text,
  eq_text_refl, is_empty, any, count_where, leb, arith, Bool-cases, inl, inr,
}
use opendebrid.Prelude.Exec.{Result, ok, err, Exec, pure, lift, ◌>>=◌}
use opendebrid.Api.Accounts.{
  User, AuthEnv, Claims, answered, LoginDto, login, create_user, new_user,
}
use opendebrid.Setup.{chosen, create_admin, ensure_admin}
use opendebrid.Store.{Store, calm, on_users}
use opendebrid.Util.Uuid.{uuid_to_str}

-- What the set-up leaves where it makes a password: an administrator who comes first among the users.
abbrev pub Made : (Text → Result Text) → Text → Text → List ℕ × List ℕ → Store → Store → Type 0
Made hash username password fresh s s' =
    (h : Text) × (hash password ≡ ok h)
    × (s'.users ≡ new_user username (codes "admin@localhost") h (codes "admin") fresh ∷ s.users)

module _ (hash_password : Text → Result Text) where
  create_admin-Made :
      (username password p : Text) (fresh : List ℕ × List ℕ) (s : Store)
      → (create_admin hash_password username password fresh (calm s)).0 ≡ ok p
      → (password ≡ p)
        × Made hash_password username password fresh s
            (create_admin hash_password username password fresh (calm s)).1
  unfolding create_user
  create_admin-Made username password p fresh s e = hashed (hash_password password) refl e
    where
      after : Result Text → Exec Store Text
      after r = do
        hash ← lift r
        on_users (create_user username (codes "admin@localhost") hash (codes "admin") fresh)
            >>= λ u. pure password

      hashed :
          (r : Result Text)
          → hash_password password ≡ r
          → (after r (calm s)).0 ≡ ok p
          → (password ≡ p) × Made hash_password username password fresh s (after r (calm s)).1
      hashed (err x) h e = cc
      hashed (ok h) k e =
          elim (Bool-cases (
            any (λ u. eq_text u.username username || eq_text u.email (codes "admin@localhost"))
              s.users)) [
                | inl taken ↦ absurd (cc (rw taken at e))
                | inr free ↦ rw free (cc (rw free at e), (h, k, refl))
              ]

  -- Either there was an administrator, or one is made.
  ensure_admin-cases :
      (username password p : Text) (random : Result (List ℕ)) (fresh : List ℕ × List ℕ) (s : Store)
      → (ensure_admin hash_password username password random fresh (calm s)).0 ≡ ok p
      → (let s' = (ensure_admin hash_password username password random fresh (calm s)).1 in
          ((p ≡ [])
            × (leb 1 (count_where (λ (u : User). eq_text u.role (codes "admin")) s'.users) ≡ true)
            × (s' ≡ calm s))
          ⊎ Made hash_password username p fresh s s')
  unfolding ensure_admin
  ensure_admin-cases username password p random fresh s e =
      elim (Bool-cases
        (leb 1 (count_where (λ (u : User). eq_text u.role (codes "admin")) s.users))) [
          | inl some_admin ↦ inl (rw some_admin (cc (rw some_admin at e), some_admin, refl))
          | inr no_admin ↦ inr (rw no_admin (made (chosen password random) (rw no_admin at e)))
        ]
    where
      made :
          (r : Result Text)
          → ((do p ← lift r; create_admin hash_password username p fresh) (calm s)).0 ≡ ok p
          → Made hash_password username p fresh s
              ((do p ← lift r; create_admin hash_password username p fresh) (calm s)).1
      made (err x) e = cc
      made (ok q) e =
          let (same, m) = create_admin-Made username q p fresh s e in
          subst
            (λ t.
              Made hash_password username t fresh s
                (create_admin hash_password username q fresh (calm s)).1)
            {x = q} {y = p} same m

module _ (env : AuthEnv) where
  -- Where the set-up shows a password, the login with it and the name of the administrator gives a token for
  -- an account with the role of an administrator, provided that hashes match what they were made of and
  -- that tokens can be signed.
  pub login-ensure_admin :
      (username password p : Text) (random : Result (List ℕ)) (fresh : List ℕ × List ℕ)
      (now expiry : ℕ) (s : Store)
      → ((q h : Text) → env.hash_password q ≡ ok h → env.password_matches h q ≡ true)
      → ((c : Claims) → (t : Text) × (env.sign_jwt c now (now + expiry) ≡ ok t))
      → (ensure_admin env.hash_password username password random fresh (calm s)).0 ≡ ok p
      → is_empty p ≡ false
      → (let s' = (ensure_admin env.hash_password username password random fresh (calm s)).1 in
          (d : LoginDto) × (login env username p now expiry s'.users ≡ answered d)
          × (d.role ≡ codes "admin")
          × (env.sign_jwt
                (record { sub = uuid_to_str (some fresh.0); role = codes "admin" })
                now
                (now + expiry)
              ≡ ok d.token))
  unfolding login is_empty
  login-ensure_admin username password p random fresh now expiry s matches signs e shown =
      elim (ensure_admin-cases env.hash_password username password p random fresh s e) [
        | inl (none_made, there, same) ↦ absurd (cc (rw none_made at shown))
        | inr (h, hashed, users) ↦
            let (t, signed) =
              signs (record { sub = uuid_to_str (some fresh.0); role = codes "admin" }) in
            (
              record {
                token = t;
                expires_in = expiry;
                user_id = uuid_to_str (some fresh.0);
                username = username;
                role = codes "admin";
              },
              rw users (rw (eq_text_refl username) (rw (matches p h hashed) (rw signed refl))),
              refl,
              signed,
            )
      ]

-- A start behind another that ended well makes no administrator, whatever password it is given.
pub ensure_admin-again :
    (hash_password : Text → Result Text) (username password p other : Text)
    (random again : Result (List ℕ)) (fresh fresh' : List ℕ × List ℕ) (s : Store)
    → (ensure_admin hash_password username password random fresh (calm s)).0 ≡ ok p
    → (let s' = calm (ensure_admin hash_password username password random fresh (calm s)).1 in
        ensure_admin hash_password username other again fresh' s' ≡ (ok [], s'))
unfolding ensure_admin eq_text
ensure_admin-again hash username password p other random again fresh fresh' s e =
    elim (ensure_admin-cases hash username password p random fresh s e) [
      | inl (none_made, there, same) ↦ rw there refl
      | inr (h, hashed, users) ↦
          let others = count_where (λ (u : User). eq_text u.role (codes "admin")) s.users in
          let one : leb 1 (suc others) ≡ true = ground arith in rw users (rw one refl)
    ]
