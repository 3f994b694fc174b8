-- ===== src/Web/SignedUp.antt =====
-- The session of an account that signs up.
use opendebrid.Prelude.{
  ℕ, ◌+◌, ◌<◌, ◌≡◌, refl, Bool, true, false, ◌||◌, some, List, [], ◌∷◌, Text, codes, eq_text,
  eq_text_iff, is_empty, any, Bool-cases, inl, inr,
}
use opendebrid.Prelude.Exec.{Result, ok, err}
use opendebrid.Api.Accounts.{User, Users, AuthEnv, Claims, claims_of, create_user, new_user}
use opendebrid.Store.{Store, reached, put_users, on_users}
use opendebrid.Util.Uuid.{uuid_to_str}
use opendebrid.Web.{
  redirect, SignupForm, registration_enabled, with_session, session_for, signed_up, sign_up_hashed,
  signup_enabled, signup_submit, require_auth,
}

-- A token that is signed for a later time is not empty, and good for its claims until then.
abbrev pub Signs : AuthEnv → ℕ → ℕ → Type 0
Signs env now until =
    (c : Claims) (t : Text)
    → env.sign_jwt c now until ≡ ok t
    → (is_empty t ≡ false) × ((later : ℕ) → later < until → env.parse_jwt later t ≡ some c)

module _ (env : AuthEnv) (now expiry : ℕ) where
  -- What a session says of the user of a request.
  abbrev pub SessionOf : Text → Text → Text → Type 0
  SessionOf token id role =
      (later : ℕ)
      → later < now + expiry
      → require_auth env later token ≡ inr (record { sub = id; role = role })

  session_for-SessionOf :
      (name : Text) (u : User) (path token : Text)
      → Signs env now (now + expiry)
      → session_for env now expiry name u ≡ redirect path (some token)
      → SessionOf token (uuid_to_str (some u.id)) u.role
  unfolding require_auth
  session_for-SessionOf name u path token signs h =
      signed (env.sign_jwt (claims_of env u) now (now + expiry)) refl h
    where
      signed :
          (r : Result Text)
          → env.sign_jwt (claims_of env u) now (now + expiry) ≡ r
          → with_session env now expiry name r ≡ redirect path (some token)
          → SessionOf token (uuid_to_str (some u.id)) u.role
      signed (err e) k h later before = cc
      signed (ok t) k h later before =
          let same : t ≡ token = cc (h) in
          let (full, good) = signs (claims_of env u) t k in
          rw (← same) (rw full (rw (good later before) refl))

  -- The account of a form: a user like any other, who comes first in the table.
  abbrev pub Account : SignupForm → List ℕ × List ℕ → Store → Type 0
  Account f fresh s =
      (hash : Text) × (users : Users) × (env.hash_password f.password ≡ ok hash)
      × (s.users ≡ new_user f.username f.email hash (codes "user") fresh ∷ users)

  signed_up-Account :
      (f : SignupForm) (fresh : List ℕ × List ℕ) (hash : Text) (s : Store) (path token : Text)
      → Signs env now (now + expiry)
      → env.hash_password f.password ≡ ok hash
      → (let r =
            signed_up env now expiry
              (on_users (create_user f.username f.email hash (codes "user") fresh) s) in
          r.0 ≡ redirect path (some token)
          → Account f fresh r.1 × SessionOf token (uuid_to_str (some fresh.0)) (codes "user"))
  unfolding create_user
  signed_up-Account f fresh hash s path token signs hashed h = run s.faults h
    where
      created :
          (s : Store)
          → (let r =
                signed_up env now expiry (
                  put_users s (create_user f.username f.email hash (codes "user") fresh s.users)) in
              r.0 ≡ redirect path (some token)
              → Account f fresh r.1 × SessionOf token (uuid_to_str (some fresh.0)) (codes "user"))
      created s h =
          elim (Bool-cases
            (any (λ u. eq_text u.username f.username || eq_text u.email f.email) s.users)) [
              | inl taken ↦ absurd (cc (rw taken at h))
              | inr free ↦
                  let u = new_user f.username f.email hash (codes "user") fresh in
                  rw free (
                    (hash, s.users, hashed, refl),
                    session_for-SessionOf (codes "signup") u path token signs (rw free at h),
                  )
            ]

      run :
          (fs : List Bool)
          → (let r = signed_up env now expiry (
                reached fs
                  (λ s.
                    put_users s (create_user f.username f.email hash (codes "user") fresh s.users))
                  s) in
              r.0 ≡ redirect path (some token)
              → Account f fresh r.1 × SessionOf token (uuid_to_str (some fresh.0)) (codes "user"))
      run [] h = created s h
      run (true ∷ fs) h = cc
      run (false ∷ fs) h = created (record s { faults = fs }) h

  sign_up_hashed-Made :
      (f : SignupForm) (fresh : List ℕ × List ℕ) (s : Store) (path token : Text)
      → Signs env now (now + expiry)
      → (r : Result Text) → env.hash_password f.password ≡ r
      → (sign_up_hashed env now expiry f fresh r s).0 ≡ redirect path (some token)
      → Account f fresh (sign_up_hashed env now expiry f fresh r s).1
        × SessionOf token (uuid_to_str (some fresh.0)) (codes "user")
  sign_up_hashed-Made f fresh s path token signs (err e) k h = absurd (cc)
  sign_up_hashed-Made f fresh s path token signs (ok hash) k h =
      signed_up-Account f fresh hash s path token signs k h

  -- What a form that leads to a session has been tested for.
  abbrev pub IsAccepted : SignupForm → Store → Type 0
  IsAccepted f s =
      ((registration_enabled s).0 ≡ true)
      × (env.valid_email f.email ≡ true)
      × (f.password ≡ f.confirm)

  signup_enabled-Made :
      (f : SignupForm) (fresh : List ℕ × List ℕ) (b : Bool) (s : Store) (path token : Text)
      → Signs env now (now + expiry)
      → (signup_enabled env now expiry f fresh (b, s)).0 ≡ redirect path (some token)
      → (b ≡ true)
        × (env.valid_email f.email ≡ true)
        × (f.password ≡ f.confirm)
        × Account f fresh (signup_enabled env now expiry f fresh (b, s)).1
        × SessionOf token (uuid_to_str (some fresh.0)) (codes "user")
  signup_enabled-Made f fresh false s path token signs h = absurd (cc)
  signup_enabled-Made f fresh true s path token signs h =
      elim (Bool-cases (is_empty f.username || (is_empty f.password || is_empty f.email))) [
        | inl blank ↦ absurd (cc (rw blank at h))
        | inr filled ↦ elim (Bool-cases (env.valid_email f.email)) [
          | inr bad ↦ absurd (cc (rw (filled, bad) at h))
          | inl valid ↦ elim (Bool-cases (eq_text f.password f.confirm)) [
            | inr differs ↦ absurd (cc (rw (filled, valid, differs) at h))
            | inl same ↦
                let (account, session) =
                  sign_up_hashed-Made f fresh s path token signs (env.hash_password f.password) refl
                    (rw (filled, valid, same) at h) in
                rw (filled, valid, same)
                  (refl, refl, (eq_text_iff f.password f.confirm).0 same, account, session)
          ]
        ]
      ]

  -- Where a sign-up sets a session cookie, registration is enabled, the mail address is valid and the two
  -- passwords are the same; the account that is made, with the hash of the password, has the role of a
  -- user, and until the token expires the cookie admits to the pages as that account, provided that
  -- signed tokens are good for their claims until they expire.
  pub signup_submit-Account :
      (f : SignupForm) (fresh : List ℕ × List ℕ) (s : Store) (path token : Text)
      → Signs env now (now + expiry)
      → (let r = signup_submit env now expiry f fresh s in
          r.0 ≡ redirect path (some token)
          → IsAccepted f s
            × Account f fresh r.1
            × SessionOf token (uuid_to_str (some fresh.0)) (codes "user"))
  unfolding signup_submit
  signup_submit-Account f fresh s path token signs h =
      let (on, valid, same, account, session) =
        signup_enabled-Made f fresh (registration_enabled s).0 (registration_enabled s).1 path token
          signs h in
      ((on, valid, same), account, session)
