-- ===== src/Web.antt =====
-- The web pages that act (internal/controller/web/handler.go): logging in, signing up, and the check of the
-- session cookie. What a page shows is its name and its error; templates are left out.
pub mod SignedUp
use opendebrid.Prelude.{
  ℕ, ◌+◌, ◌⊎◌, inl, inr, Bool, true, false, ◌||◌, Option, none, some, List, [], ◌∷◌, Text, codes,
  eq_text, is_empty, if◌then◌else◌,
}
use opendebrid.Prelude.Exec.{Result, ok, err, Exec}
use opendebrid.Api.Accounts.{
  User, Users, Claims, AuthEnv, claims_of, get_user_by_username, create_user,
}
use opendebrid.Database.Settings.{Setting, get_setting}
use opendebrid.Store.{Store, on_settings, on_users}

-- A redirection with a new session cookie where one is set, or a page with an error.
pub data Response : Type 0 where
  redirect : Text → Option Text → Response
  page : Text → Text → Response

abbrev pub is_true : Result Setting → Bool
is_true (err e) = false
is_true (ok s) = eq_text s.value (codes "true")

unfoldable pub registration_enabled : Store → Bool × Store
registration_enabled s =
    let (r, s') = on_settings (get_setting (codes "registration_enabled")) s in (is_true r, s')

pub record SignupForm : Type 0 where
  pub username : Text
  pub password : Text
  pub confirm : Text
  pub email : Text

abbrev pub failed_signup : Text → Response
failed_signup message = page (codes "signup") message

abbrev pub failed_login : Text → Response
failed_login message = page (codes "login") message

module _ (env : AuthEnv) (now expiry : ℕ) where
  -- The cookie holds the token.
  abbrev pub with_session : Text → Result Text → Response
  with_session name (err e) = page name (codes "Internal error")
  with_session name (ok token) = redirect (codes "/") (some token)

  abbrev pub session_for : Text → User → Response
  session_for name u = with_session name (env.sign_jwt (claims_of env u) now (now + expiry))

  abbrev pub login_user : Text → Result User → Response
  login_user password (err e) = failed_login (codes "Invalid username or password")
  login_user password (ok u) =
      if env.password_matches u.password password
      then (if u.is_active
          then session_for (codes "login") u
          else failed_login (codes "Account is disabled"))
      else failed_login (codes "Invalid username or password")

  abbrev pub login_found : Text → Result User × Store → Response × Store
  login_found password (r, s) = (login_user password r, s)

  unfoldable pub login_submit : Text → Text → Store → Response × Store
  login_submit username password s =
      login_found password (on_users (λ us. (get_user_by_username username us, us)) s)

  abbrev pub signed_up : Result User × Store → Response × Store
  signed_up (err e, s) = (failed_signup (codes "Username already taken"), s)
  signed_up (ok u, s) = (session_for (codes "signup") u, s)

  abbrev pub sign_up_hashed : SignupForm → List ℕ × List ℕ → Result Text → Store → Response × Store
  sign_up_hashed f fresh (err e) s = (failed_signup (codes "Internal error"), s)
  sign_up_hashed f fresh (ok hash) s =
      signed_up (on_users (create_user f.username f.email hash (codes "user") fresh) s)

  abbrev pub signup_enabled : SignupForm → List ℕ × List ℕ → Bool × Store → Response × Store
  signup_enabled f fresh (false, s) =
      (failed_signup (codes "Registration is currently disabled"), s)
  signup_enabled f fresh (true, s) =
      if is_empty f.username || (is_empty f.password || is_empty f.email)
      then (failed_signup (codes "All fields are required"), s)
      else if env.valid_email f.email
      then (if eq_text f.password f.confirm
          then sign_up_hashed f fresh (env.hash_password f.password) s
          else (failed_signup (codes "Passwords do not match"), s))
      else (failed_signup (codes "Invalid email address"), s)

  unfoldable pub signup_submit : SignupForm → List ℕ × List ℕ → Store → Response × Store
  unfolding registration_enabled
  signup_submit f fresh s = signup_enabled f fresh (registration_enabled s)

-- The session of a cookie (empty where there is none): the claims go to the page, or the login page follows.
abbrev pub admitted : Option Claims → Response ⊎ Claims
admitted none = inl (redirect (codes "/login") none)
admitted (some c) = inr c

unfoldable pub require_auth : AuthEnv → ℕ → Text → Response ⊎ Claims
require_auth env now cookie =
    if is_empty cookie
    then inl (redirect (codes "/login") none)
    else admitted (env.parse_jwt now cookie)
