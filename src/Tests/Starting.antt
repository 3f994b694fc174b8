-- ===== src/Tests/Starting.antt =====
-- The set-up of the controller, the settings and the sign-up at concrete inputs.
use opendebrid.Prelude.{
  ℕ, ◌<◌, ◌≡◌, refl, true, false, Option, none, some, List, [], ◌∷◌, Text, codes, eq_text,
  eq_text_iff, is_empty, All, arith, sym, ap, subst, Bool-cases, inl, inr, if◌then◌else◌,
}
use opendebrid.Prelude.Exec.{ok, err, unavailable}
use opendebrid.Api.Accounts.{Claims, AuthEnv, LoginDto, login, create_user, answered}
use opendebrid.Api.Settings.{SettingDto, other, update}
use opendebrid.Database.Settings.{Setting}
use opendebrid.Setup.{quoted, starts_quoted, ensure_setting, ensure_admin}
use opendebrid.Setup.Admin.{login-ensure_admin}
use opendebrid.Setup.Secrets.{KeepsHex, ensure_setting-kept}
use opendebrid.Setup.Written.{IsJsonb, update-registration_enabled}
use opendebrid.Store.{Store, calm}
use opendebrid.Util.Torrent.{to_hex}
use opendebrid.Util.Uuid.{uuid_to_str}
use opendebrid.Web.{SignupForm, failed_signup, registration_enabled, signup_submit}
use opendebrid.Web.SignedUp.{Signs, SessionOf, Account, IsAccepted, signup_submit-Account}

-- In place of JSONB, all texts as they are.
abbrev jsonb1 : Text → Option Text
jsonb1 t = some t

jsonb1-KeepsHex : KeepsHex jsonb1
jsonb1-KeepsHex bytes h = refl

jsonb1-IsJsonb : IsJsonb jsonb1
jsonb1-IsJsonb = record {
  null_kept = refl;
  string_kept = λ v t e.
      let same : quoted v ≡ t = cc (e) in
      subst (λ t. starts_quoted t ≡ true) {x = quoted v} {y = t} same refl;
}

abbrev empty_store : Store
empty_store = record { settings = []; users = []; faults = [] }

abbrev setting_of : Text → Text → Setting
setting_of key value = record { key = key; value = value; description = none }

abbrev jwt_secret : Text
jwt_secret = codes "jwt_secret"

abbrev bytes1 : List ℕ
bytes1 = 18 ∷ 255 ∷ []

bytes1-in_range : All (λ b. b < 256) bytes1
bytes1-in_range = (omega arith, (omega arith, tt))

ensure_setting-kept_example :
    let s = calm (ensure_setting jsonb1 jwt_secret (ok bytes1) empty_store).1 in
    ensure_setting jsonb1 jwt_secret (err unavailable) s ≡ (ok (to_hex bytes1), s)
unfolding ensure_setting eq_text
ensure_setting-kept_example =
    ensure_setting-kept jsonb1 jwt_secret (to_hex bytes1) (ok bytes1) (err unavailable) empty_store
      jsonb1-KeepsHex bytes1-in_range refl

-- A hash is the password itself, and a token names its claims with the role that it is made for.
abbrev auth_env2 : AuthEnv
auth_env2 = record {
  parse_jwt = λ now t. claims_in t;
  sign_jwt =
      λ c now expires. if eq_text c.role (codes "user") then ok (1 ∷ c.sub) else err unavailable;
  valid_email = λ t. true;
  hash_password = λ p. ok p;
  password_matches = λ h p. eq_text h p;
}
  where
    claims_in : Text → Option Claims
    claims_in [] = none
    claims_in (x ∷ t) = some (record { sub = t; role = codes "user" })

-- All tokens are the same.
abbrev auth_env3 : AuthEnv
auth_env3 = record auth_env2 { sign_jwt = λ c now expires. ok (codes "tok") }

abbrev fresh1 : List ℕ × List ℕ
fresh1 = (1 ∷ [], 2 ∷ [])

login-ensure_admin_example :
    let s =
      (ensure_admin auth_env3.hash_password
        (codes "root")
        []
        (ok bytes1)
        fresh1
        (calm empty_store)).1 in
    (d : LoginDto) × (login auth_env3 (codes "root") (to_hex bytes1) 50 60 s.users ≡ answered d)
    × (d.role ≡ codes "admin")
    × (auth_env3.sign_jwt
          (record { sub = uuid_to_str (some fresh1.0); role = codes "admin" })
          50
          110
        ≡ ok d.token)
unfolding ensure_admin is_empty to_hex create_user
login-ensure_admin_example =
    login-ensure_admin auth_env3 (codes "root") [] (to_hex bytes1) (ok bytes1) fresh1 50 60
      empty_store (λ q h e. matching q h e) (λ c. (codes "tok", refl)) refl refl
  where
    matching : (q h : Text) → ok q ≡ ok h → eq_text h q ≡ true
    matching q h e = (eq_text_iff h q).1 (cc (e))

abbrev null_shown : SettingDto
null_shown = record { key = codes "registration_enabled"; value = codes "null"; description = [] }

auth_env2-Signs : Signs auth_env2 50 110
unfolding is_empty
auth_env2-Signs c t e = elim (Bool-cases (eq_text c.role (codes "user"))) [
  | inl user ↦
      let role : c.role ≡ codes "user" = (eq_text_iff c.role (codes "user")).0 user in
      let same : 1 ∷ c.sub ≡ t = cc (rw user at e) in
      subst
        (λ t.
          (is_empty t ≡ false) × ((later : ℕ) → later < 110 → auth_env2.parse_jwt later t ≡ some c))
        {x = 1 ∷ c.sub} {y = t} same
        (refl, λ later before. ap (λ r. some (record { sub = c.sub; role = r })) (sym role))
  | inr differs ↦ absurd (cc (rw differs at e))
]

abbrev form1 : SignupForm
form1 = record {
  username = codes "ann";
  password = codes "p";
  confirm = codes "p";
  email = codes "a@b";
}

abbrev open_store : Store
open_store = record empty_store {
  settings = setting_of (codes "registration_enabled") (codes "true") ∷ [];
}

signup_submit-Account_example :
    let r = signup_submit auth_env2 50 60 form1 fresh1 open_store in
    IsAccepted auth_env2 50 60 form1 open_store
    × Account auth_env2 50 60 form1 fresh1 r.1
    × SessionOf auth_env2 50 60
        (1 ∷ uuid_to_str (some (1 ∷ [])))
        (uuid_to_str (some (1 ∷ [])))
        (codes "user")
unfolding signup_submit registration_enabled eq_text is_empty create_user
signup_submit-Account_example =
    signup_submit-Account auth_env2 50 60 form1 fresh1 open_store (codes "/")
      (1 ∷ uuid_to_str (some (1 ∷ []))) auth_env2-Signs refl

-- The Boolean `true` is written.
update-registration_enabled_example :
    let s = calm (update jsonb1 (codes "registration_enabled") other [] (calm empty_store)).1 in
    signup_submit auth_env2 50 60 form1 fresh1 s
    ≡ (failed_signup (codes "Registration is currently disabled"), s)
unfolding update eq_text is_empty
update-registration_enabled_example =
    update-registration_enabled jsonb1 auth_env2 50 60 form1 fresh1 other [] empty_store null_shown
      jsonb1-IsJsonb refl
