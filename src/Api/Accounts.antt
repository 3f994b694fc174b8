-- ===== src/Api/Accounts.antt =====
-- Accounts: the queries on users (internal/database/gen/users.sql.go) and the handlers of
-- internal/controller/api/handlers/auth.go. Password hashes, JSON web tokens and the parser of mail addresses
-- are parameters. A role is "user" or "admin"; ids and API keys are the bytes of UUIDs.
use opendebrid.Prelude.{
  ℕ, ◌+◌, Bool, true, ◌||◌, Option, none, some, List, ◌∷◌, Text, codes, eq_text, any, find,
  update_where, if◌then◌else◌,
}
use opendebrid.Prelude.Exec.{Result, ok, err, no_rows, unique_violation, Exec}
use opendebrid.Database.Model.{one_row}
use opendebrid.Util.Uuid.{Uuid, text_to_uuid, uuid_to_str}

pub record User : Type 0 where
  pub id : List ℕ
  pub username : Text
  pub email : Text
  pub password : Text
  pub role : Text
  pub api_key : List ℕ
  pub is_active : Bool

abbrev pub Users : Type 0
Users = List User

abbrev pub has_api_key : List ℕ → User → Bool
has_api_key key u = eq_text u.api_key key

abbrev pub has_user_id : List ℕ → User → Bool
has_user_id id u = eq_text u.id id

-- A comparison with NULL does not hold.
abbrev pub get_user_by_id : Uuid → Users → Result User
get_user_by_id none us = err no_rows
get_user_by_id (some id) us = one_row (find (has_user_id id) us)

abbrev pub get_user_by_api_key : List ℕ → Users → Result User
get_user_by_api_key key us = one_row (find (has_api_key key) us)

abbrev pub get_user_by_username : Text → Users → Result User
get_user_by_username name us = one_row (find (λ u. eq_text u.username name) us)

-- `fresh` are the two UUIDs that the database generates.
abbrev pub new_user : Text → Text → Text → Text → List ℕ × List ℕ → User
new_user username email password role fresh = record {
  id = fresh.0;
  username = username;
  email = email;
  password = password;
  role = role;
  api_key = fresh.1;
  is_active = true;
}

unfoldable pub create_user : Text → Text → Text → Text → List ℕ × List ℕ → Exec Users User
create_user username email password role fresh us =
    if any (λ u. eq_text u.username username || eq_text u.email email) us
    then (err unique_violation, us)
    else (
      ok (new_user username email password role fresh),
      new_user username email password role fresh ∷ us,
    )

unfoldable pub update_api_key : Uuid → List ℕ → Exec Users User
update_api_key none key us = (err no_rows, us)
update_api_key (some id) key us =
    let us' = update_where (has_user_id id) (λ u. record u { api_key = key }) us in
    (one_row (find (has_user_id id) us'), us')

-- An answer, or the status of an error.
pub data Http (A : Type 0) : Type 0 where
  answered : A → Http A
  refused : ℕ → Http A

pub record Claims : Type 0 where
  pub sub : Text
  pub role : Text

-- `parse_jwt now` gives the claims of a token that is valid at the time, with "" for a claim that is no text;
-- `sign_jwt claims now expires` is the token.
pub record AuthEnv : Type 0 where
  pub parse_jwt : ℕ → Text → Option Claims
  pub sign_jwt : Claims → ℕ → ℕ → Result Text
  pub valid_email : Text → Bool
  pub hash_password : Text → Result Text
  pub password_matches : Text → Text → Bool

pub record LoginDto : Type 0 where
  pub token : Text
  pub expires_in : ℕ
  pub user_id : Text
  pub username : Text
  pub role : Text

pub record MeDto : Type 0 where
  pub id : Text
  pub username : Text
  pub email : Text
  pub role : Text
  pub api_key : Text

abbrev pub registered : Result User × Users → Http (Text × Text) × Users
registered (ok u, us) = (answered (uuid_to_str (some u.id), u.username), us)
registered (err e, us) = (refused 409, us)

abbrev pub me_of : Result User → Http MeDto
me_of (err e) = refused 404
me_of (ok u) = answered (record {
  id = uuid_to_str (some u.id);
  username = u.username;
  email = u.email;
  role = u.role;
  api_key = uuid_to_str (some u.api_key);
})

unfoldable pub me : Text → Users → Http MeDto
me user_id us = me_of (get_user_by_id (text_to_uuid user_id) us)

abbrev pub key_of_user : Result User × Users → Http Text × Users
key_of_user (ok u, us) = (answered (uuid_to_str (some u.api_key)), us)
key_of_user (err e, us) = (refused 500, us)

unfoldable pub regenerate_api_key : Text → List ℕ → Users → Http Text × Users
unfolding update_api_key
regenerate_api_key user_id key us = key_of_user (update_api_key (text_to_uuid user_id) key us)

module _ (env : AuthEnv) where
  abbrev pub hashed :
      Text → Text → List ℕ × List ℕ → Result Text → Users → Http (Text × Text) × Users
  unfolding create_user
  hashed username email fresh (err e) us = (refused 500, us)
  hashed username email fresh (ok hash) us =
      registered (create_user username email hash (codes "user") fresh us)

  unfoldable pub register :
      Text → Text → Text → List ℕ × List ℕ → Users → Http (Text × Text) × Users
  unfolding create_user
  register username email password fresh us =
      if env.valid_email email
      then hashed username email fresh (env.hash_password password) us
      else (refused 422, us)

  abbrev pub claims_of : User → Claims
  claims_of u = record { sub = uuid_to_str (some u.id); role = u.role }

  abbrev pub issued : User → ℕ → Result Text → Http LoginDto
  issued u expiry (err e) = refused 500
  issued u expiry (ok token) = answered (record {
    token = token;
    expires_in = expiry;
    user_id = uuid_to_str (some u.id);
    username = u.username;
    role = u.role;
  })

  abbrev pub login_as : Text → ℕ → ℕ → Result User → Http LoginDto
  login_as password now expiry (err e) = refused 401
  login_as password now expiry (ok u) =
      if env.password_matches u.password password
      then (if u.is_active
          then issued u expiry (env.sign_jwt (claims_of u) now (now + expiry))
          else refused 403)
      else refused 401

  unfoldable pub login : Text → Text → ℕ → ℕ → Users → Http LoginDto
  login username password now expiry us =
      login_as password now expiry (get_user_by_username username us)
