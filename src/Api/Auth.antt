-- ===== src/Api/Auth.antt =====
-- The authentication of a request (internal/controller/api/middleware/auth.go).
pub mod Entitled
use opendebrid.Prelude.{
  ℕ, Bool, true, false, Option, none, some, List, [], ◌∷◌, Text, codes, eq_text, has_prefix,
  trim_prefix, is_empty, length, ◌==◌, if◌then◌else◌,
}
use opendebrid.Prelude.Exec.{Result, ok, err}
use opendebrid.Api.Accounts.{User, Users, Claims, AuthEnv, get_user_by_api_key}
use opendebrid.Util.Uuid.{Uuid, decode_hex, remove_hyphens, uuid_to_str}

-- The headers and the query parameter are empty where they are not given, the session is that of a cookie.
pub record Request : Type 0 where
  pub authorization : Text
  pub x_api_key : Text
  pub query_api_key : Text
  pub session : Text

-- The request is refused, or goes on with the id and the role of a user.
pub data Access : Type 0 where
  unauthorized forbidden : Access
  passed : Text → Text → Access

unfoldable pub parse_api_key : Text → Uuid
parse_api_key s = let s' = remove_hyphens s in if length s' == 32 then decode_hex s' else none

abbrev pub by_claims : Option Claims → Access
by_claims none = unauthorized
by_claims (some c) = passed c.sub c.role

abbrev pub by_user : Result User → Access
by_user (err e) = unauthorized
by_user (ok u) = if u.is_active then passed (uuid_to_str (some u.id)) u.role else forbidden

abbrev pub by_api_key : Uuid → Users → Access
by_api_key none us = unauthorized
by_api_key (some key) us = by_user (get_user_by_api_key key us)

abbrev pub api_key_of : Request → Text
api_key_of r = if is_empty r.x_api_key then r.query_api_key else r.x_api_key

module _ (env : AuthEnv) where
  unfoldable pub auth : Users → ℕ → Request → Access
  unfolding parse_api_key
  auth us now r =
      if has_prefix r.authorization (codes "Bearer ")
      then by_claims (env.parse_jwt now (trim_prefix r.authorization (codes "Bearer ")))
      else if is_empty (api_key_of r)
      then (if is_empty r.session then unauthorized else by_claims (env.parse_jwt now r.session))
      else by_api_key (parse_api_key (api_key_of r)) us

-- `AdminOnly`, behind `auth`.
abbrev pub admin_only : Access → Access
admin_only (passed id role) = if eq_text role (codes "admin") then passed id role else forbidden
admin_only a = a
