-- ===== src/Api/Admin.antt =====
-- The handlers for statistics and for users (internal/controller/api/handlers/stats.go, users.go). The role of
-- the request is the one that the middleware found.
use opendebrid.Prelude.{
  ℕ, Bool, Option, none, some, List, map, Text, codes, eq_text, take, drop, if◌then◌else◌,
}
use opendebrid.Prelude.Exec.{Result, ok, err, Exec}
use opendebrid.Api.Accounts.{Http, answered, refused, User, Users}
use opendebrid.Api.Downloads.{answer, in_int32, paged, negative_page}
use opendebrid.Database.Stats.{
  GetAdminStatsRow, GetUserDownloadStatsRow, get_admin_stats, get_user_download_stats,
}
use opendebrid.Service.Delete.{remove_user}
use opendebrid.Store.{Store, on_users}
use opendebrid.Util.Uuid.{uuid_to_str}
use opendebrid.World.{World, query}

pub record StatsDto : Type 0 where
  pub user : GetUserDownloadStatsRow
  pub admin : Option GetAdminStatsRow

abbrev pub with_admin : GetUserDownloadStatsRow → GetAdminStatsRow → StatsDto
with_admin user admin = record { user = user; admin = some admin }

abbrev pub stats_for : Text → Result GetUserDownloadStatsRow × World → Http StatsDto × World
stats_for role (err e, w) = (refused 500, w)
stats_for role (ok user, w) =
    if eq_text role (codes "admin")
    then answer 500 (with_admin user) (query get_admin_stats w)
    else (answered (record { user = user; admin = none }), w)

unfoldable pub get : ℕ → Text → World → Http StatsDto × World
get user role w = stats_for role (query (get_user_download_stats user) w)

pub record UserDto : Type 0 where
  pub id : Text
  pub username : Text
  pub email : Text
  pub role : Text
  pub is_active : Bool

abbrev pub user_dto : User → UserDto
user_dto u = record {
  id = uuid_to_str (some u.id);
  username = u.username;
  email = u.email;
  role = u.role;
  is_active = u.is_active;
}

-- ORDER BY created_at DESC: a new user comes first in the table.
abbrev pub list_users : ℕ → ℕ → Exec Users (List User)
list_users limit offset us = (ok (take limit (drop offset us)), us)

abbrev pub users_shown : Result (List User) × Store → Http (List UserDto) × Store
users_shown (err e, s) = (refused 500, s)
users_shown (ok us, s) = (answered (map user_dto us), s)

unfoldable pub list : ℕ → ℕ → Store → Http (List UserDto) × Store
unfolding in_int32
list limit offset s = users_shown (
    paged (on_users negative_page) (λ l o. on_users (list_users l o)) (in_int32 limit)
      (in_int32 offset) s)

unfoldable pub delete : Bool → ℕ → World → Http (Unit {0}) × World
delete has_storage user w = answer 500 (λ u. u) (remove_user has_storage user w)
