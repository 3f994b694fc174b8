-- ===== src/Setup.antt =====
-- What the controller sets up in its database at a start (internal/controller/server.go): secrets, the first
-- administrator and the storage settings. Random bytes, password hashes and JSON are parameters.
pub mod Secrets
pub mod Written
pub mod Admin
use opendebrid.Prelude.{
  ℕ, ◌-◌, Bool, true, false, not, ◌&&◌, ◌||◌, Option, none, some, List, [], ◌∷◌, ◌++◌, Text, codes,
  eq_text, is_empty, take, drop, length, leb, ◌==◌, count_where, if◌then◌else◌,
}
use opendebrid.Prelude.Exec.{
  Err, Result, ok, err, unavailable, Exec, pure, raise, lift, attempt, ◌>>=◌, ◌>>◌,
}
use opendebrid.Api.Accounts.{User, Users, create_user}
use opendebrid.Database.Settings.{Setting, Settings, get_setting, upsert_setting}
use opendebrid.Storage.Rclone.{RcloneConfig, StorageSettings}
use opendebrid.Store.{Store, on_settings, on_users}
use opendebrid.Util.Torrent.{to_hex}

-- `fmt.Sprintf("\"%s\"", v)`
abbrev pub quoted : Text → Text
quoted v = b'"' ∷ (v ++ b'"' ∷ [])

abbrev pub starts_quoted : Text → Bool
starts_quoted [] = false
starts_quoted (c ∷ v) = c == b'"'

-- The quotes are cut off without a look at escapes or at the last byte.
unfoldable pub unquoted : Text → Text
unquoted v = if leb 2 (length v) && starts_quoted v then take (length v - 2) (drop 1 v) else v

unfoldable pub is_unset : Text → Bool
is_unset v = eq_text v (codes "null") || eq_text v (quoted (codes "null"))

abbrev pub local_storage : StorageSettings
local_storage = record { provider = codes "local"; rclone = none }

abbrev pub remote_storage : Text → RcloneConfig → StorageSettings
remote_storage provider rclone = record { provider = provider; rclone = some rclone }

abbrev pub storage_provider : Text
storage_provider = codes "storage_provider"

-- What `json.Marshal` writes, and what `json.Unmarshal` reads.
pub record Json : Type 0 where
  pub marshal : StorageSettings → Text
  pub unmarshal : Text → Option StorageSettings

module _ (jsonb : Text → Option Text) where
  -- `random` is the outcome of `rand.Read`.
  abbrev pub generate : Text → Result (List ℕ) → Exec Store Text
  generate key (err e) = raise e
  generate key (ok bytes) = do
    on_settings (upsert_setting jsonb key (quoted (to_hex bytes)) none) >>= λ s. pure (to_hex bytes)

  abbrev pub kept_or_new : Text → Result (List ℕ) → Result Setting → Exec Store Text
  kept_or_new key random (err e) = generate key random
  kept_or_new key random (ok s) =
      if is_unset s.value then generate key random else pure (unquoted s.value)

  unfoldable pub ensure_setting : Text → Result (List ℕ) → Exec Store Text
  ensure_setting key random = do
    s ← attempt (on_settings (get_setting key))
    kept_or_new key random s

  module _ (json : Json) where
    abbrev pub or_local : StorageSettings → StorageSettings
    or_local s = if is_empty s.provider then local_storage else s

    abbrev pub parsed : Option StorageSettings → StorageSettings
    parsed none = local_storage
    parsed (some s) = or_local s

    abbrev pub stored : Result Setting → StorageSettings
    stored (err e) = local_storage
    stored (ok s) =
        if is_empty s.value || eq_text s.value (codes "null")
        then local_storage
        else parsed (json.unmarshal s.value)

    -- `configured` are the provider and the rclone section of the configuration.
    unfoldable pub load_storage_settings : Text → RcloneConfig → Exec Store StorageSettings
    load_storage_settings provider rclone =
        if is_empty provider || eq_text provider (codes "local")
        then (do s ← attempt (on_settings (get_setting storage_provider)); pure (stored s))
        else (do
          attempt (
                on_settings (
                  upsert_setting jsonb storage_provider
                    (json.marshal (remote_storage provider rclone)) none))
              >>= λ _. pure (remote_storage provider rclone))

-- `GetUserCount` counts the administrators.
abbrev pub get_user_count : Exec Users ℕ
get_user_count us = (ok (count_where (λ (u : User). eq_text u.role (codes "admin")) us), us)

abbrev pub hex_of : Result (List ℕ) → Result Text
hex_of (err e) = err e
hex_of (ok bytes) = ok (to_hex bytes)

-- A password that is not set is made of eight random bytes.
abbrev pub chosen : Text → Result (List ℕ) → Result Text
chosen password random = if is_empty password then hex_of random else ok password

module _ (hash_password : Text → Result Text) where
  abbrev pub create_admin : Text → Text → List ℕ × List ℕ → Exec Store Text
  create_admin username password fresh = do
    hash ← lift (hash_password password)
    on_users (create_user username (codes "admin@localhost") hash (codes "admin") fresh) >>= λ u.
        pure password

  -- The password that the banner shows: none where there is an administrator.
  unfoldable pub ensure_admin : Text → Text → Result (List ℕ) → List ℕ × List ℕ → Exec Store Text
  ensure_admin username password random fresh = do
    count ← on_users get_user_count
    if leb 1 count
        then pure []
        else (do p ← lift (chosen password random); create_admin username p fresh)
