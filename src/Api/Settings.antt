-- ===== src/Api/Settings.antt =====
-- The settings handlers for administrators (internal/controller/api/handlers/settings.go).
use opendebrid.Prelude.{ℕ, Option, none, some, [], Text, codes, is_empty, if◌then◌else◌}
use opendebrid.Prelude.Exec.{Result, ok, err}
use opendebrid.Api.Accounts.{Http, answered, refused}
use opendebrid.Database.Settings.{Setting, get_setting, upsert_setting}
use opendebrid.Setup.{quoted}
use opendebrid.Store.{Store, on_settings}

pub record SettingDto : Type 0 where
  pub key : Text
  pub value : Text
  pub description : Text

-- The value of a request: a JSON string, or any other JSON value.
pub data SettingValue : Type 0 where
  text : Text → SettingValue
  other : SettingValue

abbrev pub text_or_empty : Option Text → Text
text_or_empty none = []
text_or_empty (some s) = s

abbrev pub dto_of : Setting → SettingDto
dto_of s = record { key = s.key; value = s.value; description = text_or_empty s.description }

abbrev pub value_text : SettingValue → Text
value_text (text v) = quoted v
value_text other = codes "null"

abbrev pub given : Text → Option Text
given s = if is_empty s then none else some s

abbrev pub shown : ℕ → Result Setting × Store → Http SettingDto × Store
shown status (err e, s) = (refused status, s)
shown status (ok setting, s) = (answered (dto_of setting), s)

unfoldable pub get : Text → Store → Http SettingDto × Store
get key s = shown 404 (on_settings (get_setting key) s)

unfoldable pub update :
    (Text → Option Text) → Text → SettingValue → Text → Store → Http SettingDto × Store
update jsonb key value description s =
    shown 500 (on_settings (upsert_setting jsonb key (value_text value) (given description)) s)
