-- ===== src/Database/Settings.antt =====
-- The queries on settings (internal/database/gen/settings.sql.go). The column `value` is JSONB: what
-- PostgreSQL stores for a text, if the text is JSON, is the parameter `jsonb`.
use opendebrid.Prelude.{
  Bool, Option, none, some, List, ◌∷◌, Text, codes, eq_text, any, find, update_where, if◌then◌else◌,
}
use opendebrid.Prelude.Exec.{Err, err, remote, Exec}
use opendebrid.Database.Model.{one_row}

pub record Setting : Type 0 where
  pub key : Text
  pub value : Text
  pub description : Option Text

abbrev pub Settings : Type 0
Settings = List Setting

abbrev pub has_key : Text → Setting → Bool
has_key key s = eq_text s.key key

abbrev pub get_setting : Text → Exec Settings Setting
get_setting key ss = (one_row (find (has_key key) ss), ss)

abbrev pub not_json : Err
not_json = remote (codes "invalid input syntax for type json")

-- ON CONFLICT (key) the description is kept.
abbrev pub write_setting : Text → Text → Option Text → Settings → Settings
write_setting key value description ss =
    if any (has_key key) ss
    then update_where (has_key key) (λ s. record s { value = value }) ss
    else record { key = key; value = value; description = description } ∷ ss

module _ (jsonb : Text → Option Text) where
  abbrev pub upsert_value : Option Text → Text → Option Text → Exec Settings Setting
  upsert_value none key description ss = (err not_json, ss)
  upsert_value (some value) key description ss =
      let ss' = write_setting key value description ss in (one_row (find (has_key key) ss'), ss')

  abbrev pub upsert_setting : Text → Text → Option Text → Exec Settings Setting
  upsert_setting key value description ss = upsert_value (jsonb value) key description ss
