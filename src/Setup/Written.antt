-- ===== src/Setup/Written.antt =====
-- What settings that were written mean to the next start and to the web pages.
use opendebrid.Prelude.{
  ◌≡◌, ◌⊎◌, refl, Bool, true, false, ◌||◌, Option, none, some, List, [], ◌∷◌, ℕ, Text, codes,
  eq_text, is_empty, find, arith, Bool-cases, inl, inr,
}
use opendebrid.Prelude.Exec.{ok}
use opendebrid.Api.Accounts.{AuthEnv, Http, answered}
use opendebrid.Api.Settings.{
  SettingDto, SettingValue, text, other, value_text, given, shown, update,
}
use opendebrid.Database.Settings.{Setting, has_key, upsert_value}
use opendebrid.Setup.{
  quoted, starts_quoted, Json, local_storage, remote_storage, storage_provider, stored,
  load_storage_settings,
}
use opendebrid.Setup.Secrets.{find-write_setting}
use opendebrid.Storage.Rclone.{RcloneConfig}
use opendebrid.Store.{Store, calm, on_settings}
use opendebrid.Web.{SignupForm, failed_signup, registration_enabled, signup_submit}

-- JSONB keeps `null`, and stores a string, where it takes one, as a text that begins with a quote.
pub record IsJsonb (jsonb : Text → Option Text) : Type 0 where
  pub null_kept : jsonb (codes "null") ≡ some (codes "null")
  pub string_kept : (v t : Text) → jsonb (quoted v) ≡ some t → starts_quoted t ≡ true

-- A JSON string is not the settings of a provider.
abbrev pub RefusesStrings : Json → Type 0
RefusesStrings json = (t : Text) → starts_quoted t ≡ true → json.unmarshal t ≡ none

-- What an update can leave as a value.
abbrev IsWritten : Text → Type 0
IsWritten t = (t ≡ codes "null") ⊎ (starts_quoted t ≡ true)

left-false : (a b : Bool) → (a || b) ≡ false → a ≡ false
left-false a b h = ground arith

module _ (jsonb : Text → Option Text) where
  written :
      (key : Text) (value : SettingValue) (description : Text) (s : Store) (d : SettingDto)
      → IsJsonb jsonb
      → (update jsonb key value description (calm s)).0 ≡ answered d
      → (x : Setting) × (find (has_key key) (update jsonb key value description (calm s)).1.settings
          ≡ some x)
        × IsWritten x.value
  unfolding update
  written key value description s d law h = stored_as (jsonb (value_text value)) refl h
    where
      valid : (v : SettingValue) (t : Text) → jsonb (value_text v) ≡ some t → IsWritten t
      valid (text v) t e = inr (law.string_kept v t e)
      valid other t e = inl cc (law.null_kept, e)

      after : Option Text → Http SettingDto × Store
      after o = shown 500 (on_settings (upsert_value jsonb o key (given description)) (calm s))

      stored_as :
          (o : Option Text)
          → jsonb (value_text value) ≡ o
          → (after o).0 ≡ answered d
          → (x : Setting) × (find (has_key key) (after o).1.settings ≡ some x) × IsWritten x.value
      stored_as none e h = cc
      stored_as (some t) e h =
          let (x, found, says) = find-write_setting key t (given description) s.settings in
          rw found (x, found, rw says (valid value t e))

  not_true : (t : Text) → IsWritten t → eq_text t (codes "true") ≡ false
  unfolding eq_text
  not_true t (inl e) = rw e refl
  not_true [] (inr q) = refl
  not_true (c ∷ t) (inr q) = ground arith

  -- Whatever value an administrator writes for `registration_enabled`, also the Boolean `true`: where the
  -- update is answered, the web's sign-up refuses every form afterwards and changes nothing, until the
  -- setting is written again. (The API's registration does not read the setting.) JSONB is
  -- to keep `null`, and strings as strings.
  pub update-registration_enabled :
      (env : AuthEnv) (now expiry : ℕ) (f : SignupForm) (fresh : List ℕ × List ℕ)
      (value : SettingValue) (description : Text) (s : Store) (d : SettingDto)
      → IsJsonb jsonb
      → (update jsonb (codes "registration_enabled") value description (calm s)).0 ≡ answered d
      → (let s' = calm (update jsonb (codes "registration_enabled") value description (calm s)).1 in
          signup_submit env now expiry f fresh s'
          ≡ (failed_signup (codes "Registration is currently disabled"), s'))
  unfolding signup_submit registration_enabled
  update-registration_enabled env now expiry f fresh value description s d law h =
      let (x, found, kind) = written (codes "registration_enabled") value description s d law h in
      rw found (rw (not_true x.value kind) refl)

  module _ (json : Json) where
    stored-local :
        (x : Setting)
        → RefusesStrings json
        → IsWritten x.value
        → stored jsonb json (ok x) ≡ local_storage
    unfolding eq_text is_empty
    stored-local x refuses (inl e) = rw e refl
    stored-local x refuses (inr q) =
        elim (Bool-cases (is_empty x.value || eq_text x.value (codes "null"))) [
          | inl b ↦ rw b refl
          | inr b ↦ rw b (rw (refuses x.value q) refl)
        ]

    -- Whatever value an administrator writes for `storage_provider`: where the update is answered, the next
    -- start with the local provider in its configuration stores locally.
    pub load_storage_settings-update :
        (value : SettingValue) (description provider : Text) (rclone : RcloneConfig) (s : Store)
        (d : SettingDto)
        → IsJsonb jsonb
        → RefusesStrings json
        → (is_empty provider || eq_text provider (codes "local")) ≡ true
        → (let r = update jsonb (codes "storage_provider") value description (calm s) in
            r.0 ≡ answered d
            → (load_storage_settings jsonb json provider rclone (calm r.1)).0 ≡ ok local_storage)
    unfolding load_storage_settings
    load_storage_settings-update value description provider rclone s d law refuses here h =
        let (x, found, kind) = written (codes "storage_provider") value description s d law h in
        rw here (rw found (rw (stored-local x refuses kind) refl))

    -- A start that is configured with a provider other than the local one stores its settings, and a later
    -- start that is not uses them, provided that JSON and JSONB bring the settings back.
    pub load_storage_settings-kept :
        (provider later : Text) (rclone other_rclone : RcloneConfig) (s : Store) (t : Text)
        → (is_empty provider || eq_text provider (codes "local")) ≡ false
        → (is_empty later || eq_text later (codes "local")) ≡ true
        → jsonb (json.marshal (remote_storage provider rclone)) ≡ some t
        → json.unmarshal t ≡ some (remote_storage provider rclone)
        → (is_empty t || eq_text t (codes "null")) ≡ false
        → (load_storage_settings jsonb json later other_rclone
            (calm (load_storage_settings jsonb json provider rclone (calm s)).1)).0
          ≡ ok (remote_storage provider rclone)
    unfolding load_storage_settings
    load_storage_settings-kept provider later rclone other_rclone s t remote here kept back real =
        let (x, found, says) = find-write_setting storage_provider t none s.settings in
        rw here (
          rw remote (
            rw kept (
              rw found (
                rw says (
                  rw real (
                    rw back (
                      rw (left-false (is_empty provider) (eq_text provider (codes "local")) remote)
                        refl)))))))
