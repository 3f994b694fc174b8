-- ===== src/Tests/Accounts.antt =====
-- Accounts and requests at concrete inputs.
use opendebrid.Prelude.{
  ℕ, ◌≡◌, ◌⊎◌, refl, arith, Bool, true, false, Option, none, some, List, [], ◌∷◌, codes, eq_text,
  has_prefix, trim_prefix,
}
use opendebrid.Prelude.Exec.{err, unavailable}
use opendebrid.Api.Accounts.{User, Users, Claims, AuthEnv}
use opendebrid.Api.Accounts.{me}
use opendebrid.Api.Auth.{Request, auth, passed}
use opendebrid.Api.Auth.Entitled.{HasToken, HasKey, key_in, with_key, auth-Entitled, me-auth}
use opendebrid.Util.Uuid.{IsUuid, text_to_uuid, uuid_to_str, remove_hyphens, decode_hex, hex_digit}

abbrev id1 : List ℕ
id1 = 1 ∷ 2 ∷ 3 ∷ 4 ∷ 5 ∷ 6 ∷ 7 ∷ 8 ∷ 9 ∷ 10 ∷ 11 ∷ 12 ∷ 13 ∷ 14 ∷ 15 ∷ 16 ∷ []

abbrev user1 : User
user1 = record {
  id = id1;
  username = codes "ann";
  email = codes "a@b";
  password = codes "h";
  role = codes "admin";
  api_key = id1;
  is_active = true;
}

abbrev users1 : Users
users1 = user1 ∷ []

-- The token "tok" is good until 100.
abbrev auth_env1 : AuthEnv
auth_env1 = record {
  parse_jwt = λ now t. claims_if now (eq_text t (codes "tok"));
  sign_jwt = λ c now expires. err unavailable;
  valid_email = λ t. true;
  hash_password = λ t. err unavailable;
  password_matches = λ h t. false;
}
  where
    claims_if : ℕ → Bool → Option Claims
    claims_if now true = some (record { sub = codes "id"; role = codes "user" })
    claims_if now false = none

abbrev bearer1 : Request
bearer1 = record {
  authorization = codes "Bearer tok";
  x_api_key = [];
  query_api_key = [];
  session = [];
}

auth-Entitled_example :
    HasToken auth_env1 50 bearer1 (codes "id") (codes "user")
    ⊎ HasKey users1 bearer1 (codes "id") (codes "user")
unfolding auth has_prefix eq_text trim_prefix
auth-Entitled_example = auth-Entitled auth_env1 users1 50 bearer1 (codes "id") (codes "user") refl

id1-IsUuid : IsUuid id1
id1-IsUuid = record {
  sixteen = refl;
  in_range = (
    omega arith,
    (
      omega arith,
      (
        omega arith,
        (
          omega arith,
          (
            omega arith,
            (
              omega arith,
              (
                omega arith,
                (
                  omega arith,
                  (
                    omega arith,
                    (
                      omega arith,
                      (
                        omega arith,
                        (
                          omega arith,
                          (omega arith, (omega arith, (omega arith, (omega arith, tt)))),
                        ),
                      ),
                    ),
                  ),
                ),
              ),
            ),
          ),
        ),
      ),
    ),
  );
}

me-auth_example :
    auth auth_env1 users1 50
      (with_key (key_in (me (codes "01020304-0506-0708-090a-0b0c0d0e0f10") users1)))
    ≡ passed (uuid_to_str (some id1)) (codes "admin")
unfolding text_to_uuid remove_hyphens decode_hex hex_digit eq_text
me-auth_example =
    me-auth auth_env1 users1 50 (codes "01020304-0506-0708-090a-0b0c0d0e0f10") user1 refl id1-IsUuid
      refl refl
