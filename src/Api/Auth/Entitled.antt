-- ===== src/Api/Auth/Entitled.antt =====
-- Who gets past the authentication.
use opendebrid.Prelude.{
  ℕ, ◌≡◌, ◌⊎◌, refl, ap, ◌∙◌, true, false, Option, none, some, List, [], ◌∷◌, Text, codes, eq_text,
  eq_text_iff, has_prefix, trim_prefix, is_empty, find, Bool-cases, inl, inr,
}
use opendebrid.Prelude.Exec.{Result, ok, err}
use opendebrid.Api.Accounts.{
  User, Users, Claims, AuthEnv, Http, answered, refused, MeDto, me, me_of, get_user_by_id,
  get_user_by_api_key, has_api_key,
}
use opendebrid.Api.Auth.{
  Request, Access, unauthorized, forbidden, passed, parse_api_key, by_claims, by_user, by_api_key,
  api_key_of, auth, admin_only,
}
use opendebrid.Util.Uuid.{
  Uuid, IsUuid, remove_hyphens, text_to_uuid, uuid_to_str, text_to_uuid-uuid_to_str,
}

-- A token of the request, valid at the time, says so.
abbrev pub HasToken : AuthEnv → ℕ → Request → Text → Text → Type 0
HasToken env now r id role =
    (token : Text) × (c : Claims) × (env.parse_jwt now token ≡ some c)
    × (c.sub ≡ id)
    × (c.role ≡ role)
    × ((token ≡ trim_prefix r.authorization (codes "Bearer ")) ⊎ (token ≡ r.session))

-- The API key of the request is that of an active user.
abbrev pub HasKey : Users → Request → Text → Text → Type 0
HasKey us r id role =
    (u : User) × (key : List ℕ) × (parse_api_key (api_key_of r) ≡ some key)
    × (get_user_by_api_key key us ≡ ok u)
    × (u.is_active ≡ true)
    × (uuid_to_str (some u.id) ≡ id)
    × (u.role ≡ role)

by_claims-passed :
    (o : Option Claims) (id role : Text)
    → by_claims o ≡ passed id role
    → (c : Claims) × (o ≡ some c) × (c.sub ≡ id) × (c.role ≡ role)
by_claims-passed none id role h = absurd (cc)
by_claims-passed (some c) id role h = (c, refl, cc, cc)

by_user-passed :
    (o : Result User) (id role : Text)
    → by_user o ≡ passed id role
    → (u : User) × (o ≡ ok u)
      × (u.is_active ≡ true)
      × (uuid_to_str (some u.id) ≡ id)
      × (u.role ≡ role)
by_user-passed (err e) id role h = absurd (cc)
by_user-passed (ok u) id role h = elim (Bool-cases u.is_active) [
  | inr e ↦ absurd (cc (rw e at h))
  | inl e ↦
      let p : passed (uuid_to_str (some u.id)) u.role ≡ passed id role = rw e at h in
      (u, refl, e, cc (p), cc (p))
]

by_api_key-passed :
    (o : Uuid) (us : Users) (id role : Text)
    → by_api_key o us ≡ passed id role
    → (u : User) × (key : List ℕ) × (o ≡ some key)
      × (get_user_by_api_key key us ≡ ok u)
      × (u.is_active ≡ true)
      × (uuid_to_str (some u.id) ≡ id)
      × (u.role ≡ role)
by_api_key-passed none us id role h = absurd (cc)
by_api_key-passed (some key) us id role h =
    let (u, e, a, i, r) = by_user-passed (get_user_by_api_key key us) id role h in
    (u, key, refl, e, a, i, r)

-- A request that goes on has a token that is valid at the time and names the id and the role, or the API key
-- of an active user of that id and role.
pub auth-Entitled :
    (env : AuthEnv) (us : Users) (now : ℕ) (r : Request) (id role : Text)
    → auth env us now r ≡ passed id role
    → HasToken env now r id role ⊎ HasKey us r id role
unfolding auth
auth-Entitled env us now r id role h =
    elim (Bool-cases (has_prefix r.authorization (codes "Bearer "))) [
      | inl b ↦
          let (c, e, i, k) =
            by_claims-passed (env.parse_jwt now (trim_prefix r.authorization (codes "Bearer "))) id
              role (rw (b, auth) at h) in
          inl (trim_prefix r.authorization (codes "Bearer "), c, e, i, k, inl refl)
      | inr b ↦ elim (Bool-cases (is_empty (api_key_of r))) [
        | inr f ↦
            inr (by_api_key-passed (parse_api_key (api_key_of r)) us id role (rw (b, f, auth) at h))
        | inl f ↦ elim (Bool-cases (is_empty r.session)) [
          | inl g ↦ absurd (cc (rw (b, f, g, auth) at h))
          | inr g ↦
              let (c, e, i, k) =
                by_claims-passed (env.parse_jwt now r.session) id role (rw (b, f, g, auth) at h) in
              inl (r.session, c, e, i, k, inr refl)
        ]
      ]
    ]

admin_only-passed :
    (a : Access) (id role : Text)
    → admin_only a ≡ passed id role
    → (a ≡ passed id role) × (role ≡ codes "admin")
admin_only-passed unauthorized id role h = absurd (cc)
admin_only-passed forbidden id role h = absurd (cc)
admin_only-passed (passed id' role') id role h = elim (Bool-cases (eq_text role' (codes "admin"))) [
  | inr e ↦ absurd (cc (rw e at h))
  | inl e ↦
      let p : passed id' role' ≡ passed id role = rw e at h in
      (p, cc (p, (eq_text_iff role' (codes "admin")).0 e))
]

-- Behind `AdminOnly` the role is moreover that of an administrator.
admin_only-Entitled :
    (env : AuthEnv) (us : Users) (now : ℕ) (r : Request) (id role : Text)
    → admin_only (auth env us now r) ≡ passed id role
    → (role ≡ codes "admin") × (HasToken env now r id role ⊎ HasKey us r id role)
admin_only-Entitled env us now r id role h =
    let (e, admin) = admin_only-passed (auth env us now r) id role h in
    (admin, auth-Entitled env us now r id role e)

-- The key that `Me` shows.
abbrev pub key_in : Http MeDto → Text
key_in (answered d) = d.api_key
key_in (refused n) = []

-- A request with nothing but an X-API-Key.
abbrev pub with_key : Text → Request
with_key key = record { authorization = []; x_api_key = key; query_api_key = []; session = [] }

auth-with_key :
    (env : AuthEnv) (us : Users) (now : ℕ) (key : Text)
    → is_empty key ≡ false
    → auth env us now (with_key key) ≡ by_api_key (parse_api_key key) us
unfolding auth has_prefix
auth-with_key env us now key e = rw e (rw e refl)

-- No text that is read as a UUID is empty.
text_to_uuid_nonempty :
    (s : Text) (bytes : List ℕ) → text_to_uuid s ≡ some bytes → is_empty s ≡ false
unfolding text_to_uuid remove_hyphens is_empty
text_to_uuid_nonempty [] bytes h = absurd (cc)
text_to_uuid_nonempty (c ∷ s) bytes h = refl

parse_api_key_lem : (s : Text) → parse_api_key s ≡ text_to_uuid s
unfolding parse_api_key text_to_uuid
parse_api_key_lem s = refl

-- The API key that `Me` shows to an active user, sent as X-API-Key, lets a request go on with the user's id
-- and role, where the key is a UUID and no other user has it.
pub me-auth :
    (env : AuthEnv) (us : Users) (now : ℕ) (user_id : Text) (u : User)
    → get_user_by_id (text_to_uuid user_id) us ≡ ok u
    → IsUuid u.api_key
    → find (has_api_key u.api_key) us ≡ some u
    → u.is_active ≡ true
    → auth env us now (with_key (key_in (me user_id us))) ≡ passed (uuid_to_str (some u.id)) u.role
unfolding me
me-auth env us now user_id u found uuid unique active_user =
    let key = uuid_to_str (some u.api_key) in
    let read = text_to_uuid-uuid_to_str u.api_key uuid in
    ap (λ r. auth env us now (with_key (key_in (me_of r)))) found
    ∙ (auth-with_key env us now key (text_to_uuid_nonempty key u.api_key read)
        ∙ (ap (λ o. by_api_key o us) (parse_api_key_lem key ∙ read)
            ∙ rw unique (rw active_user refl)))
