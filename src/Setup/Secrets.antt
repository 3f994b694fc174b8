-- ===== src/Setup/Secrets.antt =====
-- The secrets that the controller makes at its first start.
use opendebrid.Prelude.{
  ℕ, suc, ◌-◌, ◌<◌, ◌≡◌, refl, subst, true, false, Option, none, some, List, [], ◌∷◌, ◌++◌, Text,
  eq_text, eq_text_refl, any, find, update_where, take-append, length, length-append, leb, All,
  Bool-cases, inl, inr, arith,
}
use opendebrid.Prelude.Ensures.{Ensures, Ensures-raise, Ensures-bind, Ensures-attempt}
use opendebrid.Prelude.Exec.{Result, ok, err, pure, attempt}
use opendebrid.Database.Model.{one_row}
use opendebrid.Database.Settings.{
  Setting, Settings, has_key, get_setting, write_setting, upsert_setting,
}
use opendebrid.Setup.{quoted, unquoted, is_unset, generate, kept_or_new, ensure_setting}
use opendebrid.Store.{Store, calm, on_settings, Ensures-on_settings}
use opendebrid.Util.Torrent.{to_hex}
use opendebrid.Util.Uuid.{hex_char}

pub unquoted-quoted : (v : Text) → unquoted (quoted v) ≡ v
unfolding unquoted
unquoted-quoted v =
    let e : suc (length (v ++ b'"' ∷ [])) - 2 ≡ length v =
      omega (arith, length-append v (b'"' ∷ [])) in
    let two : leb 2 (suc (length (v ++ b'"' ∷ []))) ≡ true =
      ground (arith, length-append v (b'"' ∷ [])) in
    rw two (rw e (take-append v (b'"' ∷ [])))

-- The row that a write leaves under its key.
pub find-write_setting :
    (key value : Text) (description : Option Text) (ss : Settings)
    → (x : Setting) × (find (has_key key) (write_setting key value description ss) ≡ some x)
      × (x.value ≡ value)
find-write_setting key value description ss = elim (Bool-cases (any (has_key key) ss)) [
  | inl known ↦ rw known (updated ss known)
  | inr new ↦ rw new (
    record { key = key; value = value; description = description },
    rw (eq_text_refl key) refl,
    refl,
  )
]
  where
    updated :
        (ss : Settings)
        → any (has_key key) ss ≡ true
        → (x : Setting) × (find
              (has_key key)
              (update_where (has_key key) (λ s. record s { value = value }) ss)
            ≡ some x)
          × (x.value ≡ value)
    updated [] h = cc
    updated (s ∷ ss) h = elim (Bool-cases (has_key key s)) [
      | inl e ↦ (record s { value = value }, rw e (rw e refl), refl)
      | inr e ↦ let (x, p, q) = updated ss (rw e at h) in (x, rw e (rw e p), q)
    ]

-- The setting is there and is set, and it says `v`.
abbrev pub Holds : Text → Text → Settings → Type 0
Holds key v ss =
    (x : Setting) × (find (has_key key) ss ≡ some x)
    × (is_unset x.value ≡ false)
    × (unquoted x.value ≡ v)

-- Random bytes, where there are any.
abbrev pub AreBytes : Result (List ℕ) → Type 0
AreBytes (err e) = Unit
AreBytes (ok bytes) = All (λ b. b < 256) bytes

is_unset-hex :
    (bytes : List ℕ) → All (λ b. b < 256) bytes → is_unset (quoted (to_hex bytes)) ≡ false
unfolding is_unset eq_text to_hex hex_char
is_unset-hex [] h = refl
is_unset-hex (b ∷ bs) h = ground arith

module _ (jsonb : Text → Option Text) where
  -- JSONB keeps a string of hexadecimal digits as it is.
  abbrev pub KeepsHex : Type 0
  KeepsHex =
      (bytes : List ℕ)
      → All (λ b. b < 256) bytes
      → jsonb (quoted (to_hex bytes)) ≡ some (quoted (to_hex bytes))

  module _ (keeps : KeepsHex) where
    upsert-Holds :
        (key : Text) (bytes : List ℕ)
        → All (λ b. b < 256) bytes
        → Ensures
            (λ _. Unit)
            (upsert_setting jsonb key (quoted (to_hex bytes)) none)
            (λ _ ss. Holds key (to_hex bytes) ss)
    upsert-Holds key bytes h ss p a e =
        let (x, found, value) = find-write_setting key (quoted (to_hex bytes)) none ss in
        rw (keeps bytes h)
          (x, found, rw value (is_unset-hex bytes h), rw value (unquoted-quoted (to_hex bytes)))

    generate-Holds :
        (key : Text) (random : Result (List ℕ))
        → AreBytes random
        → Ensures (λ _. Unit) (generate jsonb key random) (λ v s. Holds key v s.settings)
    generate-Holds key (err x) h = Ensures-raise _ _ x
    generate-Holds key (ok bytes) h =
        Ensures-bind (λ _. Unit) (λ _ s. Holds key (to_hex bytes) s.settings)
          (λ v s. Holds key v s.settings)
          (on_settings (upsert_setting jsonb key (quoted (to_hex bytes)) none))
          (λ _. pure (to_hex bytes))
          (Ensures-on_settings (λ _ ss. Holds key (to_hex bytes) ss)
            (upsert_setting jsonb key (quoted (to_hex bytes)) none) (upsert-Holds key bytes h))
          (λ x s held a e.
            subst (λ v. Holds key v s.settings) {x = to_hex bytes} {y = a} (cc (e)) held)

    get-Ensures :
        (key : Text)
        → Ensures (λ _. Unit) (get_setting key) (λ x ss. find (has_key key) ss ≡ some x)
    get-Ensures key ss p x e = found (find (has_key key) ss) e
      where
        found : (o : Option Setting) → one_row o ≡ ok x → o ≡ some x
        found none h = cc
        found (some y) h = cc

    kept-Holds :
        (key : Text) (random : Result (List ℕ))
        → AreBytes random
        → (r : Result Setting)
        → Ensures
            (λ s. (x : Setting) → r ≡ ok x → find (has_key key) s.settings ≡ some x)
            (kept_or_new jsonb key random r)
            (λ v s. Holds key v s.settings)
    kept-Holds key random h (err x) s p a e = generate-Holds key random h s tt a e
    kept-Holds key random h (ok x) s p a e = elim (Bool-cases (is_unset x.value)) [
      | inl unset ↦ rw unset (generate-Holds key random h s tt a (rw unset at e))
      | inr set ↦
          let same : unquoted x.value ≡ a = cc (rw set at e) in rw set (x, p x refl, set, same)
    ]

    ensure_setting-Holds :
        (key : Text) (random : Result (List ℕ))
        → AreBytes random
        → Ensures (λ _. Unit) (ensure_setting jsonb key random) (λ v s. Holds key v s.settings)
    unfolding ensure_setting
    ensure_setting-Holds key random h =
        Ensures-bind (λ _. Unit)
          (λ r s. (x : Setting) → r ≡ ok x → find (has_key key) s.settings ≡ some x)
          (λ v s. Holds key v s.settings) (attempt (on_settings (get_setting key)))
          (kept_or_new jsonb key random)
          (Ensures-attempt (λ _. Unit) (λ x s. find (has_key key) s.settings ≡ some x)
            (on_settings (get_setting key))
            (Ensures-on_settings (λ x ss. find (has_key key) ss ≡ some x) (get_setting key)
              (get-Ensures key)))
          (kept-Holds key random h)

  ensure_setting-again :
      (key v : Text) (again : Result (List ℕ)) (s : Store)
      → Holds key v s.settings
      → ensure_setting jsonb key again (calm s) ≡ (ok v, calm s)
  unfolding ensure_setting
  ensure_setting-again key v again s (x, found, set, says) = rw found (rw set (rw says refl))

  -- A secret that a start uses is the one that the next start uses, whichever random bytes it draws: it was
  -- stored before, or is made and stored now. JSONB is to keep hexadecimal digits as
  -- they are, and random bytes to be bytes.
  pub ensure_setting-kept :
      (key v : Text) (random again : Result (List ℕ)) (s : Store)
      → KeepsHex
      → AreBytes random
      → (ensure_setting jsonb key random s).0 ≡ ok v
      → (let s' = calm (ensure_setting jsonb key random s).1 in
          ensure_setting jsonb key again s' ≡ (ok v, s'))
  ensure_setting-kept key v random again s keeps bytes h =
      ensure_setting-again key v again (ensure_setting jsonb key random s).1
        (ensure_setting-Holds keeps key random bytes s tt v h)

  -- A start that loses its connection only where it reads a secret takes a new one and stores it, whatever
  -- was stored before.
  pub ensure_setting-lost :
      (key : Text) (bytes : List ℕ) (s : Store)
      → KeepsHex
      → All (λ b. b < 256) bytes
      → (let r = ensure_setting jsonb key (ok bytes) (record s { faults = true ∷ [] }) in
          (r.0 ≡ ok (to_hex bytes)) × Holds key (to_hex bytes) r.1.settings)
  unfolding ensure_setting
  ensure_setting-lost key bytes s keeps h =
      let (x, found, value) = find-write_setting key (quoted (to_hex bytes)) none s.settings in
      rw (keeps bytes h) (
        rw found refl,
        rw found
            (x, found, rw value (is_unset-hex bytes h), rw value (unquoted-quoted (to_hex bytes))),
      )
