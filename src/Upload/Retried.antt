-- ===== src/Upload/Retried.antt =====
-- The attempts of an upload.
use opendebrid.Prelude.{
  ℕ, zero, suc, ◌+◌, ◌≤◌, ◌<◌, ◌≡◌, refl, ap, false, ◌&&◌, ltb, ◌==◌, arith, Bool-cases, inl, inr,
}
use opendebrid.Prelude.{Text}
use opendebrid.Prelude.Exec.{Err, Result, ok, err}
use opendebrid.Upload.{
  UploadEnv, Outcome, uploaded_to, upload_max_retries, after_attempt, attempts, upload_directory,
}

-- An attempt of those that are made that the provider answers with the URI.
abbrev pub Answered : UploadEnv → ℕ → Text → Type 0
Answered env bound uri = (k : ℕ) × (k < bound) × (env.upload k ≡ ok uri)

module _ (env : UploadEnv) where
  after_attempt-Answered :
      (n bound : ℕ) (uri : Text) (next : Err → Outcome)
      → ((e : Err) → next e ≡ uploaded_to uri → Answered env bound uri)
      → n < bound
      → (r : Result Text) → env.upload n ≡ r
      → after_attempt env n next r ≡ uploaded_to uri
      → Answered env bound uri
  after_attempt-Answered n bound uri next h lt (ok u) e g = (n, lt, ground (arith, e, g))
  after_attempt-Answered n bound uri next h lt (err x) e g =
      elim (Bool-cases (ltb n upload_max_retries && env.done_in_wait n)) [
        | inl d ↦ absurd (cc (rw d at g))
        | inr d ↦ h x (rw d at g)
      ]

  attempts-Answered :
      (left n bound : ℕ) (last : Err) (uri : Text)
      → left + n ≤ bound
      → attempts env left n last ≡ uploaded_to uri
      → Answered env bound uri
  attempts-Answered zero n bound last uri le h = absurd (cc)
  attempts-Answered (suc left) n bound last uri le h = elim (Bool-cases (env.done_before n)) [
    | inl e ↦ absurd (cc (rw e at h))
    | inr e ↦
        after_attempt-Answered n bound uri (attempts env left (suc n))
          (λ x. attempts-Answered left (suc n) bound x uri (omega (arith, le))) (omega (arith, le))
          (env.upload n) refl (rw e at h)
  ]

  -- The URI of an upload is the provider's answer to one of four attempts.
  pub upload_directory-Answered :
      (none_yet : Err) (uri : Text)
      → upload_directory env none_yet ≡ uploaded_to uri
      → Answered env 4 uri
  unfolding upload_directory
  upload_directory-Answered none_yet uri = attempts-Answered 4 0 4 none_yet uri (omega arith)

  -- The context is never done.
  abbrev pub Undisturbed : Type 0
  Undisturbed = (n : ℕ) → (env.done_before n ≡ false) × (env.done_in_wait n ≡ false)

  -- The outcome is an upload.
  abbrev pub IsUploaded : Outcome → Type 0
  IsUploaded o = (uri : Text) × (o ≡ uploaded_to uri)

  after_attempt-IsUploaded :
      (n : ℕ) (next : Err → Outcome)
      → Undisturbed
      → (r : Result Text) → ((e : Err) → r ≡ err e → IsUploaded (next e))
      → IsUploaded (after_attempt env n next r)
  after_attempt-IsUploaded n next calm (ok u) h = (u, refl)
  after_attempt-IsUploaded n next calm (err x) h = elim (Bool-cases (ltb n upload_max_retries)) [
    | inl e ↦ rw (e, (calm n).1) (h x refl)
    | inr e ↦ rw e (h x refl)
  ]

  -- An attempt that fails is not the one that succeeds.
  later :
      (n k : ℕ) (uri : Text) (x : Err)
      → n ≤ k
      → env.upload k ≡ ok uri
      → env.upload n ≡ err x
      → suc n ≤ k
  later n k uri x le e f = elim (Bool-cases (n == k)) [
    | inl q ↦
        absurd (let same : env.upload n ≡ env.upload k = ap env.upload (ground (arith, q)) in cc)
    | inr q ↦ ground (arith, le, q)
  ]

  attempts-IsUploaded :
      (left n k : ℕ) (last : Err) (uri : Text)
      → Undisturbed
      → n ≤ k
      → k < left + n
      → env.upload k ≡ ok uri
      → IsUploaded (attempts env left n last)
  attempts-IsUploaded zero n k last uri calm le lt e = absurd (omega (arith, le, lt))
  attempts-IsUploaded (suc left) n k last uri calm le lt e = rw (calm n).0 (
      after_attempt-IsUploaded n (attempts env left (suc n)) calm (env.upload n) (λ x f.
        attempts-IsUploaded left (suc n) k x uri calm (later n k uri x le e f) (omega (arith, lt))
          e))

  -- Where one of the first four attempts would succeed and the context is not done, there is an upload.
  pub upload_directory-IsUploaded :
      (none_yet : Err) (k : ℕ) (uri : Text)
      → Undisturbed
      → k < 4
      → env.upload k ≡ ok uri
      → IsUploaded (upload_directory env none_yet)
  unfolding upload_directory
  upload_directory-IsUploaded none_yet k uri calm lt e =
      attempts-IsUploaded 4 0 k none_yet uri calm (omega arith) lt e
