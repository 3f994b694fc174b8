-- ===== src/FileServer/Inside.antt =====
-- What the file server opens on the disk.
use opendebrid.Prelude.{
  ◌≡◌, refl, Bool, true, ◌&&◌, List, [], ◌∷◌, ◌++◌, Text, has_prefix, is_empty, arith, Bool-cases,
  inl, inr,
}
use opendebrid.Prelude.Exec.{Result, ok, err}
use opendebrid.FileServer.{
  from_disk, local_answer, answer, serve_file, resolve_token, is_initial_request, token_of,
}
use opendebrid.Storage.Path.{clean, join, is_rooted, components, printed, print}
use opendebrid.Storage.Path.Normal.{AreNormal, clean-rooted, components-AreNormal}
use opendebrid.Storage.Uri.{is_remote_uri}
use opendebrid.World.{World}

-- A path below `base` with no component that leads out of it.
abbrev pub Inside : Text → Text → Type 0
Inside base path =
    (has_prefix path (base ++ b'/' ∷ []) ≡ true)
    × ((ps : List Text) × (path ≡ print ps) × AreNormal ps)

printed-Inside :
    (base : Text) (ps : List Text)
    → is_rooted base ≡ true
    → AreNormal ps
    → has_prefix (printed true ps) (base ++ b'/' ∷ []) ≡ true
    → Inside base (printed true ps)
unfolding has_prefix
printed-Inside base (p ∷ ps) r n h = (h, (p ∷ ps, refl, n))
printed-Inside [] [] r n h = cc
printed-Inside (c ∷ []) [] r n h = absurd (ground arith)
printed-Inside (c ∷ d ∷ s) [] r n h = absurd (ground arith)

join-Inside :
    (base t : Text)
    → is_rooted base ≡ true
    → has_prefix (join base t) (base ++ b'/' ∷ []) ≡ true
    → Inside base (join base t)
unfolding join
join-Inside [] t r h = cc
join-Inside (c ∷ s) t r h =
    let whole = c ∷ (s ++ b'/' ∷ t) in
    let e : clean whole ≡ printed true (components true whole) = clean-rooted whole r in
    rw e (printed-Inside (c ∷ s) (components true whole) r (components-AreNormal whole) (rw e at h))

module _ (base : Text) (has_remote : Bool) (exists : Text → Bool)
    (rooted : is_rooted base ≡ true) where
  local_answer-Inside :
      (uri path : Text)
      → local_answer base has_remote exists uri ≡ from_disk path
      → Inside base path
  unfolding local_answer
  local_answer-Inside uri path h =
      elim (Bool-cases (has_prefix (join base (clean uri)) (base ++ b'/' ∷ []))) [
        | inr e ↦ cc (rw e at h)
        | inl e ↦ elim (Bool-cases (exists (join base (clean uri)))) [
          | inr f ↦ cc (rw (e, f) at h)
          | inl f ↦
              let same : join base (clean uri) ≡ path = ground (arith, rw (e, f) at h) in
              rw same at (join-Inside base (clean uri) rooted e)
        ]
      ]

  answer-Inside :
      (r : Result Text) (path : Text)
      → answer base has_remote exists r ≡ from_disk path
      → Inside base path
  unfolding answer
  answer-Inside (err e) path h = cc
  answer-Inside (ok uri) path h = elim (Bool-cases (is_remote_uri uri && has_remote)) [
    | inl e ↦ cc (rw e at h)
    | inr e ↦ local_answer-Inside uri path (rw e at h)
  ]

  -- Whatever stands in the URL and in the database: a file that the server opens on the disk lies below
  -- its base directory, and its path has no "..".
  pub serve_file-Inside :
      (url range path : Text) (w : World)
      → (serve_file base has_remote exists url range w).0 ≡ ok (from_disk path)
      → Inside base path
  unfolding serve_file
  serve_file-Inside url range path w h = elim (Bool-cases (is_empty (token_of url))) [
    | inl e ↦ cc (rw (e, serve_file) at h)
    | inr e ↦
        answer-Inside (resolve_token (token_of url) (is_initial_request range) w).0 path
          (ground (arith, rw (e, serve_file) at h))
  ]
