-- ===== src/Storage/Uri.antt =====
-- Storage URIs (internal/core/storage/registry.go, local.go, rclone.go).
use opendebrid.Prelude.{
  ℕ, ◌≡◌, refl, Bool, false, [], ◌∷◌, ◌++◌, Text, codes, has_prefix, trim_prefix, is_empty,
  trim_right, ◌==◌, arith,
}

unfoldable pub is_remote_uri : Text → Bool
is_remote_uri uri = has_prefix uri (codes "rclone://")

-- `URIToPath`
unfoldable pub uri_to_path : Text → Text
uri_to_path uri = trim_prefix uri (codes "file://")

unfoldable pub build_remote_file_uri : Text → Text → Text
build_remote_file_uri remote_uri [] = remote_uri
build_remote_file_uri remote_uri (c ∷ path) = trim_right b'/' remote_uri ++ b'/' ∷ c ∷ path

-- `remotePath` of the rclone provider.
unfoldable pub remote_path : Text → Text → Text → Text
remote_path remote_name base_path [] = remote_name ++ b':' ∷ base_path
remote_path remote_name base_path (c ∷ key) = (remote_name ++ b':' ∷ base_path) ++ b'/' ∷ c ∷ key

-- What `Upload` returns for the directory of a storage key.
unfoldable pub upload_uri : Text → Text → Text → Text
unfolding remote_path
upload_uri remote_name base_path key = codes "rclone://" ++ remote_path remote_name base_path key

-- The text does not end in the byte `c`.
abbrev pub NotEndingIn : ℕ → Text → Type 0
NotEndingIn c [] = Unit
NotEndingIn c (x ∷ []) = (x == c) ≡ false
NotEndingIn c (x ∷ y ∷ s) = NotEndingIn c (y ∷ s)

pub trim_right-NotEndingIn : (c : ℕ) (s : Text) → NotEndingIn c s → trim_right c s ≡ s
unfolding trim_right is_empty
trim_right-NotEndingIn c [] h = refl
trim_right-NotEndingIn c (x ∷ []) h = ground arith
trim_right-NotEndingIn c (x ∷ y ∷ s) h = ground (arith, trim_right-NotEndingIn c (y ∷ s) h)
