-- ===== src/Service/Keys.antt =====
-- Cache keys and storage keys (internal/core/service/storagekey.go, internal/core/engine/engine.go).
use opendebrid.Prelude.{
  ℕ, zero, suc, ◌*◌, ◌/◌, ◌%◌, ◌<◌, ◌≤◌, ◌≡◌, refl, true, List, [], ◌∷◌, ◌++◌, Text, codes, length,
  take, All, arith,
}
use opendebrid.Util.Uuid.{hex_char}
use opendebrid.Util.Torrent.{to_hex}
use opendebrid.Util.StorageDir.{is_hex, all_hex, is_storage_key_dir}

pub data CacheKeyType : Type 0 where
  hash url custom_id : CacheKeyType

pub record CacheKey : Type 0 where
  pub type : CacheKeyType
  pub value : Text

abbrev pub type_text : CacheKeyType → Text
type_text hash = codes "hash"
type_text url = codes "url"
type_text custom_id = codes "custom_id"

-- `CacheKey.Full`
abbrev full_value : CacheKeyType → Text → Text
full_value t [] = []
full_value t (c ∷ v) = type_text t ++ b':' ∷ c ∷ v

unfoldable pub full : CacheKey → Text
full k = full_value k.type k.value

abbrev prefix_for : Text → CacheKeyType → Text
prefix_for engine hash = codes "bt:"
prefix_for engine _ = engine ++ b':' ∷ []

unfoldable pub cache_key_prefix : Text → CacheKey → Text
cache_key_prefix engine k = prefix_for engine k.type

-- hex(sha256(key)[:16])
unfoldable pub storage_key_from_cache_key : (Text → List ℕ) → Text → Text
storage_key_from_cache_key sha256 key = to_hex (take 16 (sha256 key))

-- What SHA-256 returns: 32 bytes.
abbrev pub IsDigest : List ℕ → Type 0
IsDigest bytes = (length bytes ≡ 32) × All (λ b. b < 256) bytes

hex_char-is_hex : (d : ℕ) → d < 16 → is_hex (hex_char d) ≡ true
unfolding hex_char
hex_char-is_hex d h = ground arith

pub to_hex-all_hex :
    (n : ℕ) (bytes : List ℕ) → All (λ b. b < 256) bytes → all_hex (to_hex (take n bytes)) ≡ true
unfolding to_hex all_hex
to_hex-all_hex zero bytes h = refl
to_hex-all_hex (suc n) [] h = refl
to_hex-all_hex (suc n) (b ∷ bs) h =
    ground (arith, to_hex-all_hex n bs h.1, hex_char-is_hex (b / 16), hex_char-is_hex (b % 16))

length-to_hex : (n : ℕ) (bytes : List ℕ) → n ≤ length bytes → length (to_hex (take n bytes)) ≡ 2 * n
unfolding to_hex
length-to_hex zero bytes h = refl
length-to_hex (suc n) [] h = absurd (omega arith)
length-to_hex (suc n) (b ∷ bs) h = omega (arith, length-to_hex n bs (omega arith))

-- Every storage key that the service derives is the name of a directory that the scans of the nodes take
-- for a storage key: 32 lower-case hexadecimal digits.
pub storage_key_from_cache_key_lem :
    (sha256 : Text → List ℕ) (key : Text)
    → IsDigest (sha256 key)
    → is_storage_key_dir (storage_key_from_cache_key sha256 key) ≡ true
unfolding storage_key_from_cache_key is_storage_key_dir
storage_key_from_cache_key_lem sha256 key h =
    ground (arith, to_hex-all_hex 16 (sha256 key) h.1, length-to_hex 16 (sha256 key))
