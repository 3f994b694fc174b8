-- ===== src/Util/Uuid.antt =====
-- UUID texts (internal/core/util/uuid.go): hexadecimal with hyphens, both ways.
use Prim.Native.Nat.{ℕ, suc, ◌+◌, ◌-◌, ◌*◌, ◌/◌, ◌%◌, ◌<◌}
use opendebrid.Prelude.{
  ◌≡◌, refl, false, ◌&&◌, ◌||◌, Option, none, some, List, [], ◌∷◌, arith, Text, length, leb, ◌==◌,
  if◌then◌else◌, All, Bool-cases, inl, inr,
}

-- `pgtype.UUID`: sixteen bytes, or NULL where `Valid` is false.
abbrev pub Uuid : Type 0
Uuid = Option (List ℕ)

-- `hexChars[d]`
unfoldable pub hex_char : ℕ → ℕ
hex_char d = if leb d 9 then b'0' + d else b'a' + (d - 10)

-- One digit as `hex.DecodeString` reads it, in either case.
unfoldable pub hex_digit : ℕ → Option ℕ
hex_digit c =
    if leb b'0' c && leb c b'9'
    then some (c - b'0')
    else if leb b'a' c && leb c b'f'
    then some (c - b'a' + 10)
    else if leb b'A' c && leb c b'F'
    then some (c - b'A' + 10)
    else none

byte_of : Option ℕ → Option ℕ → Option (List ℕ) → Option (List ℕ)
byte_of (some hi) (some lo) (some rest) = some ((hi * 16 + lo) ∷ rest)
byte_of _ _ _ = none

-- `hex.DecodeString`: an odd length or a byte that is no digit is an error.
unfoldable pub decode_hex : Text → Option (List ℕ)
unfolding byte_of
decode_hex [] = some []
decode_hex (x ∷ []) = none
decode_hex (x ∷ y ∷ s) = byte_of (hex_digit x) (hex_digit y) (decode_hex s)

-- `strings.ReplaceAll(s, "-", "")`
unfoldable pub remove_hyphens : Text → Text
remove_hyphens [] = []
remove_hyphens (c ∷ s) = let rest = remove_hyphens s in if c == b'-' then rest else c ∷ rest

unfoldable pub text_to_uuid : Text → Uuid
text_to_uuid s = let s' = remove_hyphens s in if length s' == 32 then decode_hex s' else none

-- The loop of `UUIDToStr` from byte `i` on: a hyphen stands before bytes 4, 6, 8 and 10.
pub format_bytes : ℕ → List ℕ → Text
format_bytes i [] = []
format_bytes i (b ∷ bs) =
    let digits = hex_char (b / 16) ∷ hex_char (b % 16) ∷ format_bytes (suc i) bs in
    if i == 4 || i == 6 || i == 8 || i == 10 then b'-' ∷ digits else digits

pub uuid_to_str : Uuid → Text
uuid_to_str none = []
uuid_to_str (some bytes) = format_bytes 0 bytes

-- What a value read from the database satisfies.
pub record IsUuid (bytes : List ℕ) : Type 0 where
  pub sixteen : length bytes ≡ 16
  pub in_range : All (λ b. b < 256) bytes

hex_digit-hex_char : (d : ℕ) → d < 16 → hex_digit (hex_char d) ≡ some d
unfolding hex_digit hex_char
hex_digit-hex_char d h = ground arith

hex_char-ne-hyphen : (d : ℕ) → d < 16 → (hex_char d == b'-') ≡ false
unfolding hex_char
hex_char-ne-hyphen d h = ground arith

-- The text without its hyphens: two digits for each byte.
plain_hex : List ℕ → Text
plain_hex [] = []
plain_hex (b ∷ bs) = hex_char (b / 16) ∷ hex_char (b % 16) ∷ plain_hex bs

remove_hyphens-format_bytes :
    (i : ℕ) (bs : List ℕ)
    → All (λ b. b < 256) bs
    → remove_hyphens (format_bytes i bs) ≡ plain_hex bs
unfolding remove_hyphens format_bytes plain_hex
remove_hyphens-format_bytes i [] h = refl
remove_hyphens-format_bytes i (b ∷ bs) h = ground (
  arith,
  remove_hyphens-format_bytes (suc i) bs h.1,
  hex_char-ne-hyphen (b / 16),
  hex_char-ne-hyphen (b % 16),
)

length-plain_hex : (bs : List ℕ) → length (plain_hex bs) ≡ 2 * length bs
unfolding plain_hex
length-plain_hex [] = refl
length-plain_hex (b ∷ bs) = omega (arith, length-plain_hex bs)

decode_hex-plain_hex : (bs : List ℕ) → All (λ b. b < 256) bs → decode_hex (plain_hex bs) ≡ some bs
unfolding decode_hex plain_hex
decode_hex-plain_hex [] h = refl
decode_hex-plain_hex (b ∷ bs) h =
    ground
      (arith, decode_hex-plain_hex bs h.1, hex_digit-hex_char (b / 16), hex_digit-hex_char (b % 16))

-- Parsing the text that `UUIDToStr` writes for a sixteen-byte value gives that value back.
pub text_to_uuid-uuid_to_str :
    (bytes : List ℕ) → IsUuid bytes → text_to_uuid (uuid_to_str (some bytes)) ≡ some bytes
unfolding text_to_uuid uuid_to_str
text_to_uuid-uuid_to_str bytes h = ground (
  arith,
  remove_hyphens-format_bytes 0 bytes h.in_range,
  length-plain_hex bytes,
  decode_hex-plain_hex bytes h.in_range,
)

hex_digit-lt : (c d : ℕ) → hex_digit c ≡ some d → d < 16
unfolding hex_digit
hex_digit-lt c d h = ground arith

byte_of_bytes :
    (hi lo : Option ℕ) (rest : Option (List ℕ)) (bytes : List ℕ)
    → byte_of hi lo rest ≡ some bytes
    → (h : ℕ) × (l : ℕ) × (r : List ℕ) × (hi ≡ some h)
      × (lo ≡ some l)
      × (rest ≡ some r)
      × (bytes ≡ (h * 16 + l) ∷ r)
unfolding byte_of
byte_of_bytes (some h) (some l) (some r) bytes e = (h, l, r, refl, refl, refl, cc)
byte_of_bytes (some h) (some l) none bytes e = cc
byte_of_bytes (some h) none rest bytes e = cc
byte_of_bytes none lo rest bytes e = cc

abbrev IsHalf : Text → List ℕ → Type 0
IsHalf s bytes = (length s ≡ 2 * length bytes) × All (λ b. b < 256) bytes

decode_hex-IsHalf : (s : Text) (bytes : List ℕ) → decode_hex s ≡ some bytes → IsHalf s bytes
unfolding decode_hex
decode_hex-IsHalf [] [] h = (refl, tt)
decode_hex-IsHalf [] (b ∷ bs) h = cc
decode_hex-IsHalf (x ∷ []) bytes h = cc
decode_hex-IsHalf (x ∷ y ∷ s) bytes e =
    let (h, l, r, ph, pl, pr, pb) =
      byte_of_bytes (hex_digit x) (hex_digit y) (decode_hex s) bytes e in
    let (len, all) = decode_hex-IsHalf s r pr in
    rw pb (omega arith, (omega (arith, hex_digit-lt x h ph, hex_digit-lt y l pl), all))

-- Whatever the text, a value that `TextToUUID` marks as valid has sixteen bytes, all below 256.
pub text_to_uuid-IsUuid : (s : Text) (bytes : List ℕ) → text_to_uuid s ≡ some bytes → IsUuid bytes
unfolding text_to_uuid
text_to_uuid-IsUuid s bytes h = elim (Bool-cases (length (remove_hyphens s) == 32)) [
  | inl long ↦
      let half = decode_hex-IsHalf (remove_hyphens s) bytes (rw long at h) in
      record { sixteen = ground (arith, half.0); in_range = half.1 }
  | inr short ↦ cc (short, h)
]
