-- ===== src/Tests/Util.antt =====
-- UUIDs, bencode, torrent files and storage keys at concrete inputs.
use opendebrid.Prelude.{
  is_digit, ℕ, ◌≢◌, ◌≡◌, refl, true, false, some, List, [], ◌∷◌, ◌++◌, Text, codes, eq_text, arith,
  All,
}
use opendebrid.Util.Uuid.{text_to_uuid, remove_hyphens, decode_hex, hex_digit}
use opendebrid.Util.Bencode.{ok, panic, out_of_fuel, bdecode_string, bdecode_skip}
use opendebrid.Util.Bencode.Values.{Value, int, str, list, dict, nil, cons, IsLengthOf}
use opendebrid.Util.Torrent.{torrent_info_hash}
use opendebrid.Util.Torrent.InfoHash.{
  Entry, IsEntry, encode_entries, torrent_info_hash-ends, torrent_info_hash-overflow,
}

abbrev uuid1 : List ℕ
uuid1 = 18 ∷ 52 ∷ 86 ∷ 120 ∷ 154 ∷ 188 ∷ 222 ∷ 240 ∷ 1 ∷ 2 ∷ 3 ∷ 4 ∷ 5 ∷ 6 ∷ 7 ∷ 255 ∷ []

uuid1-parsed : text_to_uuid (codes "123456789abcdef00102030405-0607FF") ≡ some uuid1
unfolding text_to_uuid remove_hyphens decode_hex hex_digit
uuid1-parsed = refl

-- "04:spam", with a leading zero.
spam-IsLengthOf : IsLengthOf (codes "04") (codes "spam")
spam-IsLengthOf = record { digits = (refl, (refl, tt)); some_digit = omega arith; denotes = refl }

abbrev spam : Value
spam = str (codes "04") (codes "spam")

-- A list of an integer and of the string.
abbrev nested : Value
nested = list (cons (int (codes "-3")) (cons spam nil))

string_read : bdecode_string (codes "d4:spame") 1 ≡ ok (codes "spam", 7)
unfolding bdecode_string
string_read = refl

list_skipped : bdecode_skip 20 (codes "dli3e4:spamee") 1 ≡ ok 12
unfolding bdecode_skip bdecode_string
list_skipped = refl

-- In place of SHA-1, the first byte of what it is applied to.
abbrev first_byte : Text → List ℕ
first_byte [] = []
first_byte (c ∷ s) = c ∷ []

torrent_info_hash-ends_example : torrent_info_hash first_byte (codes "d4:infod") ≢ out_of_fuel
torrent_info_hash-ends_example = torrent_info_hash-ends first_byte (codes "d4:infod")

abbrev pub announce : Entry
announce = record { digits = codes "8"; key = codes "announce"; value = nested }

pub announce-IsEntry : IsEntry announce
announce-IsEntry = (
  record { digits = (refl, tt); some_digit = omega arith; denotes = refl },
  ((refl, (refl, tt)), (spam-IsLengthOf, tt)),
)

pub announce-other : eq_text announce.key (codes "info") ≡ false
unfolding eq_text
announce-other = refl

abbrev pub info : Entry
info = record { digits = codes "4"; key = codes "info"; value = dict (cons spam (cons nested nil)) }

pub info-IsEntry : IsEntry info
info-IsEntry = (
  record { digits = (refl, tt); some_digit = omega arith; denotes = refl },
  (spam-IsLengthOf, (((refl, (refl, tt)), (spam-IsLengthOf, tt)), tt)),
)

abbrev torrent_file : Text
torrent_file = b'd' ∷ encode_entries (announce ∷ []) (encode_entries (info ∷ []) (codes "e"))

-- 2^63, as a length.
abbrev huge : Text
huge = codes "9223372036854775808"

huge-digits : All (λ d. is_digit d ≡ true) huge
huge-digits = ground arith

torrent_info_hash-overflow_example :
    torrent_info_hash first_byte (b'd' ∷ (huge ++ b':' ∷ [])) ≡ panic
torrent_info_hash-overflow_example =
    torrent_info_hash-overflow first_byte huge [] huge-digits (omega arith) (omega arith)
