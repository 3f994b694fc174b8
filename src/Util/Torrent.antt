-- ===== src/Util/Torrent.antt =====
-- Torrent files (internal/core/util/torrent.go): the info hash. SHA-1 is a parameter.
pub mod InfoHash
use opendebrid.Prelude.{
  ℕ, zero, suc, ◌+◌, ◌-◌, ◌/◌, ◌%◌, Bool, true, false, not, ◌&&◌, ◌||◌, Option, none, some, List,
  [], ◌∷◌, ◌++◌, Text, codes, eq_text, is_empty, length, get_elem?, take, drop, ltb, leb, ◌==◌,
  if◌then◌else◌,
}
use opendebrid.Util.Uuid.{hex_char}
use opendebrid.Util.Bencode.{
  Parsed, ok, invalid, panic, out_of_fuel, ◌>>=◌, byte_at, bdecode_string, bdecode_skip,
}

-- `fmt.Sprintf("%x", h)`
unfoldable pub to_hex : List ℕ → Text
to_hex [] = []
to_hex (b ∷ bs) = hex_char (b / 16) ∷ hex_char (b % 16) ∷ to_hex bs

-- `data[start:stop]`
abbrev pub slice : Text → ℕ → ℕ → Text
slice text start stop = take (stop - start) (drop start text)

-- `len(data) == 0 || data[0] != 'd'`
abbrev pub is_dict : Text → Bool
is_dict [] = false
is_dict (c ∷ s) = c == b'd'

abbrev pub at_end : Text → ℕ → Bool
at_end text pos = leb (length text) pos || byte_at text pos == b'e'

module _ (sha1 : Text → List ℕ) where
  -- The loop of `TorrentInfoHash` over the keys of the outer dictionary.
  find_info : ℕ → Text → ℕ → Parsed Text
  find_info zero text pos = out_of_fuel
  find_info (suc f) text pos =
      let body = (do
        (key, value_start) ← bdecode_string text pos
        next ← bdecode_skip (suc (length text)) text value_start
        let rest = find_info f text next
        if eq_text key (codes "info")
            then ok (to_hex (sha1 (slice text value_start next)))
            else rest) in
      if at_end text pos then invalid else body

  pub torrent_info_hash : Text → Parsed Text
  unfolding find_info
  torrent_info_hash text = if is_dict text then find_info (suc (length text)) text 1 else invalid
