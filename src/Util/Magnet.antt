-- ===== src/Util/Magnet.antt =====
-- `TorrentToMagnet` (internal/core/util/torrent.go): the magnet link of a torrent file. SHA-1 and
-- `url.QueryEscape` are parameters.
pub mod Names
pub mod Linked
use opendebrid.Prelude.{
  ℕ, zero, suc, Bool, true, false, List, [], ◌∷◌, ◌++◌, Text, codes, eq_text, is_empty, length,
  if◌then◌else◌,
}
use opendebrid.Util.Bencode.{
  Parsed, ok, invalid, panic, out_of_fuel, ◌>>=◌, bdecode_string, bdecode_skip,
}
use opendebrid.Util.Torrent.{to_hex, slice, is_dict, at_end}

-- What stands in for a result where an error leads to the empty text.
abbrev pub or_empty : Parsed Text → Parsed Text
or_empty (ok s) = ok s
or_empty invalid = ok []
or_empty panic = panic
or_empty out_of_fuel = out_of_fuel

abbrev pub string_at : Text → ℕ → Parsed Text
string_at text pos = or_empty (bdecode_string text pos >>= λ r. ok r.0)

-- The loop of `extractInfoName`, with its errors; the caller makes them the empty name.
unfoldable pub name_from : ℕ → Text → ℕ → Parsed Text
name_from zero text pos = out_of_fuel
name_from (suc f) text pos =
    let body = (do
      (key, value_start) ← bdecode_string text pos
      let rest =
          (bdecode_skip (suc (length text)) text value_start >>= λ next. name_from f text next)
      if eq_text key (codes "name")
          then (bdecode_string text value_start >>= λ r. ok r.0)
          else rest) in
    if at_end text pos then ok [] else body

unfoldable pub extract_info_name : Text → Parsed Text
unfolding name_from
extract_info_name text =
    if is_dict text then or_empty (name_from (suc (length text)) text 1) else ok []

pub record Parts : Type 0 where
  pub info_hash : Text
  pub name : Text
  pub announce : Text

abbrev pub no_parts : Parts
no_parts = record { info_hash = []; name = []; announce = [] }

module _ (sha1 : Text → List ℕ) where
  -- The `switch` over the key, with the bounds of its value.
  unfoldable pub take_part : Text → Text → ℕ → ℕ → Parts → Parsed Parts
  unfolding extract_info_name
  take_part text key start next p =
      if eq_text key (codes "info")
      then (extract_info_name (slice text start next) >>= λ name.
          ok (record p { info_hash = to_hex (sha1 (slice text start next)); name = name }))
      else if eq_text key (codes "announce")
      then (string_at text start >>= λ s. ok (record p { announce = s }))
      else ok p

  unfoldable pub read_parts : ℕ → Text → ℕ → Parts → Parsed Parts
  read_parts zero text pos p = out_of_fuel
  read_parts (suc f) text pos p =
      let body = (do
        (key, start) ← bdecode_string text pos
        next ← bdecode_skip (suc (length text)) text start
        p' ← take_part text key start next p
        read_parts f text next p') in
      if at_end text pos then ok p else body

  module _ (escape : Text → Text) where
    abbrev pub with_part : Text → Text → Text
    with_part key s = if is_empty s then [] else key ++ escape s

    abbrev pub magnet_link : Parts → Text
    magnet_link p =
        codes "magnet:?xt=urn:btih:"
        ++ (p.info_hash ++ (with_part (codes "&dn=") p.name ++ with_part (codes "&tr=") p.announce))

    abbrev pub linked : Parts → Parsed Text
    linked p = if is_empty p.info_hash then invalid else ok (magnet_link p)

    unfoldable pub torrent_to_magnet : Text → Parsed Text
    torrent_to_magnet text =
        if is_dict text
        then (read_parts (suc (length text)) text 1 no_parts >>= linked)
        else invalid
