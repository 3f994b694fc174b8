-- ===== src/Engine/Aria2/Keys.antt =====
-- The cache keys of the aria2 engine (internal/core/engine/aria2/engine.go, torrent.go). The URL parser, the
-- hashes and the answers of other servers are parameters.
pub mod Shared
use opendebrid.Prelude.{
  ℕ, ◌+◌, Bool, true, false, ◌&&◌, ◌||◌, Option, none, some, List, [], ◌∷◌, Text, codes, has_prefix,
  trim_prefix, take, leb, if◌then◌else◌,
}
use opendebrid.Service.Env.{Url}
use opendebrid.Service.Keys.{CacheKey, hash, url}
use opendebrid.Util.Bencode.{Parsed, ok, invalid, panic, out_of_fuel}
use opendebrid.Util.Torrent.{to_hex, torrent_info_hash}

-- `strings.ToLower` on ASCII: other bytes stay.
abbrev lower : ℕ → ℕ
lower c = if leb b'A' c && leb c b'Z' then c + 32 else c

unfoldable pub to_lower : Text → Text
to_lower [] = []
to_lower (c ∷ s) = lower c ∷ to_lower s

-- 10 MB
abbrev pub max_torrent_size : ℕ
max_torrent_size = 10485760

abbrev pub hash_in : Text → Option Text
hash_in xt =
    if has_prefix xt (codes "urn:btih:")
    then some (to_lower (trim_prefix xt (codes "urn:btih:")))
    else none

abbrev pub magnet_hash : Option Url → Option Text
magnet_hash none = none
magnet_hash (some u) = hash_in (u.query (codes "xt"))

module _ (parse_url : Text → Option Url) (fetch : Text → Option Text)
    (sha1 sha256 : Text → List ℕ) where
  abbrev pub hash_of_body : Option Text → Parsed Text
  hash_of_body none = invalid
  hash_of_body (some body) = torrent_info_hash sha1 (take max_torrent_size body)

  -- `fetch` is the body of the answer to a GET that is answered with 200.
  pub fetch_torrent_info_hash : Text → Parsed Text
  fetch_torrent_info_hash raw = hash_of_body (fetch raw)

  abbrev pub by_url : Text → Parsed CacheKey
  by_url raw = ok (record { type = url; value = to_hex (sha256 raw) })

  abbrev pub by_torrent : Text → Parsed Text → Parsed CacheKey
  by_torrent raw (ok h) = ok (record { type = hash; value = h })
  by_torrent raw invalid = by_url raw
  by_torrent raw panic = panic
  by_torrent raw out_of_fuel = out_of_fuel

  abbrev pub by_fetch : Text → Parsed CacheKey
  unfolding fetch_torrent_info_hash
  by_fetch raw =
      if has_prefix raw (codes "http://") || has_prefix raw (codes "https://")
      then by_torrent raw (fetch_torrent_info_hash raw)
      else by_url raw

  abbrev pub by_magnet : Text → Option Text → Parsed CacheKey
  unfolding fetch_torrent_info_hash
  by_magnet raw none = by_fetch raw
  by_magnet raw (some h) = ok (record { type = hash; value = h })

  unfoldable pub resolve_cache_key : Text → Parsed CacheKey
  unfolding fetch_torrent_info_hash
  resolve_cache_key raw =
      if has_prefix raw (codes "magnet:")
      then by_magnet raw (magnet_hash (parse_url raw))
      else by_fetch raw
