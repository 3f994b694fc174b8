-- ===== src/Tests/Torrents.antt =====
-- The cache key of a torrent at a concrete input.
use opendebrid.Prelude.{
  ℕ, ◌≤◌, ◌≡◌, refl, ap, ◌∙◌, is_empty, true, false, ◌==◌, Option, none, some, List, [], ◌∷◌, ◌++◌,
  Text, codes, has_prefix, has_prefix-append, trim_prefix, trim_prefix-append, length, arith,
  Bool-cases, inl, inr, if◌then◌else◌,
}
use opendebrid.Engine.Aria2.Keys.{max_torrent_size, resolve_cache_key}
use opendebrid.Engine.Aria2.Keys.Shared.{IsSha1, ReadsLinks, resolve_cache_key-torrent}
use opendebrid.Service.Env.{Url}
use opendebrid.Service.Keys.{CacheKey, hash}
use opendebrid.Util.Bencode.{ok}
use opendebrid.Util.Bencode.Values.{encode}
use opendebrid.Util.Magnet.{Parts, with_part, magnet_link, torrent_to_magnet}
use opendebrid.Util.Magnet.Linked.{torrent_file}
use opendebrid.Util.StorageDir.{all_hex}
use opendebrid.Util.Torrent.{to_hex}
use opendebrid.Util.Torrent.InfoHash.{encode_entries}
use opendebrid.Tests.Util.{announce, announce-IsEntry, announce-other, info, info-IsEntry}

-- In place of SHA-1, the same twenty bytes.
abbrev digest1 : List ℕ
digest1 =
    1 ∷ 2 ∷ 3 ∷ 4 ∷ 5 ∷ 6 ∷ 7 ∷ 8 ∷ 9 ∷ 10 ∷ 11 ∷ 12 ∷ 13 ∷ 14 ∷ 15 ∷ 16 ∷ 17 ∷ 18 ∷ 19 ∷ 255 ∷ []

abbrev sha1_1 : Text → List ℕ
sha1_1 s = digest1

sha1_1-IsSha1 : IsSha1 sha1_1
sha1_1-IsSha1 s = (refl, ground arith)

abbrev escape1 : Text → Text
escape1 s = s

-- The value of the first parameter of a query.
before_and : Text → Text
before_and [] = []
before_and (c ∷ s) = if c == b'&' then [] else c ∷ before_and s

abbrev value_in : Text → Url
value_in raw = record {
  host = [];
  path = [];
  query = λ k. before_and (trim_prefix raw (codes "magnet:?xt="));
}

-- Links only.
abbrev parse_url1 : Text → Option Url
parse_url1 raw = if has_prefix raw (codes "magnet:?xt=") then some (value_in raw) else none

before_and-hex :
    (h rest : Text) → all_hex h ≡ true → before_and rest ≡ [] → before_and (h ++ rest) ≡ h
unfolding before_and all_hex
before_and-hex [] rest hex r = r
before_and-hex (c ∷ h) rest hex r =
    let more : all_hex h ≡ true = ground arith in
    let digit : (c == b'&') ≡ false = ground arith in
    rw digit (ap (λ t. c ∷ t) (before_and-hex h rest more r))

-- What stands behind the hash in a link begins with an ampersand, or is empty.
before_and-parts :
    (p : Parts)
    → before_and (
        with_part sha1_1 escape1 (codes "&dn=") p.name
        ++ with_part sha1_1 escape1 (codes "&tr=") p.announce)
      ≡ []
unfolding before_and
before_and-parts p = elim (Bool-cases (is_empty p.name)) [
  | inl none_named ↦ elim (Bool-cases (is_empty p.announce)) [
    | inl e ↦ rw none_named (rw e refl)
    | inr e ↦ rw none_named (rw e refl)
  ]
  | inr named ↦ rw named refl
]

parse_url1-ReadsLinks : ReadsLinks parse_url1 sha1_1 escape1
unfolding before_and
parse_url1-ReadsLinks p hex =
    let parts =
      with_part sha1_1 escape1 (codes "&dn=") p.name
      ++ with_part sha1_1 escape1 (codes "&tr=") p.announce in
    let link : has_prefix (magnet_link sha1_1 escape1 p) (codes "magnet:?xt=") ≡ true =
      has_prefix-append (codes "magnet:?xt=") (codes "urn:btih:" ++ (p.info_hash ++ parts)) in
    (
      value_in (magnet_link sha1_1 escape1 p),
      rw link refl,
      ap before_and
            (trim_prefix-append (codes "magnet:?xt=") (codes "urn:btih:" ++ (p.info_hash ++ parts)))
          ∙ query_value p.info_hash parts hex (before_and-parts p),
    )
  where
    query_value :
        (h rest : Text)
        → all_hex h ≡ true
        → before_and rest ≡ []
        → before_and (codes "urn:btih:" ++ (h ++ rest)) ≡ codes "urn:btih:" ++ h
    query_value h rest hex r = ap (λ t. codes "urn:btih:" ++ t) (before_and-hex h rest hex r)

abbrev torrent1 : Text
torrent1 = torrent_file sha1_1 (announce ∷ []) info [] []

-- Each address answers with the file.
abbrev fetch1 : Text → Option Text
fetch1 raw = some torrent1

abbrev sha256_1 : Text → List ℕ
sha256_1 s = s

abbrev web1 : Text
web1 = codes "https://h/t.torrent"

abbrev key_of_torrent1 : CacheKey
key_of_torrent1 = record { type = hash; value = to_hex (sha1_1 (encode info.value)) }

torrent1-fits : length torrent1 ≤ max_torrent_size
unfolding encode_entries encode
torrent1-fits = omega arith

resolve_cache_key-torrent_example :
    (link : Text) × (torrent_to_magnet sha1_1 escape1 torrent1 ≡ ok link)
    × (resolve_cache_key parse_url1 fetch1 sha1_1 sha256_1 link ≡ ok key_of_torrent1)
    × (resolve_cache_key parse_url1 fetch1 sha1_1 sha256_1 web1 ≡ ok key_of_torrent1)
unfolding has_prefix
resolve_cache_key-torrent_example =
    resolve_cache_key-torrent parse_url1 fetch1 sha1_1 sha256_1 escape1 (announce ∷ []) info [] []
      web1 sha1_1-IsSha1 parse_url1-ReadsLinks (announce-IsEntry, tt) info-IsEntry tt
      (announce-other, tt) tt refl torrent1-fits refl refl
