-- ===== src/Engine/Aria2/Keys/Shared.antt =====
-- One torrent has one cache key, whichever way it comes.
use opendebrid.Prelude.{
  ℕ, ◌≤◌, ◌<◌, ◌≡◌, refl, sym, ap, ◌∙◌, true, false, ◌||◌, Option, some, List, [], ◌∷◌, ◌++◌, Text,
  codes, is_empty, has_prefix, has_prefix-append, trim_prefix-append, All, length, take-le, arith,
}
use opendebrid.Engine.Aria2.Keys.{to_lower, max_torrent_size, hash_in, by_magnet, resolve_cache_key}
use opendebrid.Service.Env.{Url}
use opendebrid.Service.Keys.{CacheKey, hash, to_hex-all_hex}
use opendebrid.Util.Bencode.{Parsed, ok, int_min}
use opendebrid.Util.Bencode.Values.{encode}
use opendebrid.Util.Magnet.{Parts, magnet_link, torrent_to_magnet}
use opendebrid.Util.Magnet.Linked.{OtherKeys, torrent_file, torrent_to_magnet-encode}
use opendebrid.Util.StorageDir.{all_hex}
use opendebrid.Util.Torrent.{to_hex, torrent_info_hash}
use opendebrid.Util.Torrent.InfoHash.{Entry, IsEntry, encode_entries, torrent_info_hash-encode}

-- What SHA-1 returns: 20 bytes.
abbrev pub IsSha1 : (Text → List ℕ) → Type 0
IsSha1 sha1 = (s : Text) → (length (sha1 s) ≡ 20) × All (λ b. b < 256) (sha1 s)

-- The parser of URLs finds the hash in a magnet link of hexadecimal digits, with a name and a tracker that
-- were escaped for a query.
abbrev pub ReadsLinks : (Text → Option Url) → (Text → List ℕ) → (Text → Text) → Type 0
ReadsLinks parse_url sha1 escape =
    (p : Parts)
    → all_hex p.info_hash ≡ true
    → (u : Url) × (parse_url (magnet_link sha1 escape p) ≡ some u)
      × (u.query (codes "xt") ≡ codes "urn:btih:" ++ p.info_hash)

to_lower-hex : (s : Text) → all_hex s ≡ true → to_lower s ≡ s
unfolding to_lower all_hex
to_lower-hex [] h = refl
to_lower-hex (c ∷ s) h = ground (arith, to_lower-hex s)

hash_in-btih : (h : Text) → all_hex h ≡ true → hash_in (codes "urn:btih:" ++ h) ≡ some h
hash_in-btih h hex =
    rw (has_prefix-append (codes "urn:btih:") h)
      (rw (trim_prefix-append (codes "urn:btih:") h) (rw (to_lower-hex h hex) refl))

to_hex-full : (bytes : List ℕ) → length bytes ≡ 20 → is_empty (to_hex bytes) ≡ false
unfolding to_hex is_empty
to_hex-full [] h = absurd (omega arith)
to_hex-full (b ∷ bs) h = refl

to_hex-sha1 :
    (bytes : List ℕ) → length bytes ≡ 20 → All (λ b. b < 256) bytes → all_hex (to_hex bytes) ≡ true
to_hex-sha1 bytes h in_range =
    ap (λ t. all_hex (to_hex t)) (sym (take-le 20 bytes (omega arith)))
    ∙ to_hex-all_hex 20 bytes in_range

-- The address of a server.
abbrev pub IsWeb : Text → Type 0
IsWeb raw = (has_prefix raw (codes "http://") || has_prefix raw (codes "https://")) ≡ true

IsWeb-not_magnet : (raw : Text) → IsWeb raw → has_prefix raw (codes "magnet:") ≡ false
unfolding has_prefix
IsWeb-not_magnet [] h = refl
IsWeb-not_magnet (c ∷ s) h = ground arith

module _ (parse_url : Text → Option Url) (fetch : Text → Option Text) (sha1 sha256 : Text → List ℕ)
    (escape : Text → Text) where
  magnet_link-prefix : (p : Parts) → has_prefix (magnet_link sha1 escape p) (codes "magnet:") ≡ true
  unfolding has_prefix
  magnet_link-prefix p = refl

  resolve-magnet :
      (p : Parts)
      → ReadsLinks parse_url sha1 escape
      → all_hex p.info_hash ≡ true
      → resolve_cache_key parse_url fetch sha1 sha256 (magnet_link sha1 escape p)
        ≡ ok (record { type = hash; value = p.info_hash })
  unfolding resolve_cache_key
  resolve-magnet p reads hex =
      let (u, parsed, xt) = reads p hex in
      rw (magnet_link-prefix p) (
        rw parsed (
          ap (λ o. by_magnet parse_url fetch sha1 sha256 (magnet_link sha1 escape p) o)
            (ap hash_in xt ∙ hash_in-btih p.info_hash hex)))

  resolve-web :
      (raw body h : Text)
      → IsWeb raw
      → fetch raw ≡ some body
      → length body ≤ max_torrent_size
      → torrent_info_hash sha1 body ≡ ok h
      → resolve_cache_key parse_url fetch sha1 sha256 raw ≡ ok (record { type = hash; value = h })
  unfolding resolve_cache_key
  resolve-web raw body h web answered short hashed =
      rw (IsWeb-not_magnet raw web)
        (rw web (rw answered (rw (take-le max_torrent_size body short) (rw hashed refl))))

  -- A torrent file of at most 10 MB, well-formed and with one `info` key, that is uploaded becomes a magnet
  -- link; the link and the address of a server that answers with the file have the same cache key: the
  -- SHA-1 of the bytes of the value of `info`.
  pub resolve_cache_key-torrent :
      (es : List Entry) (info : Entry) (later : List Entry) (rest raw : Text)
      → IsSha1 sha1
      → ReadsLinks parse_url sha1 escape
      → All IsEntry es
      → IsEntry info
      → All IsEntry later
      → OtherKeys sha1 es
      → OtherKeys sha1 later
      → info.key ≡ codes "info"
      → length (torrent_file sha1 es info later rest) ≤ max_torrent_size
      → IsWeb raw
      → fetch raw ≡ some (torrent_file sha1 es info later rest)
      → (let key : CacheKey = record { type = hash; value = to_hex (sha1 (encode info.value)) } in
          (link : Text) × (torrent_to_magnet sha1 escape (torrent_file sha1 es info later rest)
            ≡ ok link)
          × (resolve_cache_key parse_url fetch sha1 sha256 link ≡ ok key)
          × (resolve_cache_key parse_url fetch sha1 sha256 raw ≡ ok key))
  resolve_cache_key-torrent es info later rest raw digest reads ws wi wl o ol key short web
        answered =
      let (twenty, in_range) = digest (encode info.value) in
      let small : length (torrent_file sha1 es info later rest) < int_min = omega arith in
      let (p, linked, is_hash) =
        torrent_to_magnet-encode sha1 escape es info later rest ws wi wl o ol key
          (to_hex-full (sha1 (encode info.value)) twenty) small in
      let hex : all_hex p.info_hash ≡ true =
        rw is_hash (to_hex-sha1 (sha1 (encode info.value)) twenty in_range) in
      let keyed : Text → Parsed CacheKey = λ h. ok (record { type = hash; value = h }) in
      let hashed =
        torrent_info_hash-encode sha1 es info (encode_entries later (b'e' ∷ rest)) ws wi o key
          small in
      (
        magnet_link sha1 escape p,
        linked,
        resolve-magnet p reads hex ∙ ap keyed is_hash,
        resolve-web raw (torrent_file sha1 es info later rest) (to_hex (sha1 (encode info.value)))
            web answered short hashed,
      )
