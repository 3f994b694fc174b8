-- ===== src/Util/Magnet/Linked.antt =====
-- The magnet link of a well-formed torrent file.
use mathlib.Core.List.{append_assoc}
use opendebrid.Prelude.{
  ℕ, zero, suc, ◌+◌, ◌≤◌, ◌<◌, ◌≡◌, refl, ap, ◌∙◌, subst, false, List, [], ◌∷◌, ◌++◌, Text, codes,
  eq_text, eq_text_refl, is_empty, All, length, length-append, arith, Bool-cases, inl, inr,
  if◌then◌else◌,
}
use opendebrid.Util.Bencode.{ok, int_min, bdecode_string, bdecode_skip}
use opendebrid.Util.Bencode.Values.{str, encode, IsWell, bdecode_string-encode}
use opendebrid.Util.Bencode.Skips.{bdecode_skip-encode}
use opendebrid.Util.Magnet.{
  Parts, no_parts, take_part, read_parts, magnet_link, linked, torrent_to_magnet,
}
use opendebrid.Util.Magnet.Names.{
  at_end-item, at_end-last, extract_info_name-encode, string_at-encode,
}
use opendebrid.Util.Torrent.{to_hex, at_end}
use opendebrid.Util.Torrent.InfoHash.{
  Entry, IsEntry, encode_entries, slice_behind, length-encode_entries,
}

module _ (sha1 : Text → List ℕ) where
  -- The info hash behind some entries: that of the last `info` among them.
  abbrev hash_after : List Entry → Text → Text
  hash_after [] h = h
  hash_after (e ∷ es) h =
      hash_after es (if eq_text e.key (codes "info") then to_hex (sha1 (encode e.value)) else h)

  -- The value of an entry, between `front` and `more`, is taken without a panic.
  take_part-encode :
      (front more : Text) (e : Entry) (p : Parts)
      → IsWell e.value
      → length (front ++ (encode e.value ++ more)) < int_min
      → (p' : Parts) × (take_part sha1
            (front ++ (encode e.value ++ more))
            e.key
            (length front)
            (length front + length (encode e.value))
            p
          ≡ ok p')
        × (p'.info_hash ≡ (
            if eq_text e.key (codes "info") then to_hex (sha1 (encode e.value)) else p.info_hash))
  unfolding take_part
  take_part-encode front more e p w small = elim (Bool-cases (eq_text e.key (codes "info"))) [
    | inl info ↦
        let short : length (encode e.value) < int_min = omega (
          arith,
          length-append front (encode e.value ++ more),
          length-append (encode e.value) more,
        ) in
        let (name, named) = extract_info_name-encode e.value w short in
        (
          record p { info_hash = to_hex (sha1 (encode e.value)); name = name },
          rw info (rw (slice_behind front (encode e.value) more) (rw named refl)),
          rw info refl,
        )
    | inr differs ↦ elim (Bool-cases (eq_text e.key (codes "announce"))) [
      | inl here ↦
          let (s, read) = string_at-encode front e.value more w small in
          (record p { announce = s }, rw differs (rw here (rw read refl)), rw differs refl)
      | inr other ↦ (p, rw differs (rw other refl), rw differs refl)
    ]
  ]

  read_parts-next :
      (f : ℕ) (text : Text) (pos start next : ℕ) (key : Text) (p p' : Parts)
      → at_end text pos ≡ false
      → bdecode_string text pos ≡ ok (key, start)
      → bdecode_skip (suc (length text)) text start ≡ ok next
      → take_part sha1 text key start next p ≡ ok p'
      → read_parts sha1 (suc f) text pos p ≡ read_parts sha1 f text next p'
  unfolding read_parts
  read_parts-next f text pos start next key p p' more k v t = rw more (rw k (rw v (rw t refl)))

  -- All entries are read, up to the end of the dictionary.
  read_parts-encode :
      (es : List Entry) (f : ℕ) (pre rest : Text) (p : Parts)
      → All IsEntry es
      → length es < f
      → length (pre ++ encode_entries es (b'e' ∷ rest)) < int_min
      → (p' : Parts) × (read_parts sha1 f (pre ++ encode_entries es (b'e' ∷ rest)) (length pre) p
          ≡ ok p')
        × (p'.info_hash ≡ hash_after es p.info_hash)
  unfolding encode_entries
  read_parts-encode es zero pre rest p ws lt small = absurd (omega arith)
  read_parts-encode [] (suc f) pre rest p ws lt small =
      (p, unfold read_parts in rw (at_end-last pre rest) refl, refl)
  read_parts-encode (e ∷ es) (suc f) pre rest p (w, ws) lt small =
      let key = encode (str e.digits e.key) in
      let value = encode e.value in
      let more = encode_entries es (b'e' ∷ rest) in
      let text = pre ++ (key ++ (value ++ more)) in
      let front = pre ++ key in
      let deep = front ++ value in
      let regroup : front ++ (value ++ more) ≡ text = append_assoc pre key (value ++ more) in
      let deeper : deep ++ more ≡ front ++ (value ++ more) = append_assoc front value more in
      let size : length front ≡ length pre + length key = length-append pre key in
      let total : length deep ≡ length front + length value = length-append front value in
      let room : length value ≤ suc (length text) = omega (
        arith,
        length-append pre (key ++ (value ++ more)),
        length-append key (value ++ more),
        length-append value more,
      ) in
      let read = bdecode_string-encode pre e.digits e.key (value ++ more) w.0 small in
      let skipped =
        bdecode_skip-encode e.value (suc (length text)) front more w.1 room (rw regroup small) in
      let (p1, taken, hash1) = take_part-encode front more e p w.1 (rw regroup small) in
      let (p2, rest_read, hash2) =
        read_parts-encode es f deep rest p1 ws (omega arith) (rw (deeper, regroup) small) in
      (
        p2,
        read_parts-next f text (length pre) (length front) (length front + length value) e.key p p1
              (at_end-item pre (str e.digits e.key) (value ++ more) w.0) (rw size read)
              (rw regroup at skipped) (rw regroup at taken)
            ∙ rw (deeper, regroup, total) at rest_read,
        hash2 ∙ ap (λ h. hash_after es h) hash1,
      )

  -- The entries of a torrent file with one `info` key.
  abbrev pub OtherKeys : List Entry → Type 0
  OtherKeys es = All (λ e. eq_text e.key (codes "info") ≡ false) es

  hash_after-others : (es : List Entry) (h : Text) → OtherKeys es → hash_after es h ≡ h
  hash_after-others [] h o = refl
  hash_after-others (e ∷ es) h o = rw o.0 (hash_after-others es h o.1)

  hash_after-one :
      (es : List Entry) (info : Entry) (later : List Entry) (h : Text)
      → OtherKeys es
      → OtherKeys later
      → info.key ≡ codes "info"
      → hash_after (es ++ info ∷ later) h ≡ to_hex (sha1 (encode info.value))
  hash_after-one [] info later h o o' key =
      rw key (rw (eq_text_refl (codes "info")) (hash_after-others later _ o'))
  hash_after-one (e ∷ es) info later h o o' key = hash_after-one es info later _ o.1 o' key

  encode_entries-append :
      (es es' : List Entry) (rest : Text)
      → encode_entries (es ++ es') rest ≡ encode_entries es (encode_entries es' rest)
  unfolding encode_entries
  encode_entries-append [] es' rest = refl
  encode_entries-append (e ∷ es) es' rest =
      ap (λ t. encode (str e.digits e.key) ++ (encode e.value ++ t))
        (encode_entries-append es es' rest)

  All-IsEntry : (es es' : List Entry) → All IsEntry es → All IsEntry es' → All IsEntry (es ++ es')
  All-IsEntry [] es' h k = k
  All-IsEntry (e ∷ es) es' h k = (h.0, All-IsEntry es es' h.1 k)

  -- The file: the entries, the end of the dictionary, and what stands behind it.
  abbrev pub torrent_file : List Entry → Entry → List Entry → Text → Text
  torrent_file es info later rest =
      b'd' ∷ encode_entries es (encode_entries (info ∷ []) (encode_entries later (b'e' ∷ rest)))

  module _ (escape : Text → Text) where
    torrent_to_magnet-linked :
        (es : List Entry) (rest : Text)
        → All IsEntry es
        → length (b'd' ∷ encode_entries es (b'e' ∷ rest)) < int_min
        → (p : Parts) × (torrent_to_magnet sha1 escape (b'd' ∷ encode_entries es (b'e' ∷ rest))
            ≡ linked sha1 escape p)
          × (p.info_hash ≡ hash_after es [])
    unfolding torrent_to_magnet
    torrent_to_magnet-linked es rest ws small =
        let (p, read, hash) =
          read_parts-encode es (suc (length (b'd' ∷ encode_entries es (b'e' ∷ rest)))) (b'd' ∷ [])
            rest no_parts ws (omega (arith, length-encode_entries es (b'e' ∷ rest) ws)) small in
        (p, rw read refl, hash)

    -- The magnet link of a well-formed torrent file below 2^63 bytes with one `info` key: its hash is the
    -- SHA-1 of the bytes of that key's value.
    pub torrent_to_magnet-encode :
        (es : List Entry) (info : Entry) (later : List Entry) (rest : Text)
        → All IsEntry es
        → IsEntry info
        → All IsEntry later
        → OtherKeys es
        → OtherKeys later
        → info.key ≡ codes "info"
        → is_empty (to_hex (sha1 (encode info.value))) ≡ false
        → length (torrent_file es info later rest) < int_min
        → (p : Parts) × (torrent_to_magnet sha1 escape (torrent_file es info later rest)
            ≡ ok (magnet_link sha1 escape p))
          × (p.info_hash ≡ to_hex (sha1 (encode info.value)))
    unfolding encode_entries
    torrent_to_magnet-encode es info later rest ws wi wl o ol key full small =
        let all = es ++ info ∷ later in
        let whole : encode_entries all (b'e' ∷ rest)
            ≡ encode_entries es (encode_entries (info ∷ []) (encode_entries later (b'e' ∷ rest))) =
          encode_entries-append es (info ∷ later) (b'e' ∷ rest) in
        let wa = All-IsEntry es (info ∷ later) ws (wi, wl) in
        let (p, e, hash) = torrent_to_magnet-linked all rest wa (rw whole small) in
        let is_hash : p.info_hash ≡ to_hex (sha1 (encode info.value)) =
          hash ∙ hash_after-one es info later [] o ol key in
        let found : is_empty p.info_hash ≡ false = rw is_hash full in
        (
          p,
          subst (λ t. torrent_to_magnet sha1 escape (b'd' ∷ t) ≡ ok (magnet_link sha1 escape p))
              whole (rw e (rw found refl)),
          is_hash,
        )
