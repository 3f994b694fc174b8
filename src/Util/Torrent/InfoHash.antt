-- ===== src/Util/Torrent/InfoHash.antt =====
-- The info hash of a well-formed torrent file, and of a file whose lengths overflow.
use mathlib.Core.List.{append_assoc}
use opendebrid.Prelude.{
  number_from, is_digit, ℕ, zero, suc, ◌+◌, ◌-◌, ◌≤◌, ◌<◌, ◌≡◌, ◌≢◌, refl, ◌∙◌, true, false, List,
  [], ◌∷◌, ◌++◌, Text, codes, eq_text, eq_text_iff, All, length, length-append, drop-append,
  take-append, arith, ◌==◌, if◌then◌else◌, Bool-cases, inl, inr,
}
use opendebrid.Util.Bencode.{
  ok, panic, out_of_fuel, int_mod, int_min, byte_at, bdecode_string, bdecode_skip,
}
use opendebrid.Util.Bencode.Bounds.{
  bdecode_string-IsAhead, bdecode_skip-IsAhead, bdecode_skip-ends, bdecode_string-ne-out_of_fuel,
  bind-fuel,
}
use opendebrid.Util.Bencode.Values.{
  Value, str, encode, IsWell, IsLengthOf, digit-start, bdecode_string-encode,
  bdecode_string-overflow,
}
use opendebrid.Util.Bencode.Skips.{start_behind, length-encode-pos, bdecode_skip-encode}
use opendebrid.Util.Torrent.{to_hex, slice, at_end, find_info, torrent_info_hash}

-- A key of the outer dictionary, with the digits of its length, and its value.
pub record Entry : Type 0 where
  pub digits : Text
  pub key : Text
  pub value : Value

abbrev pub IsEntry : Entry → Type 0
IsEntry e = IsLengthOf e.digits e.key × IsWell e.value

unfoldable pub encode_entries : List Entry → Text → Text
encode_entries [] rest = rest
encode_entries (e ∷ es) rest =
    encode (str e.digits e.key) ++ (encode e.value ++ encode_entries es rest)

-- A cut of the value that stands behind `pre` and a key.
pub slice_behind :
    (front s rest : Text)
    → slice (front ++ (s ++ rest)) (length front) (length front + length s) ≡ s
slice_behind front s rest =
    let e : (length front + length s) - length front ≡ length s = omega arith in
    rw (e, drop-append front (s ++ rest)) (take-append s rest)

at_end-false :
    (text : Text) (pos : ℕ)
    → pos < length text
    → (byte_at text pos == b'e') ≡ false
    → at_end text pos ≡ false
at_end-false text pos inside item = ground arith

pub length-encode_entries :
    (es : List Entry) (rest : Text) → All IsEntry es → length es ≤ length (encode_entries es rest)
unfolding encode_entries
length-encode_entries [] rest ws = omega arith
length-encode_entries (e ∷ es) rest (w, ws) = omega (
  arith,
  length-append (encode (str e.digits e.key)) (encode e.value ++ encode_entries es rest),
  length-append (encode e.value) (encode_entries es rest),
  length-encode_entries es rest ws,
  length-encode-pos e.value w.1,
)

module _ (sha1 : Text → List ℕ) where
  find_info-next :
      (f : ℕ) (text : Text) (pos : ℕ) (key : Text) (start stop : ℕ)
      → at_end text pos ≡ false
      → bdecode_string text pos ≡ ok (key, start)
      → bdecode_skip (suc (length text)) text start ≡ ok stop
      → find_info sha1 (suc f) text pos ≡ (
          if eq_text key (codes "info")
          then ok (to_hex (sha1 (slice text start stop)))
          else find_info sha1 f text stop)
  unfolding find_info
  find_info-next f text pos key start stop more k v = rw more (rw k (rw v))

  -- One round of the loop, at a key that stands behind `pre`.
  find_info-entry :
      (f : ℕ) (pre more : Text) (e : Entry)
      → IsEntry e
      → (let key = encode (str e.digits e.key) in
          let text = pre ++ (key ++ (encode e.value ++ more)) in
          length text < int_min
          → find_info sha1 (suc f) text (length pre) ≡ (
              if eq_text e.key (codes "info")
              then ok (to_hex (sha1 (encode e.value)))
              else find_info sha1 f text (length pre + length key + length (encode e.value))))
  find_info-entry f pre more e w small =
      let key = encode (str e.digits e.key) in
      let tail = encode e.value ++ more in
      let front = pre ++ key in
      let text = pre ++ (key ++ tail) in
      let regroup : front ++ tail ≡ text = append_assoc pre key tail in
      let size : length front ≡ length pre + length key = length-append pre key in
      let (inside, item, longer) = start_behind pre (str e.digits e.key) tail w.0 in
      let read = bdecode_string-encode pre e.digits e.key tail w.0 small in
      let room : length (encode e.value) ≤ suc (length text) = omega (
        arith,
        length-append pre (key ++ tail),
        length-append key tail,
        length-append (encode e.value) more,
      ) in
      let skipped =
        bdecode_skip-encode e.value (suc (length text)) front more w.1 room (rw regroup small) in
      let skipped' = rw regroup at skipped in
      let cut = rw regroup at (slice_behind front (encode e.value) more) in
      find_info-next f text (length pre) e.key (length pre + length key)
        (length pre + length key + length (encode e.value))
        (at_end-false text (length pre) inside item) read (rw size at skipped')
      ∙ rw (← size) (rw cut)

  -- The entries in front of the `info` key are skipped.
  find_info-encode :
      (es : List Entry) (info : Entry) (f : ℕ) (pre more : Text)
      → All IsEntry es
      → IsEntry info
      → All (λ e. eq_text e.key (codes "info") ≡ false) es
      → info.key ≡ codes "info"
      → length es < f
      → length (pre ++ encode_entries es (encode_entries (info ∷ []) more)) < int_min
      → find_info sha1 f (pre ++ encode_entries es (encode_entries (info ∷ []) more)) (length pre)
        ≡ ok (to_hex (sha1 (encode info.value)))
  unfolding encode_entries
  find_info-encode es info zero pre more ws w others is_info lt small = absurd (omega arith)
  find_info-encode [] info (suc f) pre more ws w others is_info lt small =
      find_info-entry f pre more info w small
      ∙ rw (is_info, (eq_text_iff (codes "info") (codes "info")).1 refl)
  find_info-encode (e ∷ es) info (suc f) pre more (w1, ws) w (other, others) is_info lt small =
      let key = encode (str e.digits e.key) in
      let value = encode e.value in
      let tail = encode_entries es (encode_entries (info ∷ []) more) in
      let front = (pre ++ key) ++ value in
      let regroup : front ++ tail ≡ pre ++ (key ++ (value ++ tail)) = simp append_assoc in
      let size : length front ≡ length pre + length key + length value =
        omega (arith, length-append (pre ++ key) value, length-append pre key) in
      let rest =
        find_info-encode es info f front more ws w others is_info (omega arith)
          (rw regroup small) in
      find_info-entry f pre tail e w1 small ∙ rw other (rw (← size, ← regroup) rest)

  -- The loop ends: each key and value carries it ahead.
  find_info-ends :
      (f : ℕ) (text : Text) (pos : ℕ)
      → length text - pos < f
      → find_info sha1 f text pos ≢ out_of_fuel
  unfolding find_info
  find_info-ends zero text pos lt h = absurd (omega arith)
  find_info-ends (suc f) text pos lt h = elim (Bool-cases (at_end text pos)) [
    | inl end ↦ cc (end, h)
    | inr more ↦ elim (bind-fuel (bdecode_string text pos) _ (rw more at h)) [
      | inl e ↦ bdecode_string-ne-out_of_fuel text pos e
      | inr ((key, start), p, q) ↦
          elim (bind-fuel (bdecode_skip (suc (length text)) text start) _ q) [
            | inl e ↦ bdecode_skip-ends (suc (length text)) text start (omega arith) e
            | inr (next, r, s) ↦
                let ahead = bdecode_string-IsAhead text pos key start p in
                let ahead' = bdecode_skip-IsAhead (suc (length text)) text start next r in
                ground (arith, find_info-ends f text next, s)
          ]
    ]
  ]

  -- Whatever the bytes, computing the info hash ends: with a hash, an error or a panic.
  pub torrent_info_hash-ends : (text : Text) → torrent_info_hash sha1 text ≢ out_of_fuel
  unfolding torrent_info_hash
  torrent_info_hash-ends text h = ground (arith, find_info-ends (suc (length text)) text 1)

  -- The info hash of a well-formed torrent file below 2^63 bytes is the SHA-1 of the bytes of the value
  -- of its first `info` key, whatever stands before and behind it.
  pub torrent_info_hash-encode :
      (es : List Entry) (info : Entry) (more : Text)
      → All IsEntry es
      → IsEntry info
      → All (λ e. eq_text e.key (codes "info") ≡ false) es
      → info.key ≡ codes "info"
      → length (b'd' ∷ encode_entries es (encode_entries (info ∷ []) more)) < int_min
      → torrent_info_hash sha1 (b'd' ∷ encode_entries es (encode_entries (info ∷ []) more))
        ≡ ok (to_hex (sha1 (encode info.value)))
  unfolding torrent_info_hash
  torrent_info_hash-encode es info more ws w others is_info small =
      find_info-encode es info
        (suc (length (b'd' ∷ encode_entries es (encode_entries (info ∷ []) more)))) (b'd' ∷ []) more
        ws w others is_info
        (omega (arith, length-encode_entries es (encode_entries (info ∷ []) more) ws)) small

  -- A torrent file whose first key claims a length from 2^63 on, short of wrapping past 2^64, is not
  -- refused: the slice expression panics.
  pub torrent_info_hash-overflow :
      (ds rest : Text)
      → All (λ d. is_digit d ≡ true) ds
      → int_min ≤ number_from 0 ds
      → number_from 0 ds + length ds + 2 < int_mod
      → torrent_info_hash sha1 (b'd' ∷ (ds ++ b':' ∷ rest)) ≡ panic
  unfolding torrent_info_hash find_info
  torrent_info_hash-overflow [] rest digits large room = absurd (omega arith)
  torrent_info_hash-overflow (d ∷ ds) rest digits large room =
      let text = b'd' ∷ d ∷ (ds ++ b':' ∷ rest) in
      let read = bdecode_string-overflow (b'd' ∷ []) (d ∷ ds) rest digits large (omega arith) in
      rw (at_end-false text 1 (omega arith) (digit-start d digits.0)) (rw read)
