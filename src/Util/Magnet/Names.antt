-- ===== src/Util/Magnet/Names.antt =====
-- The texts that are read out of well-formed values.
use mathlib.Core.List.{append_assoc}
use opendebrid.Prelude.{
  ℕ, zero, suc, ◌+◌, ◌≤◌, ◌<◌, ◌≡◌, ◌⊎◌, refl, true, false, [], ◌∷◌, ◌++◌, Text, codes, eq_text,
  length, length-append, drop-append, is_digit, ◌==◌, arith, Bool-cases, inl, inr,
}
use opendebrid.Util.Bencode.{Parsed, ok, invalid, ◌>>=◌, int_min, bdecode_string, bdecode_skip}
use opendebrid.Util.Bencode.Values.{
  Value, Items, int, str, list, dict, nil, cons, encode, encode_items, IsWell, AreWell,
  bdecode_string-encode, byte_at-append,
}
use opendebrid.Util.Bencode.Skips.{start_behind, length-encode-pos, bdecode_skip-encode}
use opendebrid.Util.Magnet.{or_empty, string_at, name_from, extract_info_name}
use opendebrid.Util.Torrent.{at_end}

-- A text whose first byte is neither a digit nor the colon is no string.
bdecode_string-invalid :
    (pre : Text) (c : ℕ) (s : Text)
    → (c == b':') ≡ false
    → is_digit c ≡ false
    → bdecode_string (pre ++ c ∷ s) (length pre) ≡ invalid
unfolding bdecode_string
bdecode_string-invalid pre c s colon digit = rw (drop-append pre (c ∷ s)) (rw (colon, digit) refl)

-- A result that is a value or an error, and no panic.
abbrev pub IsSafe {ℓ} : {A : Type ℓ} → Parsed A → Type ℓ
IsSafe {A = A} r = (r ≡ invalid) ⊎ ((a : A) × (r ≡ ok a))

-- What stands behind `pre`: a string, or what is no string.
abbrev IsRead : Text → Value → Text → Type 0
IsRead pre v rest =
    let r = bdecode_string (pre ++ (encode v ++ rest)) (length pre) in
    (r ≡ invalid) ⊎ ((s : Text) × (r ≡ ok (s, length pre + length (encode v))))

bdecode_string-cases :
    (pre : Text) (v : Value) (rest : Text)
    → IsWell v
    → length (pre ++ (encode v ++ rest)) < int_min
    → IsRead pre v rest
unfolding encode
bdecode_string-cases pre (int ds) rest w small =
    inl (bdecode_string-invalid pre b'i' ((ds ++ b'e' ∷ []) ++ rest) refl refl)
bdecode_string-cases pre (list xs) rest w small =
    inl (bdecode_string-invalid pre b'l' ((encode_items xs ++ b'e' ∷ []) ++ rest) refl refl)
bdecode_string-cases pre (dict xs) rest w small =
    inl (bdecode_string-invalid pre b'd' ((encode_items xs ++ b'e' ∷ []) ++ rest) refl refl)
bdecode_string-cases pre (str ds s) rest w small =
    inr (s, bdecode_string-encode pre ds s rest w small)

-- The bytes at the end of a dictionary are no value.
bdecode_skip-end :
    (f : ℕ) (pre rest : Text) → bdecode_skip (suc f) (pre ++ b'e' ∷ rest) (length pre) ≡ invalid
unfolding bdecode_skip
bdecode_skip-end f pre rest = rw (byte_at-append pre b'e' rest) (
    rw (bdecode_string-invalid pre b'e' rest refl refl)
      (ground (arith, length-append pre (b'e' ∷ rest))))

pub at_end-item :
    (pre : Text) (v : Value) (more : Text)
    → IsWell v
    → at_end (pre ++ (encode v ++ more)) (length pre) ≡ false
at_end-item pre v more w =
    let (inside, item, longer) = start_behind pre v more w in ground (arith, inside, item)

pub at_end-last : (pre rest : Text) → at_end (pre ++ b'e' ∷ rest) (length pre) ≡ true
at_end-last pre rest = rw (byte_at-append pre b'e' rest) (ground arith)

-- What is read behind a key: a value, or the end.
string_behind-IsSafe :
    (pre : Text) (xs : Items) (rest : Text)
    → AreWell xs
    → length (pre ++ (encode_items xs ++ b'e' ∷ rest)) < int_min
    → IsSafe (bdecode_string (pre ++ (encode_items xs ++ b'e' ∷ rest)) (length pre) >>= λ r. ok r.0)
unfolding encode_items
string_behind-IsSafe pre nil rest w small =
    inl (rw (bdecode_string-invalid pre b'e' rest refl refl) refl)
string_behind-IsSafe pre (cons v xs) rest w small =
    let more = encode_items xs ++ b'e' ∷ rest in
    let regroup : (encode v ++ encode_items xs) ++ b'e' ∷ rest ≡ encode v ++ more =
      append_assoc (encode v) (encode_items xs) (b'e' ∷ rest) in
    rw regroup (elim (bdecode_string-cases pre v more w.0 (rw regroup at small)) [
      | inl e ↦ inl (rw e refl)
      | inr (s, e) ↦ inr (s, rw e refl)
    ])

name_from-key :
    (f : ℕ) (text : Text) (pos start : ℕ) (key : Text)
    → at_end text pos ≡ false
    → bdecode_string text pos ≡ ok (key, start)
    → IsSafe (bdecode_string text start >>= λ r. ok r.0)
    → IsSafe (bdecode_skip (suc (length text)) text start >>= λ next. name_from f text next)
    → IsSafe (name_from (suc f) text pos)
unfolding name_from
name_from-key f text pos start key more read named skipped =
    elim (Bool-cases (eq_text key (codes "name"))) [
      | inl e ↦ rw more (rw read (rw e named))
      | inr e ↦ rw more (rw read (rw e skipped))
    ]

-- The first of some items, where the loop does well behind the one after it.
name_from-cons :
    (f : ℕ) (pre : Text) (k : Value) (ys : Items) (rest : Text)
    → IsWell k
    → AreWell ys
    → (let tail = encode_items ys ++ b'e' ∷ rest in
        length (pre ++ (encode k ++ tail)) < int_min
        → (let front = pre ++ encode k in
            IsSafe (
              bdecode_skip (suc (length (front ++ tail))) (front ++ tail) (length front) >>= λ next.
              name_from f (front ++ tail) next))
        → IsSafe (name_from (suc f) (pre ++ (encode k ++ tail)) (length pre)))
unfolding name_from
name_from-cons f pre k ys rest wk wys small skipped =
    let tail = encode_items ys ++ b'e' ∷ rest in
    let front = pre ++ encode k in
    let regroup : front ++ tail ≡ pre ++ (encode k ++ tail) = append_assoc pre (encode k) tail in
    let size : length front ≡ length pre + length (encode k) = length-append pre (encode k) in
    let named = rw (regroup, size) at (string_behind-IsSafe front ys rest wys (rw regroup small)) in
    elim (bdecode_string-cases pre k tail wk small) [
      | inl e ↦ inl (rw (at_end-item pre k tail wk) (rw e refl))
      | inr (key, e) ↦
          name_from-key f (pre ++ (encode k ++ tail)) (length pre) (length pre + length (encode k))
            key (at_end-item pre k tail wk) e named (rw (regroup, size) at skipped)
    ]

name_from-IsSafe :
    (xs : Items) (f : ℕ) (pre rest : Text)
    → AreWell xs
    → length (encode_items xs) < f
    → length (pre ++ (encode_items xs ++ b'e' ∷ rest)) < int_min
    → IsSafe (name_from f (pre ++ (encode_items xs ++ b'e' ∷ rest)) (length pre))
unfolding encode_items
name_from-IsSafe xs zero pre rest w lt small = absurd (omega arith)
name_from-IsSafe nil (suc f) pre rest w lt small =
    inr ([], unfold name_from in rw (at_end-last pre rest) refl)
name_from-IsSafe (cons k nil) (suc f) pre rest w lt small =
    let front = pre ++ encode k in
    rw (append_assoc (encode k) [] (b'e' ∷ rest)) (
      name_from-cons f pre k nil rest w.0 tt
        (rw (append_assoc (encode k) [] (b'e' ∷ rest)) at small)
        (inl (rw (bdecode_skip-end (length (front ++ b'e' ∷ rest)) front rest) refl)))
name_from-IsSafe (cons k (cons v xs)) (suc f) pre rest w lt small =
    let tail = encode_items xs ++ b'e' ∷ rest in
    let front = pre ++ encode k in
    let deep = front ++ encode v in
    let inner : (encode v ++ encode_items xs) ++ b'e' ∷ rest ≡ encode v ++ tail =
      append_assoc (encode v) (encode_items xs) (b'e' ∷ rest) in
    let outer = append_assoc (encode k) (encode v ++ encode_items xs) (b'e' ∷ rest) in
    let regroup : front ++ (encode v ++ tail) ≡ pre ++ (encode k ++ (encode v ++ tail)) =
      append_assoc pre (encode k) (encode v ++ tail) in
    let deeper : deep ++ tail ≡ front ++ (encode v ++ tail) = append_assoc front (encode v) tail in
    let size : length deep ≡ length front + length (encode v) = length-append front (encode v) in
    let small' : length (pre ++ (encode k ++ (encode v ++ tail))) < int_min =
      rw (outer, inner) at small in
    let shorter : length (encode_items xs) < f = omega (
      arith,
      length-append (encode k) (encode v ++ encode_items xs),
      length-append (encode v) (encode_items xs),
      length-encode-pos k w.0,
    ) in
    let room : length (encode v) ≤ suc (length (front ++ (encode v ++ tail))) =
      omega (arith, length-append front (encode v ++ tail), length-append (encode v) tail) in
    let rest_safe = name_from-IsSafe xs f deep rest w.1.1 shorter (rw (deeper, regroup) small') in
    let skipped =
      bdecode_skip-encode v (suc (length (front ++ (encode v ++ tail)))) front tail w.1.0 room
        (rw regroup small') in
    rw outer (
      name_from-cons f pre k (cons v xs) rest w.0 w.1 (rw outer at small)
        (rw inner (rw skipped (rw (deeper, size) at rest_safe))))

digit-not_dict : (d : ℕ) → is_digit d ≡ true → (d == b'd') ≡ false
digit-not_dict d h = ground arith

or_empty-IsSafe : (r : Parsed Text) → IsSafe r → (s : Text) × (or_empty r ≡ ok s)
or_empty-IsSafe r (inl e) = ([], rw e refl)
or_empty-IsSafe r (inr (s, e)) = (s, rw e refl)

-- Whatever a well-formed value of `info` holds, a name is read out of it.
pub extract_info_name-encode :
    (v : Value)
    → IsWell v
    → length (encode v) < int_min
    → (s : Text) × (extract_info_name (encode v) ≡ ok s)
unfolding extract_info_name encode
extract_info_name-encode (int ds) w small = ([], refl)
extract_info_name-encode (list xs) w small = ([], refl)
extract_info_name-encode (str [] s) w small = absurd (omega (arith, w.some_digit))
extract_info_name-encode (str (d ∷ ds) s) w small = ([], rw (digit-not_dict d w.digits.0) refl)
extract_info_name-encode (dict xs) w small =
    or_empty-IsSafe
      (name_from (suc (length (b'd' ∷ encode_items xs ++ b'e' ∷ [])))
        (b'd' ∷ encode_items xs ++ b'e' ∷ []) 1)
      (name_from-IsSafe xs (suc (length (b'd' ∷ encode_items xs ++ b'e' ∷ []))) (b'd' ∷ []) [] w
        (omega (arith, length-append (encode_items xs) (b'e' ∷ []))) small)

-- So is a text, where a well-formed value stands.
pub string_at-encode :
    (pre : Text) (v : Value) (rest : Text)
    → IsWell v
    → length (pre ++ (encode v ++ rest)) < int_min
    → (s : Text) × (string_at (pre ++ (encode v ++ rest)) (length pre) ≡ ok s)
string_at-encode pre v rest w small = elim (bdecode_string-cases pre v rest w small) [
  | inl e ↦ ([], rw e refl)
  | inr (s, e) ↦ (s, rw e refl)
]
