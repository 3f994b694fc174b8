-- ===== src/Util/Bencode/Values.antt =====
-- Well-formed bencode values, their encoding, and what the readers make of it.
use mathlib.Core.List.{append_assoc}
use opendebrid.Prelude.{
  is_digit, number_from, number_from-ge, ℕ, suc, ◌+◌, ◌-◌, ◌*◌, ◌%◌, ◌≤◌, ◌<◌, ◌≡◌, refl, ap, true,
  false, some, [], ◌∷◌, ◌++◌, Text, All, length, length-append, drop, drop-append, take,
  take-append, arith, ◌==◌,
}
use opendebrid.Util.Bencode.{
  ok, panic, int_mod, int_min, byte_at, scan_length, slice_string, read_string, bdecode_string,
}

-- A string carries the digits of its length: leading zeros are read too.
mutual
  pub data Value : Type 0 where
    int : Text → Value
    str : Text → Text → Value
    list : Items → Value
    dict : Items → Value

  pub data Items : Type 0 where
    nil : Items
    cons : Value → Items → Items

unfoldable mutual
  pub encode : Value → Text
  encode (int ds) = b'i' ∷ ds ++ b'e' ∷ []
  encode (str ds s) = ds ++ b':' ∷ s
  encode (list xs) = b'l' ∷ encode_items xs ++ b'e' ∷ []
  encode (dict xs) = b'd' ∷ encode_items xs ++ b'e' ∷ []

  pub encode_items : Items → Text
  encode_items nil = []
  encode_items (cons v xs) = encode v ++ encode_items xs

-- The digits stand for the length, and there is at least one of them.
pub record IsLengthOf (ds s : Text) : Type 0 where
  pub digits : All (λ d. is_digit d ≡ true) ds
  pub some_digit : 0 < length ds
  pub denotes : number_from 0 ds ≡ length s

abbrev mutual
  pub IsWell : Value → Type 0
  IsWell (int ds) = All (λ d. (d == b'e') ≡ false) ds
  IsWell (str ds s) = IsLengthOf ds s
  IsWell (list xs) = AreWell xs
  IsWell (dict xs) = AreWell xs

  pub AreWell : Items → Type 0
  AreWell nil = Unit
  AreWell (cons v xs) = IsWell v × AreWell xs

scan_length-digits :
    (ds s : Text) (at n : ℕ)
    → All (λ d. is_digit d ≡ true) ds
    → number_from n ds < int_mod
    → scan_length (ds ++ b':' ∷ s) at n ≡ some (at + length ds, number_from n ds)
unfolding scan_length
scan_length-digits [] s at n h lt = ground arith
scan_length-digits (d ∷ ds) s at n h lt = ground (
  arith,
  scan_length-digits ds s (suc at) (n * 10 + (d - b'0')) h.1,
  number_from-ge (n * 10 + (d - b'0')) ds,
)

pub byte_at-append : (pre : Text) (c : ℕ) (s : Text) → byte_at (pre ++ c ∷ s) (length pre) ≡ c
byte_at-append [] c s = refl
byte_at-append (x ∷ pre) c s = byte_at-append pre c s

-- A cut out of a text that stands behind `pre`.
cut_behind :
    (pre s rest : Text)
    → take ((length pre + length s) - length pre) (drop (length pre) (pre ++ (s ++ rest))) ≡ s
cut_behind pre s rest =
    let e : (length pre + length s) - length pre ≡ length s = omega arith in
    rw (e, drop-append pre (s ++ rest)) (take-append s rest)

slice_string-append :
    (pre s rest : Text)
    → length (pre ++ (s ++ rest)) < int_min
    → slice_string (pre ++ (s ++ rest)) (length pre) (length s) ≡ ok (s, length pre + length s)
unfolding slice_string
slice_string-append pre s rest lt =
    let all = length-append pre (s ++ rest) in
    let e : (length pre + length s) % int_mod ≡ length pre + length s =
      omega (arith, length-append s rest) in
    rw e (ground (arith, length-append s rest, cut_behind pre s rest))

length-digits :
    (pre ds s rest : Text)
    → length (pre ++ (ds ++ b':' ∷ (s ++ rest)))
      ≡ length pre + length ds + 1 + length s + length rest
length-digits pre ds s rest = omega (
  arith,
  length-append pre (ds ++ b':' ∷ (s ++ rest)),
  length-append ds (b':' ∷ (s ++ rest)),
  length-append s rest,
)

-- The same with the digits and the colon in front of the string.
read_behind :
    (pre ds s rest : Text)
    → IsLengthOf ds s
    → length (pre ++ (ds ++ b':' ∷ (s ++ rest))) < int_min
    → bdecode_string (pre ++ (ds ++ b':' ∷ (s ++ rest))) (length pre)
      ≡ ok (s, length pre + length ds + 1 + length s)
unfolding bdecode_string read_string
read_behind pre ds s rest w lt =
    let len = length-digits pre ds s rest in
    let front = pre ++ (ds ++ b':' ∷ []) in
    let regroup : front ++ (s ++ rest) ≡ pre ++ (ds ++ b':' ∷ (s ++ rest)) = simp append_assoc in
    let size : length front ≡ suc (length pre + length ds) =
      omega (arith, length-append pre (ds ++ b':' ∷ []), length-append ds (b':' ∷ [])) in
    let cut = slice_string-append front s rest (rw regroup lt) in
    let scanned =
      scan_length-digits ds (s ++ rest) (length pre) 0 w.digits (omega (arith, w.denotes)) in
    rw (drop-append pre (ds ++ b':' ∷ (s ++ rest)), bdecode_string)
      (rw (scanned, bdecode_string)
        (rw (w.denotes, ← size, ← regroup, cut) (ap (λ n. ok (s, n)) (omega (arith, size)))))

-- Reading the string that stands at the end of `pre` gives its bytes and the position behind it.
pub bdecode_string-encode :
    (pre ds s rest : Text)
    → IsLengthOf ds s
    → length (pre ++ (encode (str ds s) ++ rest)) < int_min
    → bdecode_string (pre ++ (encode (str ds s) ++ rest)) (length pre)
      ≡ ok (s, length pre + length (encode (str ds s)))
unfolding encode
bdecode_string-encode pre ds s rest w lt =
    let regroup : (ds ++ b':' ∷ s) ++ rest ≡ ds ++ b':' ∷ (s ++ rest) =
      append_assoc ds (b':' ∷ s) rest in
    let size : length (ds ++ b':' ∷ s) ≡ length ds + 1 + length s =
      omega (arith, length-append ds (b':' ∷ s)) in
    rw regroup (
      rw (read_behind pre ds s rest w (rw (← regroup) lt))
        (ap (λ n. ok (s, n)) (omega (arith, size))))

pub digit-start : (d : ℕ) → is_digit d ≡ true → (d == b'e') ≡ false
digit-start d h = ground arith

-- A length from 2^63 on, that does not carry the end of the string past 2^64, makes the reader panic.
pub bdecode_string-overflow :
    (pre ds rest : Text)
    → All (λ d. is_digit d ≡ true) ds
    → int_min ≤ number_from 0 ds
    → suc (length pre + length ds) + number_from 0 ds < int_mod
    → bdecode_string (pre ++ (ds ++ b':' ∷ rest)) (length pre) ≡ panic
unfolding bdecode_string read_string slice_string
bdecode_string-overflow pre ds rest digits large room =
    let scanned = scan_length-digits ds rest (length pre) 0 digits (omega arith) in
    rw (drop-append pre (ds ++ b':' ∷ rest), bdecode_string)
      (rw (scanned, bdecode_string) (ground arith))
