-- ===== src/Util/Bencode/Skips.antt =====
-- `BdecodeSkip` on well-formed values.
use mathlib.Core.List.{append_assoc}
use opendebrid.Prelude.{
  is_digit, ℕ, zero, suc, ◌+◌, ◌≤◌, ◌<◌, ◌≡◌, refl, ap, true, false, ◌||◌, [], ◌∷◌, ◌++◌, Text, All,
  length, length-append, drop, arith, ◌==◌, if◌then◌else◌,
}
use opendebrid.Util.Bencode.{
  Parsed, ok, ◌>>=◌, int_min, byte_at, bdecode_string, skip_integer, skip_items, skip_value,
  bdecode_skip,
}
use opendebrid.Util.Bencode.Values.{
  Value, Items, int, str, list, dict, nil, cons, encode, encode_items, IsWell, AreWell, digit-start,
  byte_at-append, bdecode_string-encode,
}

-- The loop of an integer stops at the first `e`.
skip_integer-digits :
    (ds rest : Text) (at : ℕ)
    → All (λ d. (d == b'e') ≡ false) ds
    → skip_integer (ds ++ b'e' ∷ rest) at ≡ ok (at + length ds + 1)
unfolding skip_integer
skip_integer-digits [] rest at h = ap (λ n. ok n) (omega arith)
skip_integer-digits (d ∷ ds) rest at h =
    rw (h.0, skip_integer)
      (rw (skip_integer-digits ds rest (suc at) h.1) (ap (λ n. ok n) (omega arith)))

-- The first byte of an encoded value, and the bytes behind it.
abbrev IsStart : ℕ → Type 0
IsStart c = (c == b'e') ≡ false

encode-head : (v : Value) → IsWell v → (c : ℕ) × (s : Text) × (encode v ≡ c ∷ s) × IsStart c
unfolding encode
encode-head (int ds) w = (b'i', ds ++ b'e' ∷ [], refl, refl)
encode-head (str [] s) w = absurd (omega (arith, w.some_digit))
encode-head (str (d ∷ ds) s) w = (d, ds ++ b':' ∷ s, refl, digit-start d w.digits.0)
encode-head (list xs) w = (b'l', encode_items xs ++ b'e' ∷ [], refl, refl)
encode-head (dict xs) w = (b'd', encode_items xs ++ b'e' ∷ [], refl, refl)

abbrev Skips : (Text → ℕ → Parsed ℕ) → Value → Type 0
Skips skip v =
    (pre rest : Text)
    → length (pre ++ (encode v ++ rest)) < int_min
    → skip (pre ++ (encode v ++ rest)) (length pre) ≡ ok (length pre + length (encode v))

abbrev SkipsAll : (Text → ℕ → Parsed ℕ) → Items → Type 0
SkipsAll skip xs =
    (g : ℕ) (pre rest : Text)
    → length (encode_items xs) < g
    → length (pre ++ (encode_items xs ++ b'e' ∷ rest)) < int_min
    → skip_items skip g (pre ++ (encode_items xs ++ b'e' ∷ rest)) (length pre)
      ≡ ok (length pre + length (encode_items xs) + 1)

SkipsAll-nil : (skip : Text → ℕ → Parsed ℕ) → SkipsAll skip nil
unfolding encode skip_items
SkipsAll-nil skip zero pre rest g lt = absurd (omega arith)
SkipsAll-nil skip (suc g) pre rest lt small =
    ground (arith, byte_at-append pre b'e' rest, length-append pre (b'e' ∷ rest))

skip_items-next :
    (skip : Text → ℕ → Parsed ℕ) (g : ℕ) (text : Text) (pos mid : ℕ)
    → pos < length text
    → (byte_at text pos == b'e') ≡ false
    → skip text pos ≡ ok mid
    → skip_items skip (suc g) text pos ≡ skip_items skip g text mid
unfolding skip_items
skip_items-next skip g text pos mid inside item e = rw e (ground (arith, inside, item))

-- What stands at the end of `pre` in front of an encoded value.
pub start_behind :
    (pre : Text) (v : Value) (more : Text)
    → IsWell v
    → (length pre < length (pre ++ (encode v ++ more)))
      × ((byte_at (pre ++ (encode v ++ more)) (length pre) == b'e') ≡ false)
      × (0 < length (encode v))
start_behind pre v more w =
    let (c, s, e, start) = encode-head v w in
    rw e (
      omega (arith, length-append pre (c ∷ (s ++ more))),
      rw (byte_at-append pre c (s ++ more)) start,
      omega arith,
    )

SkipsAll-cons :
    (skip : Text → ℕ → Parsed ℕ) (v : Value) (xs : Items)
    → IsWell v
    → Skips skip v
    → SkipsAll skip xs
    → SkipsAll skip (cons v xs)
unfolding encode_items
SkipsAll-cons skip v xs w one all zero pre rest lt small = absurd (omega arith)
SkipsAll-cons skip v xs w one all (suc g) pre rest lt small =
    let more = encode_items xs ++ b'e' ∷ rest in
    let front = pre ++ encode v in
    let inner : (encode v ++ encode_items xs) ++ b'e' ∷ rest ≡ encode v ++ more =
      append_assoc (encode v) (encode_items xs) (b'e' ∷ rest) in
    let outer : front ++ more ≡ pre ++ (encode v ++ more) = append_assoc pre (encode v) more in
    let size : length front ≡ length pre + length (encode v) = length-append pre (encode v) in
    let total = length-append (encode v) (encode_items xs) in
    let (inside, start, longer) = start_behind pre v more w in
    let first = one pre more (rw (← inner) small) in
    let step =
      skip_items-next skip g (pre ++ (encode v ++ more)) (length pre)
        (length pre + length (encode v)) inside start first in
    let tail = all g front rest (omega (arith, total)) (rw (outer, ← inner) small) in
    rw (inner, step, ← size, ← outer, tail) (ap (λ n. ok n) (omega (arith, size, total)))

drop_behind : (pre : Text) (c : ℕ) (s : Text) → drop (suc (length pre)) (pre ++ c ∷ s) ≡ s
drop_behind [] c s = refl
drop_behind (x ∷ pre) c s = drop_behind pre c s

-- What `skip_value` does at the byte behind `pre`.
abbrev by_byte : (Text → ℕ → Parsed ℕ) → Text → ℕ → Text → Parsed ℕ
by_byte skip pre c s =
    if c == b'i'
    then skip_integer s (suc (length pre))
    else if c == b'l' || c == b'd'
    then skip_items skip (suc (length (pre ++ c ∷ s))) (pre ++ c ∷ s) (suc (length pre))
    else (bdecode_string (pre ++ c ∷ s) (length pre) >>= λ r. ok r.1)

skip_value-at :
    (skip : Text → ℕ → Parsed ℕ) (pre : Text) (c : ℕ) (s : Text)
    → skip_value skip (pre ++ c ∷ s) (length pre) ≡ by_byte skip pre c s
unfolding skip_value
skip_value-at skip pre c s =
    rw (byte_at-append pre c s)
      (rw (drop_behind pre c s) (ground (arith, length-append pre (c ∷ s))))

skip_value-int :
    (skip : Text → ℕ → Parsed ℕ) (ds : Text) → IsWell (int ds) → Skips (skip_value skip) (int ds)
unfolding encode
skip_value-int skip ds w pre rest small =
    rw (skip_value-at skip pre b'i' ((ds ++ b'e' ∷ []) ++ rest)) (
      rw (append_assoc ds (b'e' ∷ []) rest, skip_integer-digits ds rest (suc (length pre)) w)
        (ap (λ n. ok n) (omega (arith, length-append ds (b'e' ∷ [])))))

digit-else :
    (d : ℕ) → is_digit d ≡ true → ((d == b'i') ≡ false) × ((d == b'l' || d == b'd') ≡ false)
digit-else d h = ground arith

skip_value-str :
    (skip : Text → ℕ → Parsed ℕ) (ds s : Text)
    → IsWell (str ds s)
    → Skips (skip_value skip) (str ds s)
unfolding encode
skip_value-str skip [] s w pre rest small = absurd (omega (arith, w.some_digit))
skip_value-str skip (d ∷ ds) s w pre rest small =
    let read = bdecode_string-encode pre (d ∷ ds) s rest w small in
    let (not_int, not_list) = digit-else d w.digits.0 in
    rw (skip_value-at skip pre d ((ds ++ b':' ∷ s) ++ rest), not_int) (rw not_list (rw read))

-- A list or dictionary: the loop begins behind its first byte.
skip_items-behind :
    (skip : Text → ℕ → Parsed ℕ) (c : ℕ) (xs : Items)
    → SkipsAll skip xs
    → (pre rest : Text)
    → (let s = (encode_items xs ++ b'e' ∷ []) ++ rest in
        length (pre ++ c ∷ s) < int_min
        → skip_items skip (suc (length (pre ++ c ∷ s))) (pre ++ c ∷ s) (suc (length pre))
          ≡ ok (length pre + suc (length (encode_items xs ++ b'e' ∷ []))))
skip_items-behind skip c xs all pre rest small =
    let front = pre ++ c ∷ [] in
    let items = encode_items xs in
    let inner : (items ++ b'e' ∷ []) ++ rest ≡ items ++ b'e' ∷ rest =
      append_assoc items (b'e' ∷ []) rest in
    let outer : front ++ (items ++ b'e' ∷ rest) ≡ pre ++ c ∷ (items ++ b'e' ∷ rest) =
      append_assoc pre (c ∷ []) (items ++ b'e' ∷ rest) in
    let size : length front ≡ suc (length pre) = omega (arith, length-append pre (c ∷ [])) in
    let long : length items < suc (length (pre ++ c ∷ (items ++ b'e' ∷ rest))) =
      omega (
        arith,
        length-append pre (c ∷ (items ++ b'e' ∷ rest)),
        length-append items (b'e' ∷ rest),
      ) in
    let run =
      all (suc (length (pre ++ c ∷ (items ++ b'e' ∷ rest)))) front rest long
        (rw (outer, ← inner) small) in
    rw (inner, ← size, ← outer)
      (rw (rw (← outer) at run)
        (ap (λ n. ok n) (omega (arith, size, length-append items (b'e' ∷ [])))))

skip_value-list :
    (skip : Text → ℕ → Parsed ℕ) (xs : Items) → SkipsAll skip xs → Skips (skip_value skip) (list xs)
unfolding encode
skip_value-list skip xs all pre rest small =
    rw (skip_value-at skip pre b'l' ((encode_items xs ++ b'e' ∷ []) ++ rest))
      (skip_items-behind skip b'l' xs all pre rest small)

skip_value-dict :
    (skip : Text → ℕ → Parsed ℕ) (xs : Items) → SkipsAll skip xs → Skips (skip_value skip) (dict xs)
unfolding encode
skip_value-dict skip xs all pre rest small =
    rw (skip_value-at skip pre b'd' ((encode_items xs ++ b'e' ∷ []) ++ rest))
      (skip_items-behind skip b'd' xs all pre rest small)

length-items-le :
    (xs : Items) (f : ℕ) → length (encode (list xs)) ≤ suc f → length (encode_items xs) ≤ f
unfolding encode
length-items-le xs f h = omega (arith, length-append (encode_items xs) (b'e' ∷ []))

length-dict : (xs : Items) → length (encode (dict xs)) ≡ length (encode (list xs))
unfolding encode
length-dict xs = refl

pub length-encode-pos : (v : Value) → IsWell v → 0 < length (encode v)
length-encode-pos v w = let (c, s, e, start) = encode-head v w in rw e (omega arith)

length-encode_items-cons :
    (v : Value) (xs : Items)
    → length (encode_items (cons v xs)) ≡ length (encode v) + length (encode_items xs)
unfolding encode
length-encode_items-cons v xs = length-append (encode v) (encode_items xs)

mutual
  unfolding bdecode_skip

  skip-encode : (v : Value) (f : ℕ) → IsWell v → length (encode v) ≤ f → Skips (bdecode_skip f) v
  skip-encode v zero w fuel = absurd (omega (arith, length-encode-pos v w))
  skip-encode (int ds) (suc f) w fuel = skip_value-int (bdecode_skip f) ds w
  skip-encode (str ds s) (suc f) w fuel = skip_value-str (bdecode_skip f) ds s w
  skip-encode (list xs) (suc f) w fuel =
      skip_value-list (bdecode_skip f) xs (skip-encode_items xs f w (length-items-le xs f fuel))
  skip-encode (dict xs) (suc f) w fuel =
      skip_value-dict (bdecode_skip f) xs
        (skip-encode_items xs f w (length-items-le xs f (rw (length-dict xs) at fuel)))

  skip-encode_items :
      (xs : Items) (f : ℕ)
      → AreWell xs
      → length (encode_items xs) ≤ f
      → SkipsAll (bdecode_skip f) xs
  skip-encode_items nil f w fuel = SkipsAll-nil (bdecode_skip f)
  skip-encode_items (cons v xs) f w fuel =
      let total = length-encode_items-cons v xs in
      SkipsAll-cons (bdecode_skip f) v xs w.0 (skip-encode v f w.0 (omega (arith, total)))
        (skip-encode_items xs f w.1 (omega (arith, total)))

-- A well-formed value that stands in a text below 2^63 bytes is skipped exactly: the reader stops at
-- its last byte, whatever follows it.
pub bdecode_skip-encode :
    (v : Value) (f : ℕ) (pre rest : Text)
    → IsWell v
    → length (encode v) ≤ f
    → length (pre ++ (encode v ++ rest)) < int_min
    → bdecode_skip f (pre ++ (encode v ++ rest)) (length pre) ≡ ok (length pre + length (encode v))
bdecode_skip-encode v f pre rest w fuel = skip-encode v f w fuel pre rest
