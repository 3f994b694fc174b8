-- ===== src/Util/Bencode.antt =====
-- The bencode reader of internal/core/util/torrent.go: `BdecodeString` and `BdecodeSkip`. `int` has
-- 64 bits and wraps; a slice expression out of range panics, so the readers return a `Parsed`.
pub mod Bounds
pub mod Values
pub mod Skips
use opendebrid.Prelude.{
  is_digit, ℕ, zero, suc, ◌+◌, ◌-◌, ◌*◌, ◌%◌, ◌^◌, ◌<◌, Bool, true, false, not, ◌&&◌, ◌||◌, Option,
  none, some, List, [], ◌∷◌, Text, length, get_elem?, take, drop, ltb, leb, ◌==◌, if◌then◌else◌,
}

pub data Parsed {ℓ} (A : Type ℓ) : Type ℓ where
  ok : A → Parsed A
  invalid : Parsed A  -- an `error` is returned
  panic : Parsed A  -- a slice out of range
  out_of_fuel : Parsed A

infixl 5 ◌>>=◌
abbrev pub ◌>>=◌ {ℓ κ} : {A : Type ℓ} {B : Type κ} → Parsed A → (A → Parsed B) → Parsed B
ok a >>= f = f a
invalid >>= f = invalid
panic >>= f = panic
out_of_fuel >>= f = out_of_fuel

-- The 64 bits of an `int`, and the bit that makes it negative.
abbrev pub int_mod : ℕ
int_mod = 2 ^ 64

abbrev pub int_min : ℕ
int_min = 2 ^ 63

-- `data[i]`, for an index that the caller has tested.
abbrev pub byte_at : Text → ℕ → ℕ
byte_at [] i = 0
byte_at (x ∷ xs) zero = x
byte_at (x ∷ xs) (suc i) = byte_at xs i

-- The digits before the colon are scanned: what is left from there, with the wrapped number that the
-- second loop makes of them. `none` is a byte that is no digit, or no colon up to the end.
scan_length : Text → ℕ → ℕ → Option (ℕ × ℕ)
scan_length [] at n = none
scan_length (c ∷ s) at n =
    let rest = scan_length s (suc at) ((n * 10 + (c - b'0')) % int_mod) in
    if c == b':' then some (at, n) else if is_digit c then rest else none

-- `start + length > len(data)` compares signed numbers; `data[start : start+length]` needs
-- `start ≤ start+length`, and a sum that wrapped to a negative number does not give it.
slice_string : Text → ℕ → ℕ → Parsed (Text × ℕ)
slice_string text start n =
    let stop = (start + n) % int_mod in
    if leb int_min stop
    then panic
    else if ltb (length text) stop
    then invalid
    else if ltb stop start
    then panic
    else ok (take (stop - start) (drop start text), stop)

read_string : Text → Option (ℕ × ℕ) → Parsed (Text × ℕ)
unfolding slice_string
read_string text none = invalid
read_string text (some (colon, n)) = slice_string text (suc colon) n

unfoldable pub bdecode_string : Text → ℕ → Parsed (Text × ℕ)
unfolding scan_length read_string
bdecode_string text pos = read_string text (scan_length (drop pos text) pos 0)

-- `for pos < len(data) && data[pos] != 'e' { pos++ }` and the test after it.
skip_integer : Text → ℕ → Parsed ℕ
skip_integer [] at = invalid
skip_integer (c ∷ s) at =
    let rest = skip_integer s (suc at) in if c == b'e' then ok (suc at) else rest

-- The loop over the items of a list or dictionary. `skip` is the recursive call.
skip_items : (Text → ℕ → Parsed ℕ) → ℕ → Text → ℕ → Parsed ℕ
skip_items skip zero text pos = out_of_fuel
skip_items skip (suc f) text pos =
    let more = skip text pos >>= λ next. skip_items skip f text next in
    if leb (length text) pos
    then invalid
    else if byte_at text pos == b'e'
    then ok (suc pos)
    else more

-- `BdecodeSkip` with its recursive call as an argument.
skip_value : (Text → ℕ → Parsed ℕ) → Text → ℕ → Parsed ℕ
skip_value skip text pos =
    let c = byte_at text pos in
    if leb (length text) pos
    then invalid
    else if c == b'i'
    then skip_integer (drop (suc pos) text) (suc pos)
    else if c == b'l' || c == b'd'
    then skip_items skip (suc (length text)) text (suc pos)
    else (bdecode_string text pos >>= λ r. ok r.1)

-- The fuel bounds the depth of lists and dictionaries.
unfoldable pub bdecode_skip : ℕ → Text → ℕ → Parsed ℕ
unfolding skip_value skip_integer skip_items
bdecode_skip zero text pos = out_of_fuel
bdecode_skip (suc f) text pos = skip_value (bdecode_skip f) text pos
