-- ===== src/Storage/Range.antt =====
-- Range headers (internal/core/storage/rclone.go): `parseRangeHeader` and what `ServeFile` sends. An
-- `int64` is an integer here: what ParseInt returns lies within 64 bits.
pub mod Bounds
use opendebrid.Prelude.{
  is_digit, ℕ, zero, suc, ◌+◌, ◌-◌, ◌*◌, ◌^◌, Bool, true, false, not, ◌&&◌, ◌||◌, Option, none,
  some, List, [], ◌∷◌, ◌++◌, Text, codes, has_prefix, trim_prefix, is_empty, ltb, leb, ◌==◌,
  if◌then◌else◌,
}

pub data ℤ : Type 0 where
  pos : ℕ → ℤ
  negsuc : ℕ → ℤ

abbrev pub negate : ℕ → ℤ
negate zero = pos 0
negate (suc n) = negsuc n

-- The digits of an unsigned number, after those that made `n`.
pub read_digits : ℕ → Text → Option ℕ
read_digits n [] = some n
read_digits n (c ∷ s) =
    let rest = read_digits (n * 10 + (c - b'0')) s in if is_digit c then rest else none

abbrev pub read_unsigned : Text → Option ℕ
read_unsigned [] = none
read_unsigned (c ∷ s) = read_digits 0 (c ∷ s)

abbrev pub in_positive : Option ℕ → Option ℤ
in_positive none = none
in_positive (some n) = if ltb n (2 ^ 63) then some (pos n) else none

abbrev pub in_negative : Option ℕ → Option ℤ
in_negative none = none
in_negative (some n) = if leb n (2 ^ 63) then some (negate n) else none

-- `strconv.ParseInt(s, 10, 64)`
unfoldable pub parse_int : Text → Option ℤ
unfolding read_digits
parse_int [] = none
parse_int (c ∷ s) =
    if c == b'-'
    then in_negative (read_unsigned s)
    else if c == b'+'
    then in_positive (read_unsigned s)
    else in_positive (read_unsigned (c ∷ s))

-- `strings.SplitN(spec, "-", 2)`: what stands before and behind the first hyphen.
pub split_hyphen : Text → Option (Text × Text)
split_hyphen [] = none
split_hyphen (c ∷ s) =
    let rest = split_hyphen s in
    if c == b'-' then some ([], s) else elim rest [ none ↦ none | some p ↦ some (c ∷ p.0, p.1) ]

pub record Range : Type 0 where
  pub start : ℕ
  pub end : ℤ

-- `totalSize - 1`
abbrev pub last_of : ℕ → ℤ
last_of zero = negsuc 0
last_of (suc n) = pos n

abbrev pub suffix_range : ℕ → Option ℤ → Option Range
suffix_range total (some (pos (suc n))) =
    some (record { start = total - suc n; end = last_of total })
suffix_range total _ = none

abbrev pub up_to : ℕ → ℕ → Option ℤ → Option Range
up_to total start (some (pos end)) =
    if ltb end start
    then none
    else some (record { start = start; end = if leb total end then last_of total else pos end })
up_to total start _ = none

abbrev pub from_start : ℕ → Text → Option ℤ → Option Range
from_start total last (some (pos start)) =
    if leb total start
    then none
    else if is_empty last
    then some (record { start = start; end = last_of total })
    else up_to total start (parse_int last)
from_start total last _ = none

abbrev pub range_of : ℕ → Option (Text × Text) → Option Range
range_of total none = none
range_of total (some (first, last)) =
    if is_empty first
    then suffix_range total (parse_int last)
    else from_start total last (parse_int first)

unfoldable pub parse_range_header : Text → ℕ → Option Range
unfolding split_hyphen parse_int
parse_range_header header total =
    if has_prefix header (codes "bytes=")
    then range_of total (split_hyphen (trim_prefix header (codes "bytes=")))
    else none

-- What `ServeFile` sends for a file of a size: `length` is the Content-Length and the count of bytes.
pub data Served : Type 0 where
  unsatisfiable : Served
  whole : ℕ → Served
  partial : Range → ℕ → Served

-- `end - start + 1`, which is not negative where the range is one of `parse_range_header`.
abbrev pub range_length : Range → ℕ
range_length r = elim r.end [ pos e ↦ e + 1 - r.start | negsuc n ↦ 0 ]

abbrev pub served_range : Option Range → Served
served_range none = unsatisfiable
served_range (some r) = partial r (range_length r)

unfoldable pub serve_file : Text → ℕ → Served
unfolding parse_range_header
serve_file header size =
    if is_empty header then whole size else served_range (parse_range_header header size)
