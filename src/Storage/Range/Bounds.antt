-- ===== src/Storage/Range/Bounds.antt =====
-- Which ranges `parseRangeHeader` accepts and what they are.
use opendebrid.Prelude.{
  ℕ, zero, suc, ◌+◌, ◌-◌, ◌*◌, ◌^◌, ◌≤◌, ◌<◌, ◌≡◌, refl, sym, ap, ◌∙◌, true, false, Option, none,
  some, [], ◌∷◌, ◌++◌, Text, codes, has_prefix, trim_prefix, has_prefix-append, trim_prefix-append,
  is_empty, is_digit, number_from, All, length, ltb, leb, arith, if◌then◌else◌, Bool-cases, inl,
  inr,
}
use opendebrid.Storage.Range.{
  ℤ, pos, negsuc, Range, suffix_range, up_to, from_start, range_of, parse_int, read_digits,
  split_hyphen, parse_range_header, partial, range_length, served_range, serve_file,
}

-- The range lies in a file of this size and is not empty.
abbrev pub LiesIn : ℕ → Range → Type 0
LiesIn total r = (e : ℕ) × (r.end ≡ pos e) × (r.start ≤ e) × (e < total)

suffix_range-LiesIn :
    (total : ℕ) (n : Option ℤ) (r : Range)
    → 0 < total
    → suffix_range total n ≡ some r
    → LiesIn total r
suffix_range-LiesIn (suc t) (some (pos (suc n))) r h e =
    (t, ground (arith, e), ground (arith, e), omega arith)
suffix_range-LiesIn zero n r h e = absurd (omega arith)
suffix_range-LiesIn (suc t) none r h e = cc
suffix_range-LiesIn (suc t) (some (pos zero)) r h e = cc
suffix_range-LiesIn (suc t) (some (negsuc n)) r h e = cc

up_to-LiesIn :
    (total start : ℕ) (n : Option ℤ) (r : Range)
    → start < total
    → up_to total start n ≡ some r
    → LiesIn total r
up_to-LiesIn zero start n r h e = absurd (omega arith)
up_to-LiesIn (suc t) start (some (pos end)) r h e = elim (Bool-cases (ltb end start)) [
  | inl below ↦ cc (rw below at e)
  | inr above ↦ elim (Bool-cases (leb (suc t) end)) [
    | inl past ↦ (
      t,
      ground (arith, rw (above, past) at e),
      ground (arith, rw (above, past) at e),
      omega arith,
    )
    | inr inside ↦ (
      end,
      ground (arith, rw (above, inside) at e),
      ground (arith, rw (above, inside) at e),
      ground (arith, inside),
    )
  ]
]
up_to-LiesIn (suc t) start none r h e = cc
up_to-LiesIn (suc t) start (some (negsuc n)) r h e = cc

from_start-LiesIn :
    (total : ℕ) (last : Text) (n : Option ℤ) (r : Range)
    → from_start total last n ≡ some r
    → LiesIn total r
from_start-LiesIn zero last (some (pos start)) r e = ground (arith, e)
from_start-LiesIn (suc t) last (some (pos start)) r e = elim (Bool-cases (leb (suc t) start)) [
  | inl past ↦ cc (rw past at e)
  | inr inside ↦ elim (Bool-cases (is_empty last)) [
    | inl bare ↦ (
      t,
      ground (arith, rw (inside, bare) at e),
      ground (arith, rw (inside, bare) at e, inside),
      omega arith,
    )
    | inr closed ↦
        up_to-LiesIn (suc t) start (parse_int last) r (ground (arith, inside))
          (rw (inside, closed) at e)
  ]
]
from_start-LiesIn total last none r e = cc
from_start-LiesIn total last (some (negsuc n)) r e = cc

range_of-LiesIn :
    (total : ℕ) (p : Option (Text × Text)) (r : Range)
    → 0 < total
    → range_of total p ≡ some r
    → LiesIn total r
range_of-LiesIn total none r h e = cc
range_of-LiesIn total (some (first, last)) r h e = elim (Bool-cases (is_empty first)) [
  | inl s ↦ suffix_range-LiesIn total (parse_int last) r h (rw s at e)
  | inr s ↦ from_start-LiesIn total last (parse_int first) r (rw s at e)
]

parse_range_header-LiesIn :
    (header : Text) (total : ℕ) (r : Range)
    → 0 < total
    → parse_range_header header total ≡ some r
    → LiesIn total r
unfolding parse_range_header
parse_range_header-LiesIn header total r h e =
    elim (Bool-cases (has_prefix header (codes "bytes="))) [
      | inl s ↦
          range_of-LiesIn total (split_hyphen (trim_prefix header (codes "bytes="))) r h (rw s at e)
      | inr s ↦ cc (rw s at e)
    ]

-- A partial answer for a file that is not empty, whatever the header: it sends at least one byte, all
-- of them in the file, and the Content-Range names the first and the last of them.
pub serve_file-bounds :
    (header : Text) (size : ℕ) (r : Range) (n : ℕ)
    → 0 < size
    → serve_file header size ≡ partial r n
    → (0 < n) × (r.start + n ≤ size) × (r.end ≡ pos (r.start + n - 1))
unfolding serve_file
serve_file-bounds header size r n h e = elim (Bool-cases (is_empty header)) [
  | inl s ↦ cc (rw s at e)
  | inr s ↦ go (parse_range_header header size) refl (rw s at e)
]
  where
    lengths :
        (r' : Range)
        → LiesIn size r'
        → partial r' (range_length r') ≡ partial r n
        → (0 < n) × (r.start + n ≤ size) × (r.end ≡ pos (r.start + n - 1))
    lengths r' (l, p, q, k) e' =
        let same : r' ≡ r = ground (arith, e') in
        let count : range_length r' ≡ n = ground (arith, e') in
        let size_of : range_length r' ≡ l + 1 - r'.start = rw (p, range_length) refl in
        let n_is : n ≡ l + 1 - r'.start = sym count ∙ size_of in
        rw (← same) (omega (arith, n_is), omega (arith, n_is), p ∙ ap pos (omega (arith, n_is)))

    go :
        (o : Option Range)
        → parse_range_header header size ≡ o
        → served_range o ≡ partial r n
        → (0 < n) × (r.start + n ≤ size) × (r.end ≡ pos (r.start + n - 1))
    go none f e' = cc
    go (some r') f e' = lengths r' (parse_range_header-LiesIn header size r' h f) e'

-- A suffix range of a positive length on an empty file is accepted, with -1 as its end: the answer is
-- partial and has no byte.
pub serve_file-empty :
    (s : Text) (n : ℕ)
    → parse_int s ≡ some (pos (suc n))
    → serve_file (codes "bytes=-" ++ s) 0 ≡ partial (record { start = 0; end = negsuc 0 }) 0
unfolding serve_file parse_range_header split_hyphen has_prefix trim_prefix is_empty
serve_file-empty s n h =
    rw h (ap (λ k. partial (record { start = k; end = negsuc 0 }) 0) (omega arith))

read_digits-number :
    (n : ℕ) (ds : Text)
    → All (λ d. is_digit d ≡ true) ds
    → read_digits n ds ≡ some (number_from n ds)
unfolding read_digits
read_digits-number n [] h = refl
read_digits-number n (d ∷ ds) h =
    ground (arith, read_digits-number (n * 10 + (d - b'0')) ds h.1, h.0)

-- A decimal number that an int64 holds, with any leading zeros.
abbrev pub IsNumeral : Text → ℕ → Type 0
IsNumeral ds n =
    All (λ d. is_digit d ≡ true) ds × (0 < length ds) × (number_from 0 ds ≡ n) × (n < 2 ^ 63)

parse_int-number : (ds : Text) (n : ℕ) → IsNumeral ds n → parse_int ds ≡ some (pos n)
unfolding parse_int
parse_int-number [] n (h, l, e, b) = absurd (omega arith)
parse_int-number (d ∷ ds) n (h, l, e, b) =
    ground (arith, read_digits-number (0 * 10 + (d - b'0')) ds h.1, h.0, e, b)

split_hyphen-digits :
    (ds s : Text) → All (λ d. is_digit d ≡ true) ds → split_hyphen (ds ++ b'-' ∷ s) ≡ some (ds, s)
unfolding split_hyphen
split_hyphen-digits [] s h = refl
split_hyphen-digits (d ∷ ds) s h = ground (arith, split_hyphen-digits ds s h.1, h.0)

is_empty-number : (ds : Text) → 0 < length ds → is_empty ds ≡ false
unfolding is_empty
is_empty-number [] h = absurd (omega arith)
is_empty-number (d ∷ ds) h = refl

range_of-closed :
    (ds es : Text) (a b total : ℕ)
    → IsNumeral ds a
    → IsNumeral es b
    → a ≤ b
    → a < total
    → range_of total (some (ds, es))
      ≡ some (record { start = a; end = if leb total b then pos (total - 1) else pos b })
range_of-closed ds es a b zero da eb le lt = absurd (omega arith)
range_of-closed ds es a b (suc t) da eb le lt =
    let inside : leb (suc t) a ≡ false = ground arith in
    let ordered : ltb b a ≡ false = ground arith in
    rw (is_empty-number ds da.1) (
      rw (parse_int-number ds a da) (
        rw (inside, is_empty-number es eb.1)
          (rw (parse_int-number es b eb) (
            rw ordered (
              ap (λ x. some (record { start = a; end = if leb (suc t) b then x else pos b }))
                (ap pos (omega arith)))))))

-- A closed range that is written as RFC 9110 has it is read as it is written, cut at the end of the file.
pub parse_range_header-closed :
    (ds es : Text) (a b total : ℕ)
    → IsNumeral ds a
    → IsNumeral es b
    → a ≤ b
    → a < total
    → parse_range_header (codes "bytes=" ++ (ds ++ b'-' ∷ es)) total
      ≡ some (record { start = a; end = if leb total b then pos (total - 1) else pos b })
unfolding parse_range_header
parse_range_header-closed ds es a b total da eb le lt =
    rw (has_prefix-append (codes "bytes=") (ds ++ b'-' ∷ es)) (
      rw (trim_prefix-append (codes "bytes=") (ds ++ b'-' ∷ es))
        (rw (split_hyphen-digits ds es da.0) (range_of-closed ds es a b total da eb le lt)))
