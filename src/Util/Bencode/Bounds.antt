-- ===== src/Util/Bencode/Bounds.antt =====
-- Where the readers of bencode (internal/core/util/torrent.go) end.
use opendebrid.Prelude.{
  ℕ, zero, suc, ◌+◌, ◌-◌, ◌*◌, ◌%◌, ◌≤◌, ◌<◌, ◌≡◌, ◌≢◌, ◌⊎◌, refl, false, Option, none, some, [],
  ◌∷◌, Text, length, length-drop, drop, take, arith, leb, ◌==◌, Bool-cases, inl, inr,
}
use opendebrid.Util.Bencode.{
  Parsed, ok, invalid, panic, out_of_fuel, ◌>>=◌, int_mod, byte_at, scan_length, slice_string,
  read_string, bdecode_string, skip_integer, skip_items, skip_value, bdecode_skip,
}

-- The position lies after `pos` and inside the text.
abbrev pub IsAhead : Text → ℕ → ℕ → Type 0
IsAhead text pos next = (pos < next) × (next ≤ length text)

scan_length-le :
    (s : Text) (at n colon m : ℕ)
    → scan_length s at n ≡ some (colon, m)
    → (at ≤ colon) × (colon < at + length s)
unfolding scan_length
scan_length-le [] at n colon m h = cc
scan_length-le (c ∷ s) at n colon m h =
    ground (arith, scan_length-le s (suc at) ((n * 10 + (c - b'0')) % int_mod) colon m)

slice_string-IsAhead :
    (text : Text) (start n : ℕ) (s : Text) (next : ℕ)
    → slice_string text start n ≡ ok (s, next)
    → (start ≤ next) × (next ≤ length text) × (s ≡ take (next - start) (drop start text))
unfolding slice_string
slice_string-IsAhead text start n s next h = ground arith

-- A string that is read ends ahead of where it began, and inside the file.
pub bdecode_string-IsAhead :
    (text : Text) (pos : ℕ) (s : Text) (next : ℕ)
    → bdecode_string text pos ≡ ok (s, next)
    → IsAhead text pos next
unfolding bdecode_string
bdecode_string-IsAhead text pos s next h = go (scan_length (drop pos text) pos 0) refl h
  where
    go :
        (o : Option (ℕ × ℕ))
        → scan_length (drop pos text) pos 0 ≡ o
        → read_string text o ≡ ok (s, next)
        → IsAhead text pos next
    go none e k = cc
    go (some (colon, n)) e k = omega (
      arith,
      slice_string-IsAhead text (suc colon) n s next k,
      scan_length-le (drop pos text) pos 0 colon n e,
    )

skip_integer-le :
    (s : Text) (at next : ℕ) → skip_integer s at ≡ ok next → (at < next) × (next ≤ at + length s)
unfolding skip_integer
skip_integer-le [] at next h = cc
skip_integer-le (c ∷ s) at next h = ground (arith, skip_integer-le s (suc at) next)

-- What the loop over items needs of the recursive call.
abbrev Advances : (Text → ℕ → Parsed ℕ) → Text → Type 0
Advances skip text = (pos next : ℕ) → skip text pos ≡ ok next → IsAhead text pos next

bind-ok :
    (m : Parsed ℕ) (f : ℕ → Parsed ℕ) (b : ℕ)
    → (m >>= f) ≡ ok b
    → (a : ℕ) × (m ≡ ok a) × (f a ≡ ok b)
bind-ok (ok a) f b h = (a, refl, h)
bind-ok invalid f b h = cc
bind-ok panic f b h = cc
bind-ok out_of_fuel f b h = cc

skip_items-IsAhead :
    (skip : Text → ℕ → Parsed ℕ) (fuel : ℕ) (text : Text)
    → Advances skip text
    → (pos next : ℕ) → skip_items skip fuel text pos ≡ ok next
    → IsAhead text pos next
unfolding skip_items
skip_items-IsAhead skip zero text adv pos next h = cc
skip_items-IsAhead skip (suc f) text adv pos next h = elim (Bool-cases (leb (length text) pos)) [
  | inl past ↦ cc (past, h)
  | inr inside ↦ elim (Bool-cases (byte_at text pos == b'e')) [
    | inl end ↦ ground arith
    | inr item ↦
        let (mid, p, q) =
          bind-ok (skip text pos) (skip_items skip f text) next (rw (inside, item) at h) in
        omega (arith, adv pos mid p, skip_items-IsAhead skip f text adv mid next q)
  ]
]

bdecode_string-end :
    (text : Text) (pos next : ℕ)
    → (bdecode_string text pos >>= λ r. ok r.1) ≡ ok next
    → IsAhead text pos next
bdecode_string-end text pos next h = go (bdecode_string text pos) refl h
  where
    go :
        (m : Parsed (Text × ℕ))
        → bdecode_string text pos ≡ m
        → (m >>= λ r. ok r.1) ≡ ok next
        → IsAhead text pos next
    go (ok (s, end)) e k = bdecode_string-IsAhead text pos s next (ground (arith, e, k))
    go invalid e k = cc
    go panic e k = cc
    go out_of_fuel e k = cc

skip_integer-drop :
    (text : Text) (pos next : ℕ)
    → leb (length text) pos ≡ false
    → skip_integer (drop (suc pos) text) (suc pos) ≡ ok next
    → IsAhead text pos next
skip_integer-drop text pos next inside h =
    ground
      (arith, skip_integer-le (drop (suc pos) text) (suc pos) next h, length-drop (suc pos) text)

skip_value-IsAhead :
    (skip : Text → ℕ → Parsed ℕ) (text : Text)
    → Advances skip text
    → Advances (skip_value skip) text
unfolding skip_value
skip_value-IsAhead skip text adv pos next h = ground (
  arith,
  skip_integer-drop text pos next,
  bdecode_string-end text pos next,
  skip_items-IsAhead skip (suc (length text)) text adv (suc pos) next,
)

-- A value that is skipped ends ahead of where it began, and inside the file.
pub bdecode_skip-IsAhead :
    (fuel : ℕ) (text : Text) (pos next : ℕ)
    → bdecode_skip fuel text pos ≡ ok next
    → IsAhead text pos next
unfolding bdecode_skip
bdecode_skip-IsAhead zero text pos next h = cc
bdecode_skip-IsAhead (suc f) text pos next h =
    skip_value-IsAhead (bdecode_skip f) text (bdecode_skip-IsAhead f text) pos next h

-- `skip` does not run out of fuel from `low` on.
abbrev Ends : (Text → ℕ → Parsed ℕ) → Text → ℕ → Type 0
Ends skip text low = (pos : ℕ) → low ≤ pos → skip text pos ≢ out_of_fuel

pub bind-fuel {ℓ κ} :
    {A : Type ℓ} {B : Type κ} (m : Parsed A) (f : A → Parsed B)
    → (m >>= f) ≡ out_of_fuel
    → (m ≡ out_of_fuel) ⊎ ((a : A) × (m ≡ ok a) × (f a ≡ out_of_fuel))
bind-fuel (ok a) f h = inr (a, refl, h)
bind-fuel invalid f h = cc
bind-fuel panic f h = cc
bind-fuel out_of_fuel f h = inl refl

skip_items-Ends :
    (skip : Text → ℕ → Parsed ℕ) (text : Text) (low : ℕ)
    → Advances skip text
    → Ends skip text low
    → (fuel pos : ℕ) → low ≤ pos
    → length text - pos < fuel
    → skip_items skip fuel text pos ≢ out_of_fuel
unfolding skip_items
skip_items-Ends skip text low adv ends zero pos le lt h = absurd (omega arith)
skip_items-Ends skip text low adv ends (suc f) pos le lt h =
    elim (Bool-cases (leb (length text) pos)) [
      | inl past ↦ cc (past, h)
      | inr inside ↦ elim (Bool-cases (byte_at text pos == b'e')) [
        | inl end ↦ cc (inside, end, h)
        | inr item ↦
            elim (bind-fuel (skip text pos) (skip_items skip f text) (rw (inside, item) at h)) [
              | inl e ↦ ends pos le e
              | inr (mid, p, q) ↦
                  let ahead = adv pos mid p in
                  skip_items-Ends skip text low adv ends f mid (omega arith)
                    (ground (arith, inside)) q
            ]
      ]
    ]

pub bdecode_string-ne-out_of_fuel : (text : Text) (pos : ℕ) → bdecode_string text pos ≢ out_of_fuel
unfolding bdecode_string read_string slice_string
bdecode_string-ne-out_of_fuel text pos h = ground arith

bdecode_string-end_ne :
    (text : Text) (pos : ℕ) → (bdecode_string text pos >>= λ r. ok r.1) ≢ out_of_fuel
bdecode_string-end_ne text pos h = ground (arith, bdecode_string-ne-out_of_fuel text pos)

skip_integer-ne : (s : Text) (at : ℕ) → skip_integer s at ≢ out_of_fuel
unfolding skip_integer
skip_integer-ne [] at h = cc
skip_integer-ne (c ∷ s) at h = ground (arith, skip_integer-ne s (suc at))

-- With more fuel than the file has bytes ahead, the skip ends: with a position, an error or a panic.
pub bdecode_skip-ends :
    (fuel : ℕ) (text : Text) (pos : ℕ)
    → length text - pos < fuel
    → bdecode_skip fuel text pos ≢ out_of_fuel
unfolding bdecode_skip skip_value
bdecode_skip-ends zero text pos lt h = absurd (omega arith)
bdecode_skip-ends (suc f) text pos lt h = elim (Bool-cases (leb (length text) pos)) [
  | inl past ↦ cc (past, h)
  | inr inside ↦ ground (
    arith,
    skip_integer-ne (drop (suc pos) text) (suc pos),
    bdecode_string-end_ne text pos,
    skip_items-Ends (bdecode_skip f) text (suc pos) (bdecode_skip-IsAhead f text)
        (λ at le. bdecode_skip-ends f text at (ground (arith, inside))) (suc (length text))
        (suc pos),
  )
]
