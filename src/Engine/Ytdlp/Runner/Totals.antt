-- ===== src/Engine/Ytdlp/Runner/Totals.antt =====
-- What a run of yt-dlp adds up, and how it ends.
use opendebrid.Prelude.{
  ℕ, ◌+◌, ◌<◌, ◌^◌, ◌≡◌, sym, refl, ap, ◌∙◌, Bool, true, false, ◌||◌, Option, none, some, List, [],
  ◌∷◌, Text, codes, has_prefix, trim_prefix, ltb, arith, Bool-cases, inl, inr, if◌then◌else◌,
}
use opendebrid.Engine.Ytdlp.{JobEntry}
use opendebrid.Engine.Ytdlp.Runner.{
  Floats, Run, contains, on_match, on_merge, parse_progress_line, on_size, on_error, on_line,
  on_lines, int64, begun,
}
use opendebrid.Storage.Range.{ℤ, pos, negsuc, parse_int}

abbrev positive : Option ℤ → Option ℕ
positive (some (pos n)) = if ltb 0 n then some n else none
positive _ = none

-- The size that a line announces.
abbrev pub size_in : Text → Option ℕ
size_in line =
    if has_prefix line (codes "OPENDEBRID_NAME=")
    then none
    else if has_prefix line (codes "OPENDEBRID_SIZE=")
    then positive (parse_int (trim_prefix line (codes "OPENDEBRID_SIZE=")))
    else none

abbrev with_size : Option ℕ → List ℕ → List ℕ
with_size none ns = ns
with_size (some n) ns = n ∷ ns

abbrev pub sizes_in : List Text → List ℕ
sizes_in [] = []
sizes_in (l ∷ ls) = with_size (size_in l) (sizes_in ls)

abbrev pub add_up : List ℕ → ℕ
add_up [] = 0
add_up (n ∷ ns) = n + add_up ns

abbrev pub last_or : ℕ → List ℕ → ℕ
last_or n [] = n
last_or n (m ∷ ms) = last_or m ms

-- What is counted: the total, the tracks that are done, and the one that runs.
abbrev Counts : Type 0
Counts = ℕ × ℕ × ℕ

abbrev counts : Run → Counts
counts r = (r.entry.total_size, r.completed_bytes, r.current_announced)

abbrev counted : Option ℕ → Counts → Counts
counted none c = c
counted (some n) (total, done, current) = (int64 (total + n), int64 (done + current), n)

module _ (fl : Floats) (matches : Text → Option (Text × Text × Text)) where
  counts-match : (m : Option (Text × Text × Text)) (r : Run) → counts (on_match fl m r) ≡ counts r
  counts-match none r = refl
  counts-match (some m) r = refl

  counts-size : (z : Option ℤ) (r : Run) → counts (on_size z r) ≡ counted (positive z) (counts r)
  counts-size none r = refl
  counts-size (some (pos n)) r = elim (Bool-cases (ltb 0 n)) [
    | inl e ↦ rw e refl
    | inr e ↦ rw e refl
  ]
  counts-size (some (negsuc n)) r = refl

  counts-if : (b : Bool) (r s : Run) → counts r ≡ counts s → counts (if b then r else s) ≡ counts s
  counts-if true r s h = h
  counts-if false r s h = refl

  kept : (line : Text) (r : Run) → counts (on_error line r) ≡ counts r
  kept line r =
      counts-if (has_prefix line (codes "ERROR:"))
        (record r { last_error = trim_prefix line (codes "ERROR: ") }) r refl

  kept_progress :
      (line : Text) (r : Run) → counts (parse_progress_line fl matches line r) ≡ counts r
  kept_progress line r =
      let m = on_match fl (matches line) r in
      counts-if (contains line (codes "[ExtractAudio]") || contains line (codes "Post-process"))
        (record (on_merge line m) { engine_state = codes "postprocessing" }) (on_merge line m) refl
      ∙ (counts-if (contains line (codes "[Merger]") || contains line (codes "Merging"))
            (record m { engine_state = codes "merging" }) m refl
          ∙ counts-match (matches line) r)

  counts-line :
      (line : Text) (r : Run)
      → counts (on_line fl matches line r) ≡ counted (size_in line) (counts r)
  unfolding on_line
  counts-line line r = elim (Bool-cases (has_prefix line (codes "OPENDEBRID_NAME="))) [
    | inl name ↦ rw name (elim (Bool-cases r.named) [ inl e ↦ rw e refl | inr e ↦ rw e refl ])
    | inr other ↦ elim (Bool-cases (has_prefix line (codes "OPENDEBRID_SIZE="))) [
      | inl size ↦
          rw other
            (rw size (counts-size (parse_int (trim_prefix line (codes "OPENDEBRID_SIZE="))) r))
      | inr text ↦
          rw other
            (rw text (kept line (parse_progress_line fl matches line r) ∙ kept_progress line r))
    ]
  ]

  -- The counts behind some lines.
  after_sizes : List ℕ → Counts → Counts
  after_sizes [] c = c
  after_sizes (n ∷ ns) c = after_sizes ns (counted (some n) c)

  counts-lines :
      (ls : List Text) (r : Run)
      → counts (on_lines fl matches ls r) ≡ after_sizes (sizes_in ls) (counts r)
  unfolding after_sizes
  counts-lines [] r = refl
  counts-lines (l ∷ ls) r =
      counts-lines ls (on_line fl matches l r)
      ∙ (ap (λ c. after_sizes (sizes_in ls) c) (counts-line l r) ∙ step (size_in l))
    where
      step :
          (o : Option ℕ)
          → after_sizes (sizes_in ls) (counted o (counts r))
            ≡ after_sizes (with_size o (sizes_in ls)) (counts r)
      step none = refl
      step (some n) = refl

  after_sizes_lem :
      (ns : List ℕ) (total done current : ℕ)
      → total < 2 ^ 64
      → (let c = after_sizes ns (total, done, current) in
          (c.0 ≡ int64 (total + add_up ns))
          × (c.2 ≡ last_or current ns)
          × (int64 (c.1 + c.2) ≡ int64 (done + current + add_up ns)))
  unfolding after_sizes
  after_sizes_lem [] total done current h = (omega (arith, h), refl, omega arith)
  after_sizes_lem (n ∷ ns) total done current h =
      let (t, l, s) =
        after_sizes_lem ns (int64 (total + n)) (int64 (done + current)) n (omega arith) in
      (omega (arith, t), l, omega (arith, s))

  zeros : (n : ℕ) → 0 + 0 + n ≡ n
  zeros n = omega arith

  -- Over any output of a new download, in the 64-bit arithmetic of an int64: the total is the sum of the
  -- announced sizes that are positive, the track that runs is the one announced last, and the tracks that
  -- count as done make up the total with it.
  pub on_lines-total :
      (ls : List Text) (e : JobEntry)
      → e.total_size ≡ 0
      → (let r = on_lines fl matches ls (begun e) in
          (r.entry.total_size ≡ int64 (add_up (sizes_in ls)))
          × (r.current_announced ≡ last_or 0 (sizes_in ls))
          × (int64 (r.completed_bytes + r.current_announced) ≡ r.entry.total_size))
  on_lines-total ls e new =
      let (t, l, s) = after_sizes_lem (sizes_in ls) e.total_size 0 0 (rw new (omega arith)) in
      let c = counts-lines ls (begun e) in
      let same : (on_lines fl matches ls (begun e)).entry.total_size
          ≡ int64 (add_up (sizes_in ls)) =
        ap (λ c. c.0) c ∙ omega (arith, t, new) in
      (
        same,
        ap (λ c. c.2) c ∙ l,
        ap (λ (c : Counts). int64 (c.1 + c.2)) c
            ∙ (s ∙ (ap (λ n. int64 n) (zeros (add_up (sizes_in ls))) ∙ sym same)),
      )
