-- ===== src/Engine/Ytdlp/Runner.antt =====
-- A run of yt-dlp (internal/core/engine/ytdlp/runner.go): what its output lines and its end do to the state of
-- the download. The regular expression, floats, and what the process and the disk answer are parameters;
-- the arguments of the program are left out.
pub mod Totals
use opendebrid.Prelude.{
  ℕ, ◌+◌, ◌-◌, ◌*◌, ◌%◌, ◌^◌, Bool, true, false, ◌&&◌, ◌||◌, Option, none, some, List, [], ◌∷◌,
  ◌++◌, Text, codes, eq_text, is_empty, has_prefix, trim_prefix, ltb, leb, ◌==◌, length, take, drop,
  if◌then◌else◌, trim_space,
}
use opendebrid.Prelude.Exec.{Err, Result, ok, err}
use opendebrid.Engine.Ytdlp.{JobEntry}
use opendebrid.Grpc.Statuses.{active, completed, failed}
use opendebrid.Storage.Range.{ℤ, pos, negsuc, parse_int}

-- `strconv.ParseFloat` and the arithmetic of float64; `of_int64` and `to_int` convert from and to the bits of an
-- int64; `millionths` is how a progress is counted.
pub record Floats : Type 1 where
  pub Float : Type 0
  pub parse_float : Text → Option Float
  pub of_nat : ℕ → Float
  pub of_int64 : ℕ → Float
  pub mul : Float → Float → Float
  pub div : Float → Float → Float
  pub to_int : Float → ℕ
  pub millionths : Float → ℕ

-- `strings.Contains`
unfoldable pub contains : Text → Text → Bool
contains [] p = has_prefix [] p
contains (c ∷ s) p = has_prefix (c ∷ s) p || contains s p

-- `strings.HasSuffix`, `strings.TrimSuffix`
abbrev pub has_suffix : Text → Text → Bool
has_suffix s p = leb (length p) (length s) && eq_text (drop (length s - length p) s) p

abbrev pub trim_suffix : Text → Text → Text
trim_suffix s p = if has_suffix s p then take (length s - length p) s else s

-- `strings.ToUpper` on ASCII, `strings.TrimSpace` on the ASCII spaces
abbrev pub upper : ℕ → ℕ
upper c = if leb b'a' c && leb c b'z' then c - 32 else c

unfoldable pub to_upper : Text → Text
to_upper [] = []
to_upper (c ∷ s) = upper c ∷ to_upper s

-- The state of a run; `named` is what `nameOnce` keeps.
pub record Run : Type 0 where
  pub entry : JobEntry
  pub engine_state : Text
  pub named : Bool
  pub completed_bytes : ℕ
  pub current_announced : ℕ
  pub last_error : Text

abbrev pub on_merge : Text → Run → Run
on_merge line r =
    if contains line (codes "[Merger]") || contains line (codes "Merging")
    then record r { engine_state = codes "merging" }
    else r

abbrev pub on_post : Text → Run → Run
on_post line r =
    if contains line (codes "[ExtractAudio]") || contains line (codes "Post-process")
    then record r { engine_state = codes "postprocessing" }
    else r

abbrev pub on_name : Text → Run → Run
on_name name r =
    if r.named then r else record r { entry = record (r.entry) { name = name }; named = true }

-- An int64 stands for its 64 bits: a number from 2^63 on is a negative one.
abbrev pub int64 : ℕ → ℕ
int64 n = n % 2 ^ 64

abbrev pub is_positive : ℕ → Bool
is_positive n = ltb 0 n && ltb n (2 ^ 63)

-- A track begins, and the one before it is done.
abbrev pub on_size : Option ℤ → Run → Run
on_size (some (pos n)) r =
    if ltb 0 n
    then record r {
      completed_bytes = int64 (r.completed_bytes + r.current_announced);
      current_announced = n;
      entry = record (r.entry) { total_size = int64 (r.entry.total_size + n) };
    }
    else r
on_size _ r = r

abbrev pub on_error : Text → Run → Run
on_error line r =
    if has_prefix line (codes "ERROR:")
    then record r { last_error = trim_prefix line (codes "ERROR: ") }
    else r

module _ (fl : Floats) where
  abbrev pub scaled_by : ℕ → Option fl.Float → ℕ
  scaled_by m none = 0
  scaled_by m (some v) = fl.to_int (fl.mul v (fl.of_nat m))

  abbrev pub in_unit : Text → ℕ → Text → ℕ
  in_unit s m unit = scaled_by m (fl.parse_float (trim_space (trim_suffix s unit)))

  -- The units of `parseFileSize` with an ending: "/S" for `parseSpeed`.
  abbrev pub by_unit : Text → Text → ℕ
  by_unit ending s =
      if has_suffix s (codes "GIB" ++ ending)
      then in_unit s (1024 * 1024 * 1024) (codes "GIB" ++ ending)
      else if has_suffix s (codes "MIB" ++ ending)
      then in_unit s (1024 * 1024) (codes "MIB" ++ ending)
      else if has_suffix s (codes "KIB" ++ ending)
      then in_unit s 1024 (codes "KIB" ++ ending)
      else if has_suffix s (codes "B" ++ ending)
      then in_unit s 1 (codes "B" ++ ending)
      else 0

  unfoldable pub parse_file_size : Text → ℕ
  parse_file_size s = by_unit [] (to_upper (trim_space s))

  unfoldable pub parse_speed : Text → ℕ
  parse_speed s =
      let s' = trim_space s in
      if eq_text s' (codes "Unknown") || is_empty s' then 0 else by_unit (codes "/S") (to_upper s')

  abbrev pub or_zero : Option fl.Float → fl.Float
  or_zero none = fl.of_nat 0
  or_zero (some v) = v

  abbrev pub hundredth : fl.Float → fl.Float
  hundredth v = fl.div v (fl.of_nat 100)

  abbrev pub progress_of : fl.Float → ℕ → ℕ → ℕ
  progress_of pct downloaded total = fl.millionths (
      if is_positive total
      then fl.div (fl.of_int64 downloaded) (fl.of_int64 total)
      else hundredth pct)

  -- The groups of a match: percent, size and speed.
  abbrev pub on_match : Option (Text × Text × Text) → Run → Run
  on_match none r = r
  on_match (some (percent, size, speed)) r =
      let pct = or_zero (fl.parse_float percent) in
      let downloaded = int64 (
        r.completed_bytes
        + fl.to_int (hundredth (fl.mul (fl.of_int64 (parse_file_size size)) pct))) in
      record r {
        entry = record (r.entry) {
          progress = progress_of pct downloaded r.entry.total_size;
          downloaded = downloaded;
          speed = parse_speed speed;
        };
        engine_state = codes "downloading";
      }

  abbrev pub parse_progress_line : (Text → Option (Text × Text × Text)) → Text → Run → Run
  parse_progress_line matches line r = on_post line (on_merge line (on_match (matches line) r))

  module _ (matches : Text → Option (Text × Text × Text)) where
    unfoldable pub on_line : Text → Run → Run
    on_line line r =
        if has_prefix line (codes "OPENDEBRID_NAME=")
        then on_name (trim_prefix line (codes "OPENDEBRID_NAME=")) r
        else if has_prefix line (codes "OPENDEBRID_SIZE=")
        then on_size (parse_int (trim_prefix line (codes "OPENDEBRID_SIZE="))) r
        else on_error line (parse_progress_line matches line r)

    abbrev pub on_lines : List Text → Run → Run
    on_lines [] r = r
    on_lines (l ∷ ls) r = on_lines ls (on_line l r)

abbrev pub failed_with : Text → JobEntry → JobEntry
failed_with message e = record e { status = failed; error = message }

abbrev pub sum_of : List ℕ → ℕ
sum_of [] = 0
sum_of (n ∷ ns) = int64 (n + sum_of ns)

-- What the outside does: the pipe, the start, the lines that the scanner gives, the end, whether the context is done, and
-- the sizes of the files in the directory.
pub record Process : Type 0 where
  pub pipe : Result {0} Unit
  pub start : Result {0} Unit
  pub lines : List Text
  pub wait : Result {0} Unit
  pub context_done : Bool
  pub sizes : List ℕ

abbrev pub begun : JobEntry → Run
begun e = record {
  entry = record e { status = active };
  engine_state = codes "downloading";
  named = false;
  completed_bytes = 0;
  current_announced = 0;
  last_error = [];
}

module _ (error_text : Err → Text) where
  abbrev pub at_exit : Process → Err → Run → JobEntry
  at_exit p x r =
      if p.context_done
      then record (r.entry) { status = failed }
      else if is_empty r.last_error
      then failed_with (codes "exit: " ++ error_text x) r.entry
      else failed_with r.last_error r.entry

  abbrev pub finished : Process → Result {0} Unit → Run → JobEntry
  finished p (err x) r = at_exit p x r
  finished p (ok u) r = record (r.entry) {
    total_size = sum_of p.sizes;
    status = completed;
    progress = 1000000;
    downloaded = sum_of p.sizes;
  }

  module _ (fl : Floats) (matches : Text → Option (Text × Text × Text)) where
    abbrev pub started : Process → Result {0} Unit → JobEntry → JobEntry
    started p (err x) e =
        failed_with (codes "start: " ++ error_text x) (record e { status = active })
    started p (ok u) e = finished p p.wait (on_lines fl matches p.lines (begun e))

    abbrev pub piped : Process → Result {0} Unit → JobEntry → JobEntry
    piped p (err x) e = failed_with (codes "pipe: " ++ error_text x) e
    piped p (ok u) e = started p p.start e

    unfoldable pub run_download : Process → JobEntry → JobEntry
    run_download p e = piped p p.pipe e
