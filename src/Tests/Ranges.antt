-- ===== src/Tests/Ranges.antt =====
-- Range headers at concrete inputs.
use opendebrid.Prelude.{
  ◌+◌, ◌-◌, ◌≤◌, ◌<◌, ◌≡◌, refl, codes, has_prefix, trim_prefix, is_empty, arith,
}
use opendebrid.Storage.Range.{Range, pos, parse_range_header, serve_file}
use opendebrid.Storage.Range.Bounds.{serve_file-bounds}

abbrev range1 : Range
range1 = record { start = 2; end = pos 4 }

serve_file-bounds_example : (0 < 3) × (2 + 3 ≤ 10) × (pos 4 ≡ pos (2 + 3 - 1))
unfolding serve_file parse_range_header is_empty has_prefix trim_prefix
serve_file-bounds_example = serve_file-bounds (codes "bytes=2-4") 10 range1 3 (omega arith) refl
