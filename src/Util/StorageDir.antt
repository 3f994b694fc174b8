-- ===== src/Util/StorageDir.antt =====
-- Storage-key directories (internal/core/util/storage.go). A download directory is its entries, or
-- `none` where it cannot be read; the order of the scanned keys is that of their first entries.
pub mod Orphans
use opendebrid.Prelude.{
  ℕ, Bool, true, false, not, ◌&&◌, ◌||◌, Option, none, some, List, [], ◌∷◌, ◌++◌, map, Text,
  eq_text, length, any, select, leb, ◌==◌, if◌then◌else◌,
}

pub record DirEntry : Type 0 where
  pub name : Text
  pub is_dir : Bool

abbrev pub Dir : Type 0
Dir = Option (List DirEntry)

abbrev pub is_hex : ℕ → Bool
is_hex c = leb b'0' c && leb c b'9' || leb b'a' c && leb c b'f'

unfoldable pub all_hex : Text → Bool
all_hex [] = true
all_hex (c ∷ s) = is_hex c && all_hex s

unfoldable pub is_storage_key_dir : Text → Bool
unfolding all_hex
is_storage_key_dir name = (length name == 32) && all_hex name

abbrev pub is_key_entry : DirEntry → Bool
is_key_entry e = e.is_dir && is_storage_key_dir e.name

-- The keys seen so far, and those of one more directory.
unfoldable pub scan_entries : List Text → List DirEntry → List Text
scan_entries seen [] = seen
scan_entries seen (e ∷ es) =
    scan_entries
      (if is_key_entry e && not (any (eq_text e.name) seen) then seen ++ e.name ∷ [] else seen) es

abbrev pub entries_of : Dir → List DirEntry
entries_of none = []
entries_of (some es) = es

scan_dirs : List Text → List Dir → List Text
scan_dirs seen [] = seen
scan_dirs seen (d ∷ ds) = scan_dirs (scan_entries seen (entries_of d)) ds

unfoldable pub scan_storage_keys : List Dir → List Text
unfolding scan_dirs scan_entries
scan_storage_keys dirs = scan_dirs [] dirs

-- An entry that `RemoveOrphanedDirs` removes.
abbrev pub is_orphan : List Text → DirEntry → Bool
is_orphan valid e = is_key_entry e && not (any (eq_text e.name) valid)

abbrev pub remove_orphans : List Text → Dir → Dir
remove_orphans valid none = none
remove_orphans valid (some es) = some (select (λ e. not (is_orphan valid e)) es)

unfoldable pub remove_orphaned_dirs : List Dir → List Text → List Dir
remove_orphaned_dirs dirs valid = map (remove_orphans valid) dirs
