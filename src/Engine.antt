-- ===== src/Engine.antt =====
-- What the engines share (internal/core/engine/engine.go). A directory that `ScanFiles` walks is a tree
-- with its entries in lexical order.
pub mod Aria2
pub mod Scanned
pub mod Ytdlp
use opendebrid.Prelude.{ℕ, Option, none, some, List, [], ◌∷◌, ◌++◌, map, Text, codes}
use opendebrid.Prelude.Exec.{Result, ok, err, remote}
use opendebrid.Storage.Path.{print, print_relative}

-- Without the content type, which no engine sets.
pub record FileInfo : Type 0 where
  pub path : Text
  pub size : ℕ
  pub storage_uri : Text

-- `unreadable` is a directory whose entries cannot be read.
mutual
  pub data FileTree : Type 0 where
    file : ℕ → FileTree
    folder : Entries → FileTree
    unreadable : FileTree

  pub data Entries : Type 0 where
    nil : Entries
    entry : Text → FileTree → Entries → Entries

-- A file below the directory: the names that lead to it, and its size.
abbrev pub Found : Type 0
Found = List Text × ℕ

abbrev pub both : Option (List Found) → Option (List Found) → Option (List Found)
both (some xs) (some ys) = some (xs ++ ys)
both _ _ = none

-- `filepath.WalkDir`, from the names that lead to the tree.
unfoldable mutual
  pub walk : List Text → FileTree → Option (List Found)
  walk names (file size) = some ((names, size) ∷ [])
  walk names (folder es) = walk_entries names es
  walk names unreadable = none

  pub walk_entries : List Text → Entries → Option (List Found)
  walk_entries names nil = some []
  walk_entries names (entry name t es) = both (walk (names ++ name ∷ []) t) (walk_entries names es)

-- `filepath.Rel` of the path below the directory.
abbrev pub relative : List Text → Text
relative [] = codes "."
relative (p ∷ ps) = print_relative (p ∷ ps)

abbrev pub file_info : Text → Found → FileInfo
file_info dir f = record {
  path = relative f.0;
  size = f.1;
  storage_uri = codes "file://" ++ (dir ++ print f.0);
}

abbrev pub scanned : Text → Option (List Found) → Result (List FileInfo)
scanned dir none = err (remote (codes "walk"))
scanned dir (some fs) = ok (map (file_info dir) fs)

-- `unreadable` stands for a directory that is not there, too.
unfoldable pub scan_files : Text → FileTree → Result (List FileInfo)
unfolding walk
scan_files dir t = scanned dir (walk [] t)
