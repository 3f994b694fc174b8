-- ===== src/Engine/Scanned.antt =====
-- A link to a scanned file, and what the file server opens for it.
use mathlib.Core.List.{append_assoc}
use opendebrid.Prelude.{
  ◌≡◌, refl, sym, ap, ◌∙◌, subst, Bool, false, ◌&&◌, Option, none, some, List, [], ◌∷◌, ◌++◌, map,
  Text, codes, is_empty, has_prefix, has_prefix-split, has_prefix-through, trim_prefix,
  trim_prefix-append, trim_prefix-through, drop, All, if◌then◌else◌, Bool-cases, inl, inr,
}
use opendebrid.Prelude.Exec.{ok}
use opendebrid.Engine.{
  FileInfo, FileTree, Entries, file, folder, unreadable, nil, entry, Found, both, walk,
  walk_entries, file_info, scanned, scan_files,
}
use opendebrid.FileServer.{
  Answer, from_disk, from_remote, invalid_path, not_found, local_answer, answer,
}
use opendebrid.Service.Links.{LinkEnv, stored_uri}
use opendebrid.Storage.Path.{clean, join, print, print_relative, split}
use opendebrid.Storage.Path.Normal.{
  AreNormal, IsNormal, AreNormal-append, print-append, clean-print_relative, join-print,
  split-print,
}
use opendebrid.Storage.Uri.{is_remote_uri, uri_to_path}

-- The names in a tree are those that a file system allows.
unfoldable mutual
  pub HasNames : FileTree → Type 0
  HasNames (file size) = Unit
  HasNames (folder es) = HaveNames es
  HasNames unreadable = Unit

  pub HaveNames : Entries → Type 0
  HaveNames nil = Unit
  HaveNames (entry name t es) = IsNormal name × HasNames t × HaveNames es

both-All :
    (P : Found → Type 0) (a b : Option (List Found))
    → ((fs : List Found) → a ≡ some fs → All P fs)
    → ((fs : List Found) → b ≡ some fs → All P fs)
    → (fs : List Found) → both a b ≡ some fs
    → All P fs
both-All P (some xs) (some ys) h k fs e =
    subst (All P) {x = xs ++ ys} {y = fs} (cc) (All-append xs (h xs refl))
  where
    All-append : (xs : List Found) → All P xs → All P (xs ++ ys)
    All-append [] p = k ys refl
    All-append (x ∷ xs) p = (p.0, All-append xs p.1)
both-All P (some xs) none h k fs e = absurd (cc)
both-All P none b h k fs e = absurd (cc)

-- What a walk finds has normal names on its way.
abbrev pub OnNormal : Found → Type 0
OnNormal f = AreNormal f.0

mutual
  unfolding walk HasNames

  walk-OnNormal :
      (names : List Text) (t : FileTree)
      → AreNormal names
      → HasNames t
      → (fs : List Found) → walk names t ≡ some fs
      → All OnNormal fs
  walk-OnNormal names (file size) n h fs e =
      subst (All OnNormal) {x = (names, size) ∷ []} {y = fs} (cc) (n, tt)
  walk-OnNormal names (folder es) n h fs e = walk_entries-OnNormal names es n h fs e
  walk-OnNormal names unreadable n h fs e = absurd (cc)

  walk_entries-OnNormal :
      (names : List Text) (es : Entries)
      → AreNormal names
      → HaveNames es
      → (fs : List Found) → walk_entries names es ≡ some fs
      → All OnNormal fs
  walk_entries-OnNormal names nil n h fs e = subst (All OnNormal) {x = []} {y = fs} (cc) tt
  walk_entries-OnNormal names (entry name t es) n h fs e =
      both-All OnNormal (walk (names ++ name ∷ []) t) (walk_entries names es)
        (walk-OnNormal (names ++ name ∷ []) t (AreNormal-append names (name ∷ []) n (h.0, tt)) h.1)
        (walk_entries-OnNormal names es n h.2) fs e

AreNormal-no_empty : (x : Text) (xs : List Text) → AreNormal (x ∷ [] ∷ xs) → ⊥
unfolding is_empty
AreNormal-no_empty x xs n = cc (n.1.0.not_dot)

-- A relative path of normal names is no remote URI.
is_remote_uri-print_relative :
    (r : Text) (rs : List Text)
    → AreNormal (r ∷ rs)
    → is_remote_uri (print_relative (r ∷ rs)) ≡ false
unfolding is_remote_uri
is_remote_uri-print_relative r rs h =
    elim (Bool-cases (has_prefix (print_relative (r ∷ rs)) (codes "rclone://"))) [
      | inr e ↦ e
      | inl e ↦
          let rest = drop 9 (print_relative (r ∷ rs)) in
          let twice : split (print_relative (r ∷ rs)) ≡ codes "rclone:" ∷ [] ∷ split rest =
            ap split (has_prefix-split (print_relative (r ∷ rs)) (codes "rclone://") e) in
          let same : r ∷ rs ≡ codes "rclone:" ∷ [] ∷ split rest =
            sym (split-print r rs h.0.no_slash h.1) ∙ twice in
          absurd (AreNormal-no_empty (codes "rclone:") (split rest) (subst AreNormal same h))
    ]

module _ (b : Text) (bs : List Text) (r : Text) (rs : List Text) (h : AreNormal (b ∷ bs))
    (k : AreNormal (r ∷ rs)) where
  stored_uri-print :
      (env : LinkEnv)
      → env.download_dir ≡ print (b ∷ bs)
      → stored_uri env (codes "file://" ++ (print (b ∷ bs) ++ print (r ∷ rs)))
        ≡ print_relative (r ∷ rs)
  unfolding is_remote_uri has_prefix
  stored_uri-print env d =
      let pr = print_relative (r ∷ rs) in
      ap (λ t. trim_prefix t (env.download_dir ++ b'/' ∷ []))
        (trim_prefix-append (codes "file://") (print (b ∷ bs) ++ b'/' ∷ pr))
      ∙ (ap (λ d. trim_prefix (print (b ∷ bs) ++ b'/' ∷ pr) (d ++ b'/' ∷ [])) d
          ∙ trim_prefix-through (print (b ∷ bs)) b'/' pr)

  answer-print_relative :
      (has_remote : Bool) (exists : Text → Bool)
      → (let full = print (b ∷ bs) ++ print (r ∷ rs) in
          answer (print (b ∷ bs)) has_remote exists (ok (print_relative (r ∷ rs)))
          ≡ (if exists full then from_disk full else not_found))
  unfolding local_answer
  answer-print_relative has_remote exists =
      let base = print (b ∷ bs) in
      let pr = print_relative (r ∷ rs) in
      let opened : join base (clean pr) ≡ base ++ b'/' ∷ pr =
        ap (join base) (clean-print_relative r rs k)
        ∙ (join-print b bs r rs h k ∙ print-append (b ∷ bs) (r ∷ rs)) in
      ap (λ c. if c && has_remote then from_remote pr else local_answer base has_remote exists pr)
        (is_remote_uri-print_relative r rs k)
      ∙ (ap
            (λ f.
              if has_prefix f (base ++ b'/' ∷ [])
              then (if exists f then from_disk f else not_found)
              else invalid_path)
            opened
          ∙ ap
              (λ c.
                if c
                then (if exists (base ++ b'/' ∷ pr)
                    then from_disk (base ++ b'/' ∷ pr)
                    else not_found)
                else invalid_path)
              (has_prefix-through base b'/' pr))

module _ (b : Text) (bs : List Text) (r : Text) (rs : List Text) (h : AreNormal (b ∷ bs))
    (k : AreNormal (r ∷ rs)) (env : LinkEnv) (same_dir : env.download_dir ≡ print (b ∷ bs))
    (has_remote : Bool) (exists : Text → Bool) where
  -- The server answers a link to the file with the file.
  abbrev pub IsServed : FileInfo → Type 0
  IsServed f =
      let path = uri_to_path f.storage_uri in
      answer (print (b ∷ bs)) has_remote exists (ok (stored_uri env f.storage_uri))
      ≡ (if exists path then from_disk path else not_found)

  file_info-IsServed :
      (f : Found) → OnNormal f → IsServed (file_info (print (b ∷ bs) ++ print (r ∷ rs)) f)
  unfolding uri_to_path
  file_info-IsServed f n =
      let base = print (b ∷ bs) in
      let below = base ++ print (r ∷ (rs ++ f.0)) in
      let whole : (base ++ print (r ∷ rs)) ++ print f.0 ≡ below =
        append_assoc base (print (r ∷ rs)) (print f.0)
        ∙ ap (λ t. base ++ t) (sym (print-append (r ∷ rs) f.0)) in
      let normal = AreNormal-append (r ∷ rs) f.0 k n in
      let at_path : Text → Answer = λ p. if exists p then from_disk p else not_found in
      subst
        (λ t.
          answer base has_remote exists (ok (stored_uri env (codes "file://" ++ t)))
          ≡ at_path (uri_to_path (codes "file://" ++ t)))
        (sym whole)
        (ap (λ u. answer base has_remote exists (ok u))
            (stored_uri-print b bs r (rs ++ f.0) h normal env same_dir)
          ∙ (answer-print_relative b bs r (rs ++ f.0) h normal has_remote exists
              ∙ sym (ap at_path (trim_prefix-append (codes "file://") below))))

  map-IsServed :
      (fs : List Found)
      → All OnNormal fs
      → All IsServed (map (file_info (print (b ∷ bs) ++ print (r ∷ rs))) fs)
  map-IsServed [] n = tt
  map-IsServed (f ∷ fs) n = (file_info-IsServed f n.0, map-IsServed fs n.1)

  scanned-IsServed :
      (o : Option (List Found)) (files : List FileInfo)
      → ((fs : List Found) → o ≡ some fs → All OnNormal fs)
      → scanned (print (b ∷ bs) ++ print (r ∷ rs)) o ≡ ok files
      → All IsServed files
  scanned-IsServed none files n e = absurd (cc)
  scanned-IsServed (some fs) files n e =
      subst (All IsServed) {x = map (file_info (print (b ∷ bs) ++ print (r ∷ rs))) fs} {y = files}
        (cc) (map-IsServed fs (n fs refl))

  -- A directory below the download directory, both of normal names, is scanned: the file server answers the
  -- stored URI of each file that the scan lists with the path that the scan saw, or "not found" where there
  -- is no file any more.
  pub scan_files-IsServed :
      (t : FileTree) (files : List FileInfo)
      → HasNames t
      → scan_files (print (b ∷ bs) ++ print (r ∷ rs)) t ≡ ok files
      → All IsServed files
  unfolding scan_files
  scan_files-IsServed t files n = scanned-IsServed (walk [] t) files (walk-OnNormal [] t tt n)
