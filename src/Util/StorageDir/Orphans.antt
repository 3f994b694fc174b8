-- ===== src/Util/StorageDir/Orphans.antt =====
-- Which keys a scan finds and which directories the clean-up removes.
use opendebrid.Prelude.{
  ◌≡◌, refl, sym, ap, ◌∙◌, Bool, true, false, not, ◌&&◌, ◌||◌, none, some, List, [], ◌∷◌, ◌++◌,
  Text, eq_text, eq_text_iff, any, any-append, select, arith, if◌then◌else◌,
}
use opendebrid.Util.StorageDir.{
  DirEntry, Dir, is_key_entry, scan_entries, entries_of, scan_dirs, scan_storage_keys, is_orphan,
  remove_orphans, remove_orphaned_dirs,
}

-- A directory with the key's name stands in one of the download directories.
abbrev pub named : Text → DirEntry → Bool
named k e = is_key_entry e && eq_text k e.name

abbrev pub holds_key : Text → List Dir → Bool
holds_key k dirs = any (λ d. any (named k) (entries_of d)) dirs

-- What is in the set already is not lost by leaving out its copy.
seen_again :
    (k n : Text) (seen : List Text)
    → eq_text k n ≡ true
    → any (eq_text n) seen ≡ any (eq_text k) seen
seen_again k n seen h = ap (λ x. any (eq_text x) seen) (sym ((eq_text_iff k n).0 h))

scan_entries-any :
    (k : Text) (seen : List Text) (es : List DirEntry)
    → any (eq_text k) (scan_entries seen es) ≡ (any (eq_text k) seen || any (named k) es)
unfolding scan_entries
scan_entries-any k seen [] = ground arith
scan_entries-any k seen (e ∷ es) =
    scan_entries-any k
      (if is_key_entry e && not (any (eq_text e.name) seen) then seen ++ e.name ∷ [] else seen) es
    ∙ ground (arith, any-append (eq_text k) seen (e.name ∷ []), seen_again k e.name seen)

scan_dirs-any :
    (k : Text) (seen : List Text) (dirs : List Dir)
    → any (eq_text k) (scan_dirs seen dirs) ≡ (any (eq_text k) seen || holds_key k dirs)
unfolding scan_dirs
scan_dirs-any k seen [] = ground arith
scan_dirs-any k seen (d ∷ ds) =
    scan_dirs-any k (scan_entries seen (entries_of d)) ds
    ∙ ground (arith, scan_entries-any k seen (entries_of d))

-- The scan reports a key exactly when a directory of that name stands in one of the directories.
pub scan_storage_keys-any :
    (k : Text) (dirs : List Dir) → any (eq_text k) (scan_storage_keys dirs) ≡ holds_key k dirs
unfolding scan_storage_keys
scan_storage_keys-any k dirs = scan_dirs-any k [] dirs

any-select :
    (t u : DirEntry → Bool) (es : List DirEntry)
    → ((e : DirEntry) → t e ≡ true → u e ≡ true)
    → any t (select u es) ≡ any t es
any-select t u [] h = refl
any-select t u (e ∷ es) h = ground (arith, any-select t u es h, h e)

valid_stays :
    (k : Text) (valid : List Text) (e : DirEntry)
    → any (eq_text k) valid ≡ true
    → named k e ≡ true
    → not (is_orphan valid e) ≡ true
valid_stays k valid e h m = ground (arith, seen_again k e.name valid)

remove_orphans-valid :
    (k : Text) (valid : List Text) (d : Dir)
    → any (eq_text k) valid ≡ true
    → any (named k) (entries_of (remove_orphans valid d)) ≡ any (named k) (entries_of d)
remove_orphans-valid k valid none h = refl
remove_orphans-valid k valid (some es) h =
    any-select (named k) (λ e. not (is_orphan valid e)) es (λ e m. valid_stays k valid e h m)

any-select-none :
    (t u : DirEntry → Bool) (es : List DirEntry)
    → ((e : DirEntry) → t e ≡ true → u e ≡ false)
    → any t (select u es) ≡ false
any-select-none t u [] h = refl
any-select-none t u (e ∷ es) h = ground (arith, any-select-none t u es h, h e)

invalid_goes :
    (k : Text) (valid : List Text) (e : DirEntry)
    → any (eq_text k) valid ≡ false
    → named k e ≡ true
    → not (is_orphan valid e) ≡ false
invalid_goes k valid e h m = ground (arith, seen_again k e.name valid)

remove_orphans-invalid :
    (k : Text) (valid : List Text) (d : Dir)
    → any (eq_text k) valid ≡ false
    → any (named k) (entries_of (remove_orphans valid d)) ≡ false
remove_orphans-invalid k valid none h = refl
remove_orphans-invalid k valid (some es) h =
    any-select-none (named k) (λ e. not (is_orphan valid e)) es (λ e m. invalid_goes k valid e h m)

-- After the clean-up the directories of the valid keys stand as before, and those of no other key.
pub holds_key-remove_orphaned_dirs :
    (k : Text) (dirs : List Dir) (valid : List Text)
    → holds_key k (remove_orphaned_dirs dirs valid) ≡ (any (eq_text k) valid && holds_key k dirs)
unfolding remove_orphaned_dirs
holds_key-remove_orphaned_dirs k [] valid = ground arith
holds_key-remove_orphaned_dirs k (d ∷ ds) valid = ground (
  arith,
  holds_key-remove_orphaned_dirs k ds valid,
  remove_orphans-valid k valid d,
  remove_orphans-invalid k valid d,
)
