-- ===== src/Storage/Rclone/Stored.antt =====
-- What is done with the files of an upload, by the URI that the upload returned.
use opendebrid.Prelude.{
  ℕ, ◌≡◌, refl, subst, true, List, [], ◌∷◌, ◌++◌, Text, codes, In, inl, inr, All, has_prefix-append,
  trim_prefix-append,
}
use opendebrid.Prelude.Exec.{Result, ok, err, Exec, pure, lift, continue}
use opendebrid.Storage.Range.{Served, unsatisfiable, whole, partial}
use opendebrid.Storage.Range.{serve_file as ranged}
use opendebrid.Storage.Rclone.{
  Rclone, RcloneConfig, Commands, destination, cat_args, stream, upload, delete, list_files,
  serve_file,
}
use opendebrid.Storage.Uri.{
  is_remote_uri, remote_path, upload_uri, build_remote_file_uri, NotEndingIn,
  trim_right-NotEndingIn,
}

NotEndingIn-append :
    (c : ℕ) (s : Text) (x : ℕ) (t : Text) → NotEndingIn c (x ∷ t) → NotEndingIn c (s ++ x ∷ t)
NotEndingIn-append c [] x t h = h
NotEndingIn-append c (y ∷ []) x t h = h
NotEndingIn-append c (y ∷ z ∷ s) x t h = NotEndingIn-append c (z ∷ s) x t h

-- The directory of a storage key, which ends like the key.
NotEndingIn-upload_uri :
    (name base : Text) (c : ℕ) (key : Text)
    → NotEndingIn b'/' (c ∷ key)
    → NotEndingIn b'/' (upload_uri name base (c ∷ key))
unfolding upload_uri remote_path
NotEndingIn-upload_uri name base c key h =
    NotEndingIn-append b'/' (codes "rclone://" ++ (name ++ b':' ∷ base)) b'/' (c ∷ key) h

-- The commands that were run behind `h` all name `dest`.
abbrev pub Behind : Text → Commands → Commands → Type 0
Behind dest h h' = (new : Commands) × (h' ≡ new ++ h) × All (λ (args : List Text). In dest args) new

-- The state behind code that only answers.
kept :
    {S A B : Type 0} (r : Result A) (k : A → Exec S B) (s : S)
    → ((a : A) → (k a s).1 ≡ s)
    → (continue r k s).1 ≡ s
kept (ok a) k s h = h a
kept (err e) k s h = refl

returned :
    {S A B : Type 0} (r : Result A) (b b' : B) (s : S)
    → (continue r (λ a. pure b) s).0 ≡ ok b'
    → b ≡ b'
returned (ok a) b b' s h = cc
returned (err e) b b' s h = absurd (cc)

-- The file of a listing below an upload.
destination-build_remote_file_uri :
    (name base : Text) (k : ℕ) (key : Text) (c : ℕ) (path : Text)
    → NotEndingIn b'/' (k ∷ key)
    → destination (build_remote_file_uri (upload_uri name base (k ∷ key)) (c ∷ path))
      ≡ remote_path name base (k ∷ key) ++ b'/' ∷ c ∷ path
unfolding build_remote_file_uri upload_uri
destination-build_remote_file_uri name base k key c path h =
    let uri = upload_uri name base (k ∷ key) in
    rw (trim_right-NotEndingIn b'/' uri (NotEndingIn-upload_uri name base k key h))
      (trim_prefix-append (codes "rclone://") (remote_path name base (k ∷ key) ++ b'/' ∷ c ∷ path))

module _ (rc : Rclone) where
  -- A read of the size names the file.
  stream-Behind :
      (dest : Text) (r : Served) (args : List Text) (h : Commands)
      → In dest args
      → Behind dest h (stream rc dest r (args ∷ h)).1
  stream-Behind dest unsatisfiable args h m = (args ∷ [], refl, (m, tt))
  stream-Behind dest (whole n) args h m =
      let cat = cat_args rc dest 0 [] in
      (
        cat ∷ args ∷ [],
        kept (rc.starts (args ∷ h) cat) (λ u. pure (whole n)) (cat ∷ args ∷ h) (λ u. refl),
        (inr (inl refl), (m, tt)),
      )
  stream-Behind dest (partial r n) args h m =
      let cat = cat_args rc dest r.start (codes "--count" ∷ rc.format_int n ∷ []) in
      (
        cat ∷ args ∷ [],
        kept (rc.starts (args ∷ h) cat) (λ u. pure (partial r n)) (cat ∷ args ∷ h) (λ u. refl),
        (inr (inl refl), (m, tt)),
      )

  sized-Behind :
      (dest header : Text) (r : Result Text) (args : List Text) (h : Commands)
      → In dest args
      → (let p = continue r (λ out. lift (rc.parse_size out)) (args ∷ h) in
          Behind dest h (continue p.0 (λ size. stream rc dest (ranged header size)) p.1).1)
  sized-Behind dest header (err e) args h m = (args ∷ [], refl, (m, tt))
  sized-Behind dest header (ok out) args h m = parsed (rc.parse_size out)
    where
      parsed :
          (r : Result ℕ)
          → Behind dest h (continue r (λ size. stream rc dest (ranged header size)) (args ∷ h)).1
      parsed (err e) = (args ∷ [], refl, (m, tt))
      parsed (ok size) = stream-Behind dest (ranged header size) args h m

  serve_file-Behind :
      (dest header uri : Text) (h : Commands)
      → destination uri ≡ dest
      → Behind dest h (serve_file rc uri [] header h).1
  unfolding serve_file
  serve_file-Behind dest header uri h e =
      let args = codes "size" ∷ codes "--json" ∷ dest ∷ [] in
      rw e (sized-Behind dest header (rc.answer h args) args h (inr (inr (inl refl))))

  -- What is done with an upload: files that are listed and streamed, and the deletion of all, lie where
  -- it was copied to.
  pub record IsStored (dest uri : Text) (h : Commands) : Type 0 where
    pub remote : is_remote_uri uri ≡ true
    pub no_slash : NotEndingIn b'/' uri
    pub purged : (delete rc uri h).1 ≡ (codes "purge" ∷ dest ∷ []) ∷ h
    pub listed : (list_files rc uri h).1 ≡ (codes "lsjson" ∷ codes "--recursive" ∷ dest ∷ []) ∷ h
    pub streamed :
        (c : ℕ) (path header : Text)
        → Behind
            (dest ++ b'/' ∷ c ∷ path)
            h
            (serve_file rc (build_remote_file_uri uri (c ∷ path)) [] header h).1

  module _ (cfg : RcloneConfig) where
    upload_uri-IsStored :
        (c : ℕ) (key : Text) (h : Commands)
        → NotEndingIn b'/' (c ∷ key)
        → IsStored
            (remote_path cfg.remote_name cfg.base_path (c ∷ key))
            (upload_uri cfg.remote_name cfg.base_path (c ∷ key))
            h
    unfolding upload_uri is_remote_uri delete list_files
    upload_uri-IsStored c key h slash =
        let dest = remote_path cfg.remote_name cfg.base_path (c ∷ key) in
        let cut : destination (codes "rclone://" ++ dest) ≡ dest =
          trim_prefix-append (codes "rclone://") dest in
        record {
          remote = has_prefix-append (codes "rclone://") dest;
          no_slash = NotEndingIn-upload_uri cfg.remote_name cfg.base_path c key slash;
          purged = rw cut (kept (rc.answer h _) _ _ (λ out. refl));
          listed =
              rw cut
                (kept (rc.answer h _) _ _ (λ out. kept (rc.parse_entries out) _ _ (λ es. refl)));
          streamed = λ x path header.
              serve_file-Behind (dest ++ b'/' ∷ x ∷ path) header
                (build_remote_file_uri (upload_uri cfg.remote_name cfg.base_path (c ∷ key))
                  (x ∷ path))
                h
                (destination-build_remote_file_uri cfg.remote_name cfg.base_path c key x path
                  slash);
        }

    -- Where an upload for a storage key that does not end in a slash returns a URI, the command has copied the
    -- directory to the one of the key; the URI is a remote one that does not end in a slash, deleting it
    -- purges that directory, listing its files lists that directory, and serving the URI that is built for
    -- a path runs commands for the file of this path in that directory only.
    pub upload-IsStored :
        (dir : Text) (c : ℕ) (key uri : Text) (h : Commands)
        → NotEndingIn b'/' (c ∷ key)
        → (upload rc cfg dir (c ∷ key) h).0 ≡ ok uri
        → (let dest = remote_path cfg.remote_name cfg.base_path (c ∷ key) in
            ((upload rc cfg dir (c ∷ key) h).1 ≡ (codes "copy" ∷ dir ∷ dest ∷ []) ∷ h)
            × ((h' : Commands) → IsStored dest uri h'))
    unfolding upload
    upload-IsStored dir c key uri h slash e =
        let dest = remote_path cfg.remote_name cfg.base_path (c ∷ key) in
        let own = upload_uri cfg.remote_name cfg.base_path (c ∷ key) in
        let copy = codes "copy" ∷ dir ∷ dest ∷ [] in
        (
          kept (rc.answer h copy) (λ out. pure own) (copy ∷ h) (λ out. refl),
          λ h'.
              subst (λ u. IsStored dest u h') (returned (rc.answer h copy) own uri (copy ∷ h) e)
                (upload_uri-IsStored c key h' slash),
        )
