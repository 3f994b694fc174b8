-- ===== src/Node/Server/Located.antt =====
-- Where a dispatched job's files are said to be.
use mathlib.Core.List.{append_assoc, append-nil}
use opendebrid.Prelude.{
  ◌≡◌, refl, sym, ap, ◌∙◌, some, List, [], ◌∷◌, ◌++◌, Text, codes, trim_prefix, trim_prefix-through,
}
use opendebrid.Prelude.Exec.{Err, ok}
use opendebrid.Grpc.Handlers.{local_prefix}
use opendebrid.Node.Server.{Engine, NodeServer, added, dispatch_job}
use opendebrid.Node.Tracker.{Tracker}
use opendebrid.Storage.Path.{join, print}
use opendebrid.Storage.Path.Normal.{AreNormal, AreNormal-append, print-append, join-print}
use opendebrid.World.{DispatchRequest}

-- The directory of an engine below a download directory, as the configuration sets it up.
abbrev pub below : Text → Text → Text
below dir name = dir ++ b'/' ∷ name

module _ (b : Text) (bs : List Text) (name key : Text) (h : AreNormal (b ∷ bs))
    (k : AreNormal (name ∷ key ∷ [])) where
  engine_dir : below (print (b ∷ bs)) name ≡ print (b ∷ bs ++ name ∷ [])
  engine_dir =
      ap (λ t. print (b ∷ bs) ++ b'/' ∷ t) (sym (append-nil name))
      ∙ sym (print-append (b ∷ bs) (name ∷ []))

  pub job_dir :
      join (below (print (b ∷ bs)) name) key ≡ print (b ∷ bs) ++ b'/' ∷ local_prefix name key
  job_dir =
      ap (λ d. join d key) engine_dir
      ∙ (ap (λ t. join (print (b ∷ bs ++ name ∷ [])) t) (sym (append-nil key))
          ∙ (join-print b (bs ++ name ∷ []) key []
                (AreNormal-append (b ∷ bs) (name ∷ []) h (k.0, tt)) k.1
              ∙ (ap print (append_assoc (b ∷ bs) (name ∷ []) (key ∷ []))
                  ∙ (print-append (b ∷ bs) (name ∷ key ∷ [])
                      ∙ ap (λ t. print (b ∷ bs) ++ b'/' ∷ (name ++ b'/' ∷ t)) (append-nil key)))))

module _ (error_text : Err → Text) (s : NodeServer) (eng : Engine) (req : DispatchRequest)
    (id : Text) (t : Tracker) where
  dispatch_job-added :
      s.registry req.engine ≡ some eng
      → eng.add_job req ≡ ok id
      → dispatch_job error_text s req t ≡ added error_text s eng req (ok id) t
  unfolding dispatch_job
  dispatch_job-added e f = rw (e, f) refl

  -- Where the engine takes the job and its directory is the one of its name below the download directory,
  -- as the configuration sets it by default, the reported location is "file://" and the prefix by which the
  -- controller finds the job's links after an upload; the names must be normal path components.
  pub dispatch_job-location :
      (b : Text) (bs : List Text)
      → AreNormal (b ∷ bs)
      → AreNormal (req.engine ∷ req.storage_key ∷ [])
      → s.download_dir ≡ print (b ∷ bs)
      → eng.download_dir ≡ below (print (b ∷ bs)) req.engine
      → s.registry req.engine ≡ some eng
      → eng.add_job req ≡ ok id
      → (dispatch_job error_text s req t).0.0.file_location
        ≡ codes "file://" ++ local_prefix req.engine req.storage_key
  dispatch_job-location b bs h k dir edir e f =
      let base = print (b ∷ bs) in
      ap (λ d. d.0.0.file_location) (dispatch_job-added e f)
      ∙ ap (λ l. codes "file://" ++ l)
          (ap (λ p. trim_prefix p (s.download_dir ++ b'/' ∷ []))
              (ap (λ d. join d req.storage_key) edir ∙ job_dir b bs req.engine req.storage_key h k)
            ∙ (ap
                  (λ d.
                    trim_prefix (base ++ b'/' ∷ local_prefix req.engine req.storage_key)
                      (d ++ b'/' ∷ []))
                  dir
                ∙ trim_prefix-through base b'/' (local_prefix req.engine req.storage_key)))
