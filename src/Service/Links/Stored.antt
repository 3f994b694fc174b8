-- ===== src/Service/Links/Stored.antt =====
-- What a token of `GenerateLink` (internal/core/service/download.go) leads to.
use opendebrid.Prelude.{
  ℕ, ◌<◌, ◌≡◌, refl, ap, subst, ◌∙◌, Bool, true, false, not, ◌&&◌, List, [], ◌∷◌, Text, eq_text,
  eq_text_refl, eq_text_iff, is_empty, any, find, find-test, Option, none, some, arith, lt→ltb,
  ◌==◌, Bool-cases, inl, inr,
}
use opendebrid.Prelude.Ensures.{Ensures, Ensures-bind, Ensures-if, Ensures-any}
use opendebrid.Prelude.Exec.{
  Err, Result, ok, err, not_completed, file_not_found, pure, lift, ◌>>=◌, ◌>>◌,
}
use opendebrid.Database.Model.{DownloadLink, Db, is_completed, one_row}
use opendebrid.Database.Nodes.{get_node}
use opendebrid.Database.Uploads.{
  CreateLinkParams, new_link, usable, create_download_link, get_download_link_by_token,
}
use opendebrid.Engine.{FileInfo}
use opendebrid.FileServer.{resolve_token, count_if}
use opendebrid.Scheduler.{select_node}
use opendebrid.Service.Links.{
  LinkEnv, ListFilesResult, GenerateLinkRequest, GenerateLinkResult, has_path, uri_of, stored_uri,
  require, link_url, filename_of, time_now, any_node, link_params, link_result, save_link,
  new_link_at, streaming_link, local_link, signed_link, link_to, link_in, list_files, generate_link,
}
use opendebrid.Storage.Uri.{is_remote_uri}
use opendebrid.World.{World, OnDb, query, Ensures-query}

-- The world at another time, with no connection lost.
abbrev pub at_time : ℕ → World → World
at_time now w = record w { db = record w.db { clock = now }; faults = [] }

-- In the world the token leads to the URI until the link expires.
abbrev pub LeadsTo : Text → GenerateLinkResult → World → Type 0
LeadsTo uri r w =
    (now : ℕ) (counted : Bool)
    → now < r.expires_at
    → (resolve_token r.token counted (at_time now w)).0 ≡ ok uri

-- The link stands first among the links.
abbrev pub First : CreateLinkParams → Db → Type 0
First p db =
    (l : DownloadLink) × (ls : List DownloadLink) × (db.links ≡ l ∷ ls)
    × (l.token ≡ p.token)
    × (l.expires_at ≡ p.expires_at)
    × (l.storage_uri ≡ p.storage_uri)

create_download_link-First :
    (p : CreateLinkParams) (db : Db) (l : DownloadLink)
    → (create_download_link p db).0 ≡ ok l
    → First p (create_download_link p db).1
unfolding create_download_link
create_download_link-First p db l h =
    elim (Bool-cases (any (λ x. eq_text x.token p.token) db.links)) [
      | inl dup ↦ cc (rw dup at h)
      | inr new ↦
          elim (Bool-cases
            (any (λ d. d.id == p.download_id) db.downloads && any (λ u. u == p.user_id) db.users)) [
              | inr gone ↦ cc (rw (new, gone) at h)
              | inl there ↦ rw (new, there) (new_link p db, db.links, refl, refl, refl, refl)
            ]
    ]

-- Whether counting the access succeeds does not matter.
counted-ok :
    (b : Bool) (token uri : Text) (w : World) → ((do count_if b token; pure uri) w).0 ≡ ok uri
counted-ok true token uri w = refl
counted-ok false token uri w = refl

First-LeadsTo :
    (p : CreateLinkParams) (w : World) (url : Text)
    → First p w.db
    → LeadsTo p.storage_uri (record { url = url; token = p.token; expires_at = p.expires_at }) w
unfolding resolve_token get_download_link_by_token
First-LeadsTo p w url (l, ls, e, t, x, u) now counted lt =
    let good : usable now p.token l ≡ true =
      rw (t, x) (rw (eq_text_refl p.token, lt→ltb now p.expires_at lt) refl) in
    let found : one_row (find (usable now p.token) w.db.links) ≡ ok l = rw (e, good) refl in
    rw found (counted-ok counted p.token l.storage_uri (at_time now w) ∙ ap ok u)

-- Where a token is given, it leads to the URI.
abbrev pub Works : Text → GenerateLinkResult → World → Type 0
Works uri r w = is_empty r.token ≡ false → LeadsTo uri r w

abbrev Anywhere : World → Type 0
Anywhere w = Unit

module _ (env : LinkEnv) (req : GenerateLinkRequest) (uri : Text) where
  save_link-Works :
      (endpoint token : Text) (now : ℕ)
      → Ensures Anywhere (save_link env req uri endpoint token now) (Works (stored_uri env uri))
  save_link-Works endpoint token now =
      let p = link_params env req uri token now in
      Ensures-bind Anywhere (λ _. OnDb (First p)) (Works (stored_uri env uri))
        (query (create_download_link p)) _
        (Ensures-query (λ _. Unit) (λ _. First p) (create_download_link p)
          (λ db _. create_download_link-First p db))
        (λ l w first r e t.
          subst (λ r. LeadsTo (stored_uri env uri) r w) {x = link_result env req endpoint token now}
            {y = r} (cc) (First-LeadsTo p w (link_url endpoint token (filename_of env req)) first))

  new_link_at-Works :
      (endpoint : Text)
      → Ensures Anywhere (new_link_at env req uri endpoint) (Works (stored_uri env uri))
  unfolding new_link_at
  new_link_at-Works endpoint =
      Ensures-bind Anywhere (λ _. Anywhere) (Works (stored_uri env uri)) (lift env.random_token)
        (λ token. time_now >>= save_link env req uri endpoint token)
        (Ensures-any (lift env.random_token))
        λ token.
          Ensures-bind Anywhere (λ _. Anywhere) (Works (stored_uri env uri)) time_now
            (save_link env req uri endpoint token) (Ensures-any time_now)
            (save_link-Works endpoint token)

  streaming_link-Works : Ensures Anywhere (streaming_link env req uri) (Works (stored_uri env uri))
  streaming_link-Works =
      Ensures-bind Anywhere (λ _. Anywhere) (Works (stored_uri env uri))
        (select_node env.parse_engines any_node) _
        (Ensures-any (select_node env.parse_engines any_node)) (λ s. new_link_at-Works s.endpoint)

  local_link-Works :
      (node : Text) → Ensures Anywhere (local_link env req uri node) (Works (stored_uri env uri))
  local_link-Works node =
      Ensures-bind Anywhere (λ _. Anywhere) (Works (stored_uri env uri)) (query (get_node node)) _
        (Ensures-any (query (get_node node))) (λ row. new_link_at-Works row.file_endpoint)

  signed_link-Works :
      (r : Result Text) → Ensures Anywhere (signed_link env req uri r) (Works (stored_uri env uri))
  unfolding is_empty
  signed_link-Works (ok url) w p r e t = absurd (cc)
  signed_link-Works (err x) w p r e t = streaming_link-Works w p r e t

  link_to-Works :
      (node : Text) → Ensures Anywhere (link_to env req uri node) (Works (stored_uri env uri))
  unfolding link_to
  link_to-Works node =
      Ensures-if Anywhere (Works (stored_uri env uri)) (is_remote_uri uri) _ _
        (Ensures-if Anywhere (Works (stored_uri env uri)) (env.has_storage && env.has_url) _ _
          (signed_link-Works (env.generate_url uri)) streaming_link-Works)
        (local_link-Works node)

Ensures-require : (b : Bool) (e : Err) → Ensures Anywhere (require b e) (λ _ _. b ≡ true)
Ensures-require true e w p a h = refl
Ensures-require false e w p a h = absurd (cc)

module _ (env : LinkEnv) (req : GenerateLinkRequest) where
  -- The listing is there, of a completed job, and has a file with the path and a URI; it is the first
  -- with the path, and a token leads to its stored URI.
  abbrev pub Granted : Result ListFilesResult → GenerateLinkResult → World → Type 0
  Granted listed r w =
      (result : ListFilesResult) × (f : FileInfo) × (listed ≡ ok result)
      × (is_completed result.status ≡ true)
      × (find (has_path req.file_path) result.files ≡ some f)
      × (f.path ≡ req.file_path)
      × (is_empty f.storage_uri ≡ false)
      × Works (stored_uri env f.storage_uri) r w

  -- A URI that is not empty is that of a file.
  listed_file :
      (files : List FileInfo) (r : GenerateLinkResult) (w : World)
      → (let uri = uri_of (find (has_path req.file_path) files) in
          not (is_empty uri) ≡ true
          → Works (stored_uri env uri) r w
          → (f : FileInfo) × (find (has_path req.file_path) files ≡ some f)
            × (f.path ≡ req.file_path)
            × (is_empty f.storage_uri ≡ false)
            × Works (stored_uri env f.storage_uri) r w)
  unfolding is_empty
  listed_file files r w full works = found (find (has_path req.file_path) files) refl full works
    where
      found :
          (o : Option FileInfo)
          → find (has_path req.file_path) files ≡ o
          → not (is_empty (uri_of o)) ≡ true
          → Works (stored_uri env (uri_of o)) r w
          → (f : FileInfo) × (o ≡ some f)
            × (f.path ≡ req.file_path)
            × (is_empty f.storage_uri ≡ false)
            × Works (stored_uri env f.storage_uri) r w
      found none e full works = absurd (cc)
      found (some f) e full works = (
        f,
        refl,
        (eq_text_iff f.path req.file_path).0 (find-test (has_path req.file_path) files f e),
        ground (arith, full),
        works,
      )

  link_in-Granted :
      (listed : Result ListFilesResult) → Ensures Anywhere (link_in env req listed) (Granted listed)
  link_in-Granted (err e) = λ w p r h. absurd (cc)
  link_in-Granted (ok result) =
      let uri = uri_of (find (has_path req.file_path) result.files) in
      Ensures-bind Anywhere (λ _ _. is_completed result.status ≡ true) (Granted (ok result))
        (require (is_completed result.status) not_completed)
        (λ _. require (not (is_empty uri)) file_not_found >> link_to env req uri result.node_id)
        (Ensures-require (is_completed result.status) not_completed)
        (λ _.
          Ensures-bind (λ _. is_completed result.status ≡ true)
            (λ _ _. (is_completed result.status ≡ true) × (not (is_empty uri) ≡ true))
            (Granted (ok result)) (require (not (is_empty uri)) file_not_found)
            (λ _. link_to env req uri result.node_id)
            (λ w done a e. (done, Ensures-require (not (is_empty uri)) file_not_found w tt a e))
            (λ _ w p r e.
              let (f, found, path, full, works) =
                listed_file result.files r (link_to env req uri result.node_id w).1 p.1
                  (link_to-Works env req uri result.node_id w tt r e) in
              (result, f, refl, p.0, found, path, full, works)))

  -- Where a link is given, the download's files were listed, its job is completed, and one of the files has
  -- the path and a URI; where the link has a token, it leads, until the link expires, to the stored URI of the
  -- first of these files.
  pub generate_link-Granted :
      (w : World) (r : GenerateLinkResult)
      → (generate_link env req w).0 ≡ ok r
      → Granted (list_files env req.download_id req.user_id w).0 r (generate_link env req w).1
  unfolding generate_link
  generate_link-Granted w r e =
      link_in-Granted (list_files env req.download_id req.user_id w).0
        (list_files env req.download_id req.user_id w).1 tt r e
