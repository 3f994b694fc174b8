-- ===== src/FileServer.antt =====
-- The file server (internal/core/fileserver/server.go), with the token resolver of the controller. What
-- the disk and the remote provider answer are parameters.
pub mod Inside
use opendebrid.Prelude.{
  ℕ, Bool, true, false, not, ◌&&◌, ◌||◌, Option, none, some, List, [], ◌∷◌, ◌++◌, Text, codes,
  eq_text, has_prefix, trim_prefix, is_empty, ◌==◌, if◌then◌else◌,
}
use opendebrid.Prelude.Exec.{Result, ok, err, Exec, pure, attempt, ◌>>=◌, ◌>>◌}
use opendebrid.Database.Uploads.{get_download_link_by_token, increment_link_access}
use opendebrid.Database.NodeStatus.{logged}
use opendebrid.Storage.Path.{clean, join}
use opendebrid.Storage.Uri.{is_remote_uri}
use opendebrid.World.{World, query}

abbrev pub count_if : Bool → Text → Exec World Unit
count_if true token = logged (query (increment_link_access token))
count_if false token = pure tt

-- `DBTokenResolver.ResolveToken`
unfoldable pub resolve_token : Text → Bool → Exec World Text
resolve_token token increment = do
  link ← query (get_download_link_by_token token)
  count_if increment token
  pure link.storage_uri

-- The Range header of the request, empty where there is none.
abbrev pub is_initial_request : Text → Bool
is_initial_request range = is_empty range || eq_text range (codes "bytes=0-")

pub data Answer : Type 0 where
  missing_token forbidden invalid_path not_found : Answer
  from_remote : Text → Answer
  from_disk : Text → Answer

-- `strings.SplitN(path, "/", 2)[0]`
pub before_slash : Text → Text
before_slash [] = []
before_slash (c ∷ s) = let rest = before_slash s in if c == b'/' then [] else c ∷ rest

unfoldable pub token_of : Text → Text
unfolding before_slash
token_of path = before_slash (trim_prefix path (codes "/dl/"))

module _ (base : Text) (has_remote : Bool) (exists : Text → Bool) where
  -- The path on the disk, and the test that it lies below `base`.
  unfoldable pub local_answer : Text → Answer
  local_answer uri =
      let full = join base (clean uri) in
      if has_prefix full (base ++ b'/' ∷ [])
      then (if exists full then from_disk full else not_found)
      else invalid_path

  abbrev pub answer : Result Text → Answer
  unfolding local_answer
  answer (err e) = forbidden
  answer (ok uri) = if is_remote_uri uri && has_remote then from_remote uri else local_answer uri

  abbrev pub serve_token : Text → Text → Exec World Answer
  unfolding local_answer
  serve_token token range = do
    uri ← attempt (resolve_token token (is_initial_request range))
    pure (answer uri)

  -- `serveFile`, for the path of the URL and the Range header.
  unfoldable pub serve_file : Text → Text → Exec World Answer
  unfolding local_answer
  serve_file path range =
      let token = token_of path in
      if is_empty token then pure missing_token else serve_token token range
