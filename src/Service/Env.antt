-- ===== src/Service/Env.antt =====
-- What the service takes from outside: the engines, SHA-256, the URL and JSON parsers of the standard
-- library, the answers of the nodes, and whether a storage provider is set.
use opendebrid.Prelude.{
  ℕ, Bool, ◌||◌, Option, none, some, List, [], ◌∷◌, ◌++◌, Text, codes, eq_text, has_prefix,
  trim_prefix, is_empty, trim_right, ◌==◌, if◌then◌else◌,
}
use opendebrid.Prelude.Exec.{Result}
use opendebrid.Service.Keys.{CacheKey}
use opendebrid.World.{Call, DispatchRequest, DispatchResponse}

-- The answer to a call: an error with its text, or a value.
pub data Reply (A : Type 0) : Type 0 where
  refused : Text → Reply A
  answered : A → Reply A

-- `query k` is `u.Query().Get(k)`.
pub record Url : Type 0 where
  pub host : Text
  pub path : Text
  pub query : Text → Text

pub record Env : Type 0 where
  pub known_engine : Text → Bool
  pub resolve_cache_key : Text → Text → Result CacheKey
  pub sha256 : Text → List ℕ
  pub parse_url : Text → Option Url
  pub parse_engines : Text → Option (List Text)
  pub dispatch_job : List Call → Text → DispatchRequest → Reply DispatchResponse
  pub has_storage : Bool

-- What follows the last slash.
unfoldable pub last_part : Text → Text → Text
last_part part [] = part
last_part part (c ∷ s) = last_part (if c == b'/' then [] else part ++ c ∷ []) s

abbrev base_of : Text → Text
base_of [] = b'/' ∷ []
base_of (c ∷ s) = last_part [] (c ∷ s)

-- `filepath.Base`
abbrev pub base : Text → Text
base [] = b'.' ∷ []
base (c ∷ s) = base_of (trim_right b'/' (c ∷ s))

abbrev magnet_name : Text → Option Url → Text
magnet_name raw none = raw
magnet_name raw (some u) =
    let dn = u.query (codes "dn") in
    let xt = u.query (codes "xt") in
    if is_empty dn
    then (if has_prefix xt (codes "urn:btih:") then trim_prefix xt (codes "urn:btih:") else raw)
    else dn

abbrev path_name : Text → Option Url → Text
path_name raw none = raw
path_name raw (some u) =
    let name = base u.path in
    if is_empty name || (eq_text name (codes ".") || eq_text name (codes "/")) then u.host else name

unfoldable pub default_name_from_url : (Text → Option Url) → Text → Text
default_name_from_url parse raw =
    if has_prefix raw (codes "magnet:")
    then magnet_name raw (parse raw)
    else path_name raw (parse raw)
