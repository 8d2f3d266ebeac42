-- ===== src/Domain/Namespace.antt =====
-- app/domain/namespace.py: the normal form of a base URL, and the namespace of a server. What
-- `urlsplit` and the IDNA codec make of a text are parameters.
pub mod Unique
use mathlib.Core.List.{reverse}
use kxinspect_backend.Base.{
  ℕ, Bool, true, false, ◌&&◌, ◌||◌, not, Option, none, some, List, [], ◌∷◌, ◌++◌, ◌==◌, any_of,
  if◌then◌else◌,
}
use kxinspect_backend.Core.Errors.{Fault, Result, ok, raise, ◌>>=◌, ◌>>◌, require}
use kxinspect_backend.Core.CanonicalJson.{Json, text, arr, Items, nil, cons, canonical_sha256, utf8}
use kxinspect_backend.Db.Text.{Text, codes, text_eq, strip, str, split_on, is_present}

-- The parts of `urlsplit`. `port` raises where the text of the port is no number in its range.
pub record SplitResult : Type 0 where
  pub scheme : Text
  pub query : Text
  pub fragment : Text
  pub username : Option Text
  pub password : Option Text
  pub hostname : Option Text
  pub port : Result (Option ℕ)
  pub path : Text

-- `urlsplit` raises a ValueError on some texts; `idna` is `host.encode("idna").decode("ascii")`, `none`
-- its UnicodeError; `is_digits` is `str.isdigit`.
pub record UrlLibrary : Type 0 where
  pub urlsplit : Text → Result SplitResult
  pub lower : Text → Text
  pub idna : Text → Option Text
  pub is_digits : Text → Bool

pub record NormalizedBaseUrl : Type 0 where
  pub scheme : Text
  pub host : Text
  pub port : ℕ
  pub path : Text

abbrev pub has_colon : Text → Bool
has_colon s = any_of (λ c. c == b':') s

abbrev pub bracketed : Text → Text
bracketed host = if has_colon host then b'[' ∷ (host ++ (b']' ∷ [])) else host

-- `as_text`
unfoldable pub as_text : NormalizedBaseUrl → Text
as_text u = u.scheme ++ (b':' ∷ b'/' ∷ b'/' ∷ (bracketed u.host ++ (b':' ∷ (str u.port ++ u.path))))

abbrev pub http : Text
http = b'h' ∷ b't' ∷ b't' ∷ b'p' ∷ []

abbrev pub https : Text
https = b'h' ∷ b't' ∷ b't' ∷ b'p' ∷ b's' ∷ []

-- `DEFAULT_PORTS`
abbrev pub default_ports : Text → Result ℕ
default_ports scheme =
    if text_eq scheme http
    then ok 80
    else if text_eq scheme https
    then ok 443
    else raise Fault.value_error

abbrev pub is_given : Option Text → Bool
is_given none = false
is_given (some s) = is_present s

abbrev pub given : Option Text → Result Text
given none = raise Fault.value_error
given (some []) = raise Fault.value_error
given (some (c ∷ s)) = ok (c ∷ s)

abbrev pub or_default : ℕ → Option ℕ → ℕ
or_default default none = default
or_default default (some port) = port

-- The loop over the slashes at the end, on the reversed path; a path of one slash stays.
unfoldable pub trim : Text → Text
trim [] = []
trim (c ∷ []) = c ∷ []
trim (c ∷ d ∷ s) = let rest = trim (d ∷ s) in if c == b'/' then rest else c ∷ d ∷ s

-- A path of one slash is empty, and every other path has a slash in front.
abbrev pub rooted : Text → Text
rooted [] = []
rooted (c ∷ []) = if c == b'/' then [] else b'/' ∷ c ∷ []
rooted (c ∷ d ∷ s) = if c == b'/' then c ∷ d ∷ s else b'/' ∷ c ∷ d ∷ s

unfoldable pub normal_path : Text → Text
normal_path path = rooted (reverse (trim (reverse path)))

-- `[normalized.as_text(), api_major, schema_major]`
abbrev pub payload : NormalizedBaseUrl → Text → Text → Json
payload normalized api_major schema_major =
    arr (cons (text (as_text normalized)) (cons (text api_major) (cons (text schema_major) nil)))

module _ (library : UrlLibrary) where
  -- `all` of the parts between dots that are not empty.
  abbrev pub all_digits : List Text → Bool
  all_digits [] = true
  all_digits (part ∷ parts) = (not (is_present part) || library.is_digits part) && all_digits parts

  -- `_is_ip_literal`
  unfoldable pub is_ip_literal : Text → Bool
  is_ip_literal host = has_colon host || all_digits (split_on b'.' host)

  abbrev pub encoded : Option Text → Result Text
  encoded none = raise Fault.value_error
  encoded (some host) = ok host

  abbrev pub encode_host : Text → Result Text
  encode_host host = if is_ip_literal host then ok host else encoded (library.idna host)

  -- `normalize_base_url`; a `NamespaceError` is a ValueError.
  unfoldable pub normalize_base_url : Text → Result NormalizedBaseUrl
  normalize_base_url raw = do
    require (is_present (strip raw))
    parts ← library.urlsplit (strip raw)
    default ← default_ports (library.lower parts.scheme)
    require (not (is_present parts.query))
    require (not (is_present parts.fragment))
    require (not (is_given parts.username || is_given parts.password))
    hostname ← given parts.hostname
    host ← encode_host (library.lower hostname)
    port ← parts.port
    ok (record {
      scheme = library.lower parts.scheme;
      host = host;
      port = or_default default port;
      path = normal_path parts.path;
    })

  -- `remote_namespace`
  unfoldable pub remote_namespace : (List ℕ → Text) → Text → Text → Text → Result Text
  remote_namespace sha256 base_url api_major schema_major = do
    normalized ← normalize_base_url base_url
    digest ← canonical_sha256 sha256 (payload normalized api_major schema_major)
    ok (codes "remote:" ++ digest)

-- `fixture_namespace`
abbrev pub fixture_namespace : Text → Text
fixture_namespace contract_major = codes "fixture:v" ++ contract_major

-- `database_name`
unfoldable pub database_name : (List ℕ → Text) → Text → Result Text
database_name sha256 namespace =
    utf8 namespace >>= λ bytes. ok (codes "kxinspections_" ++ sha256 bytes)
