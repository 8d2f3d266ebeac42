-- ===== src/Tests/Requests.antt =====
-- Witnesses on canonical JSON, digests and namespaces.
use kxinspect_backend.Base.{
  false, ℕ, ◌≡◌, ◌≢◌, ◌↔◌, refl, none, some, drop, List, [], ◌∷◌, inl, arith,
}
use kxinspect_backend.Base.Int.{pos}
use kxinspect_backend.Core.CanonicalJson.{
  Json, int, obj, Members, end, member, serialize, utf8, utf8_char, canonical_json,
  canonical_sha256, escape, escape_char, int_text, join,
}
use kxinspect_backend.Core.CanonicalJson.Sorting.{
  utf16_char, utf16_sort_key, lex_lt, insert_member, sort_members,
}
use kxinspect_backend.Core.CanonicalJson.Order.{Distinct}
use kxinspect_backend.Core.CanonicalJson.Reordered.{Same}
use kxinspect_backend.Core.CanonicalJson.Normal.Dictionary.{IsDictionary}
use kxinspect_backend.Core.CanonicalJson.Digest.{canonical_json-iff-Same}
use kxinspect_backend.Core.Errors.{ok}
use kxinspect_backend.Core.Idempotency.{AttachmentDigestPart, contest_digest}
use kxinspect_backend.Core.Idempotency.Contest.{
  ContestFacts, contest_metadata, contest_digest-injective, scope_key-injective,
}
use kxinspect_backend.Db.Text.{Text, codes, str, strip, lstrip}
use kxinspect_backend.Domain.Namespace.{
  UrlLibrary, NormalizedBaseUrl, as_text, http, trim, normal_path, is_ip_literal,
  normalize_base_url, remote_namespace,
}
use kxinspect_backend.Domain.Namespace.Unique.{IsHost, remote_namespace-injective}

abbrev one_member : Text → ℕ → Members → Members
one_member key n ms = member key (int (pos n)) ms

abbrev key_a : Text
key_a = b'a' ∷ []

abbrev key_b : Text
key_b = b'b' ∷ []

-- `{"a": 1, "b": 2}` in two orders.
abbrev ordered : Json
ordered = obj (one_member key_a 1 (one_member key_b 2 end))

abbrev swapped : Json
swapped = obj (one_member key_b 2 (one_member key_a 1 end))

a_ne_b : key_a ≢ key_b
a_ne_b e = ground arith

b_ne_a : key_b ≢ key_a
b_ne_a e = ground arith

abbrev canonical_bytes : List ℕ
canonical_bytes =
    b'{' ∷ b'"' ∷ b'a' ∷ b'"' ∷ b':' ∷ b'1' ∷ b',' ∷ b'"' ∷ b'b' ∷ b'"' ∷ b':' ∷ b'2' ∷ b'}' ∷ []

a_b_Distinct : Distinct key_a key_b
a_b_Distinct = record {
  first_scalar = (inl (omega arith), tt);
  second_scalar = (inl (omega arith), tt);
  differ = a_ne_b;
}

b_a_Distinct : Distinct key_b key_a
b_a_Distinct = record {
  first_scalar = (inl (omega arith), tt);
  second_scalar = (inl (omega arith), tt);
  differ = b_ne_a;
}

ordered-IsDictionary : IsDictionary ordered
unfolding IsDictionary
ordered-IsDictionary = (tt, (a_b_Distinct, tt), (tt, tt, tt))

swapped-IsDictionary : IsDictionary swapped
unfolding IsDictionary
swapped-IsDictionary = (tt, (b_a_Distinct, tt), (tt, tt, tt))

ordered_bytes : canonical_json ordered ≡ ok canonical_bytes
unfolding canonical_json serialize utf8 utf8_char escape escape_char int_text join sort_members
    insert_member utf16_sort_key utf16_char lex_lt str
ordered_bytes = refl

canonical_json-iff-Same_example :
    (canonical_json swapped ≡ ok canonical_bytes) ↔ Same ordered swapped
canonical_json-iff-Same_example =
    canonical_json-iff-Same ordered swapped canonical_bytes ordered-IsDictionary
      swapped-IsDictionary ordered_bytes

abbrev facts : ContestFacts
facts = record { reason = b'r' ∷ []; expected_state_epoch = b'e' ∷ []; expected_version = 1 }

abbrev part : AttachmentDigestPart
part = record {
  sha256 = b'0' ∷ [];
  size_bytes = 3;
  media_type = b'p' ∷ [];
  sanitized_display_name = b'n' ∷ [];
}

abbrev b_code : ℕ
b_code = b'b'

abbrev contest_bytes : Text
contest_bytes =
    codes
      "{\"attachments\":[[\"0\",3,\"p\",\"n\"]],\"metadata\":{\"expectedStateEpoch\":\"e\",\"expectedVersion\":1,\"reason\":\"r\"}}"

not_hash : b_code ≢ b'#'
not_hash e = ground arith

abbrev same_text : Text → Text
same_text s = s

abbrev same_bytes : List ℕ → Text
same_bytes bytes = bytes

digested : contest_digest same_bytes (contest_metadata facts) (part ∷ []) ≡ ok contest_bytes
unfolding contest_digest canonical_sha256 canonical_json serialize utf8 utf8_char escape escape_char
    int_text join sort_members insert_member utf16_sort_key utf16_char lex_lt str
digested = refl

contest_digest-injective_example : (facts ≡ facts) × (part ∷ [] ≡ part ∷ [])
contest_digest-injective_example =
    contest_digest-injective same_bytes facts facts (part ∷ []) (part ∷ []) contest_bytes
      (λ x y h k e. e) digested digested

scope_key-injective_example : (key_a ≡ key_a) × (key_b ≡ key_b)
scope_key-injective_example =
    scope_key-injective same_text (b'P' ∷ []) (b'/' ∷ []) key_a key_a key_b key_b (not_hash, tt)
      (not_hash, tt) refl

-- Takes apart URLs of the form `http://a` with a path.
abbrev library : UrlLibrary
library = record {
  urlsplit = λ s. ok (record {
    scheme = http;
    query = [];
    fragment = [];
    username = none;
    password = none;
    hostname = some (b'a' ∷ []);
    port = ok none;
    path = drop 8 s;
  });
  lower = λ s. s;
  idna = λ s. some s;
  is_digits = λ s. false;
}

abbrev base : NormalizedBaseUrl
base = record { scheme = http; host = b'a' ∷ []; port = 80; path = [] }

plain_base : normalize_base_url library (codes "http://a") ≡ ok base
unfolding normalize_base_url is_ip_literal normal_path trim strip lstrip
plain_base = refl

slash_base : normalize_base_url library (codes "http://a/") ≡ ok base
unfolding normalize_base_url is_ip_literal normal_path trim strip lstrip
slash_base = refl

base-IsHost : IsHost base.host
base-IsHost = record { opening = (refl, tt); closing = (refl, tt) }

abbrev base_namespace : Text
base_namespace = codes "remote:[\"http://a:80\",\"1\",\"1\"]"

plain_namespace :
    remote_namespace library same_bytes (codes "http://a") (codes "1") (codes "1")
    ≡ ok base_namespace
unfolding remote_namespace as_text canonical_sha256 canonical_json serialize utf8 utf8_char escape
    escape_char join str
plain_namespace = rw plain_base refl

slash_namespace :
    remote_namespace library same_bytes (codes "http://a/") (codes "1") (codes "1")
    ≡ ok base_namespace
unfolding remote_namespace as_text canonical_sha256 canonical_json serialize utf8 utf8_char escape
    escape_char join str
slash_namespace = rw slash_base refl

remote_namespace-injective_example :
    (base ≡ base) × (codes "1" ≡ codes "1") × (codes "1" ≡ codes "1")
remote_namespace-injective_example =
    remote_namespace-injective library same_bytes (codes "http://a") (codes "http://a/") base base
      (codes "1") (codes "1") (codes "1") (codes "1") base_namespace plain_base slash_base
      base-IsHost base-IsHost (λ x y h k e. e) plain_namespace slash_namespace
