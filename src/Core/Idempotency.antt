-- ===== src/Core/Idempotency.antt =====
-- app/core/idempotency.py: the check of the `Idempotency-Key` header, the scope of a key, and the
-- digests of requests. The parser of UUIDs, upper case and SHA-256 are parameters.
pub mod Contest
use kxinspect_backend.Base.{ℕ, Option, none, some, List, [], ◌∷◌, ◌++◌}
use kxinspect_backend.Base.Int.{pos}
use kxinspect_backend.Core.Errors.{
  api, idempotency_key_missing, idempotency_key_invalid, Result, ok, raise,
}
use kxinspect_backend.Core.CanonicalJson.{
  Json, int, text, arr, obj, Items, nil, cons, Members, end, member, canonical_sha256,
}
use kxinspect_backend.Db.Text.{Text, strip}

-- `uuid_text candidate` is `str(uuid.UUID(candidate))`, `none` the ValueError.
abbrev pub parsed_key : Option Text → Result Text
parsed_key none = raise (api idempotency_key_invalid)
parsed_key (some key) = ok key

abbrev pub stripped_key : (Text → Option Text) → Text → Result Text
stripped_key uuid_text [] = raise (api idempotency_key_missing)
stripped_key uuid_text (c ∷ s) = parsed_key (uuid_text (c ∷ s))

unfoldable pub require_idempotency_key : (Text → Option Text) → Option Text → Result Text
require_idempotency_key uuid_text none = raise (api idempotency_key_missing)
require_idempotency_key uuid_text (some raw) = stripped_key uuid_text (strip raw)

-- `f"{method.upper()} {route_template}#{resource_id}#{key}"`
unfoldable pub scope_key : (Text → Text) → Text → Text → Text → Text → Text
scope_key upper method route_template resource_id key =
    upper method ++ (b' ' ∷ (route_template ++ (b'#' ∷ (resource_id ++ (b'#' ∷ key)))))

pub record AttachmentDigestPart : Type 0 where
  pub sha256 : Text
  pub size_bytes : ℕ
  pub media_type : Text
  pub sanitized_display_name : Text

-- `as_tuple`
abbrev pub as_tuple : AttachmentDigestPart → Json
as_tuple part = arr (
    cons (text part.sha256) (
      cons (int (pos part.size_bytes))
        (cons (text part.media_type) (cons (text part.sanitized_display_name) nil))))

abbrev pub tuples : List AttachmentDigestPart → Items
tuples [] = nil
tuples (part ∷ parts) = cons (as_tuple part) (tuples parts)

abbrev pub metadata_key : Text
metadata_key = b'm' ∷ b'e' ∷ b't' ∷ b'a' ∷ b'd' ∷ b'a' ∷ b't' ∷ b'a' ∷ []

abbrev pub attachments_key : Text
attachments_key = b'a' ∷ b't' ∷ b't' ∷ b'a' ∷ b'c' ∷ b'h' ∷ b'm' ∷ b'e' ∷ b'n' ∷ b't' ∷ b's' ∷ []

module _ (sha256 : List ℕ → Text) where
  unfoldable pub json_digest : Json → Result Text
  json_digest payload = canonical_sha256 sha256 payload

  unfoldable pub contest_digest : Members → List AttachmentDigestPart → Result Text
  contest_digest metadata attachments = canonical_sha256 sha256 (
      obj (
        member metadata_key (obj metadata) (member attachments_key (arr (tuples attachments)) end)))
