-- ===== src/Services/Attachments/Finalize.antt =====
-- `finalize` and `rollback` of app/services/attachment_service.py: staged files become uploads under
-- fresh ids, and go again where the mutation that they belong to did not commit. The hexadecimal
-- texts of the fresh UUIDs and the test of `glob` are parameters; a move that fails is not modelled.
pub mod Undo
pub mod Placed
pub mod Named
use kxinspect_backend.Base.{
  ℕ, ◌+◌, String, Bool, true, false, not, Option, none, some, List, [], ◌∷◌, ◌++◌, filter_by,
  if◌then◌else◌,
}
use kxinspect_backend.Db.Text.{Text, text_eq}
use kxinspect_backend.Db.Entities.{ContestAttachment}
use kxinspect_backend.Db.Uploads.{Entry, matches}
use kxinspect_backend.Core.Idempotency.{AttachmentDigestPart}
use kxinspect_backend.Services.Attachments.{MediaType, text_of, StagedAttachment}

-- `StagedAttachment.digest_part`
abbrev pub digest_part : StagedAttachment → AttachmentDigestPart
digest_part staged = record {
  sha256 = staged.sha256;
  size_bytes = staged.size_bytes;
  media_type = text_of staged.media_type;
  sanitized_display_name = staged.display_name;
}

-- The wire shape of a committed attachment, with the suffix of its file.
pub record FinalizedAttachment : Type 0 where
  pub id : Text
  pub display_name : Text
  pub media_type : MediaType
  pub size_bytes : ℕ
  pub sha256 : Text
  pub download_url : Text
  pub extension : Text

abbrev pub attachments_path : Text
attachments_path =
    b'/' ∷ b'a' ∷ b'p' ∷ b'i' ∷ b'/' ∷ b'v' ∷ b'1' ∷ b'/' ∷ b'a' ∷ b't' ∷ b't' ∷ b'a' ∷ b'c' ∷ b'h'
    ∷ b'm' ∷ b'e' ∷ b'n' ∷ b't' ∷ b's' ∷ []

-- `f"att_{uuid.uuid4().hex}"`
abbrev pub opaque_id : Text → Text
opaque_id hex = b'a' ∷ b't' ∷ b't' ∷ b'_' ∷ hex

abbrev pub finalized_one : Text → StagedAttachment → FinalizedAttachment
finalized_one hex staged = record {
  id = opaque_id hex;
  display_name = staged.display_name;
  media_type = staged.media_type;
  size_bytes = staged.size_bytes;
  sha256 = staged.sha256;
  download_url = attachments_path ++ (b'/' ∷ opaque_id hex);
  extension = staged.extension;
}

-- The list that `finalize` returns, with the texts of the UUIDs from one number on.
unfoldable pub finalized_from : (ℕ → Text) → ℕ → List StagedAttachment → List FinalizedAttachment
finalized_from hexes n [] = []
finalized_from hexes n (staged ∷ rest) =
    finalized_one (hexes n) staged ∷ finalized_from hexes (n + 1) rest

abbrev pub entry_of : FinalizedAttachment → Entry
entry_of f = record { name = f.id ++ f.extension; is_file = true }

abbrev pub has_other_name : Entry → Entry → Bool
has_other_name e x = not (text_eq x.name e.name)

-- `replace(destination)`: a file of the same name gives way.
unfoldable pub place : Entry → List Entry → List Entry
place e es = filter_by (has_other_name e) es ++ (e ∷ [])

-- The moves of `finalize`.
unfoldable pub place_all : List FinalizedAttachment → List Entry → List Entry
place_all [] es = es
place_all (f ∷ fs) es = place_all fs (place (entry_of f) es)

-- `rollback`
unfoldable pub rollback : (Text → Text → Bool) → List FinalizedAttachment → List Entry → List Entry
rollback fnmatch [] es = es
rollback fnmatch (f ∷ fs) es =
    rollback fnmatch fs (filter_by (λ e. not (matches fnmatch f.id e)) es)

-- `FinalizedAttachment.as_json`; `string` gives the string of a text that is only compared.
abbrev pub as_json : (Text → String) → FinalizedAttachment → ContestAttachment
as_json string f = record {
  id = string f.id;
  display_name = string f.display_name;
  media_type = string (text_of f.media_type);
  size_bytes = f.size_bytes;
  sha256 = string f.sha256;
  download_url = f.download_url;
  thumbnail_url = none;
}

abbrev pub as_json_all : (Text → String) → List FinalizedAttachment → List ContestAttachment
as_json_all string [] = []
as_json_all string (f ∷ fs) = as_json string f ∷ as_json_all string fs
