-- ===== src/Services/Attachments.antt =====
-- app/services/attachment_service.py: the checks of contest attachments before they are stored. A
-- file is a list of bytes; the files of the staging directory are not modelled, and Finalize has the
-- moves. Unicode normalisation, lower case and SHA-256 are parameters.
pub mod Limits
pub mod Finalize
use mathlib.Core.List.{reverse}
use kxinspect_backend.Base.{
  ℕ, zero, suc, ◌+◌, ◌-◌, ◌*◌, Bool, true, false, ◌&&◌, ◌||◌, not, String, Option, none, some, List,
  [], ◌∷◌, ◌++◌, length, take, drop, map, any_of, last_of, ltb, leb, ◌==◌, if◌then◌else◌,
}
use kxinspect_backend.Core.Errors.{
  api, attachment_too_many, attachment_empty, attachment_name_invalid, attachment_too_large,
  attachment_total_too_large, attachment_unsupported_media_type, Result, ok, raise, ◌>>=◌, ◌>>◌,
}
use kxinspect_backend.Db.Text.{Text, text_eq, is_space, strip}

abbrev pub max_attachments : ℕ
max_attachments = 5

abbrev pub max_attachment_bytes : ℕ
max_attachment_bytes = 10 * 1024 * 1024

abbrev pub max_attachment_total_bytes : ℕ
max_attachment_total_bytes = 25 * 1024 * 1024

abbrev pub max_display_name_chars : ℕ
max_display_name_chars = 120

-- The five media types of the contract.
pub data MediaType : Type 0 where
  jpeg png webp mp4 pdf : MediaType

abbrev pub text_of : MediaType → Text
text_of jpeg = b'i' ∷ b'm' ∷ b'a' ∷ b'g' ∷ b'e' ∷ b'/' ∷ b'j' ∷ b'p' ∷ b'e' ∷ b'g' ∷ []
text_of png = b'i' ∷ b'm' ∷ b'a' ∷ b'g' ∷ b'e' ∷ b'/' ∷ b'p' ∷ b'n' ∷ b'g' ∷ []
text_of webp = b'i' ∷ b'm' ∷ b'a' ∷ b'g' ∷ b'e' ∷ b'/' ∷ b'w' ∷ b'e' ∷ b'b' ∷ b'p' ∷ []
text_of mp4 = b'v' ∷ b'i' ∷ b'd' ∷ b'e' ∷ b'o' ∷ b'/' ∷ b'm' ∷ b'p' ∷ b'4' ∷ []
text_of pdf =
    b'a' ∷ b'p' ∷ b'p' ∷ b'l' ∷ b'i' ∷ b'c' ∷ b'a' ∷ b't' ∷ b'i' ∷ b'o' ∷ b'n' ∷ b'/' ∷ b'p' ∷ b'd'
    ∷ b'f' ∷ []

-- `ALLOWED_ATTACHMENT_MEDIA_TYPES`
abbrev pub suffixes_of : MediaType → List Text
suffixes_of jpeg = (b'.' ∷ b'j' ∷ b'p' ∷ b'g' ∷ []) ∷ (b'.' ∷ b'j' ∷ b'p' ∷ b'e' ∷ b'g' ∷ []) ∷ []
suffixes_of png = (b'.' ∷ b'p' ∷ b'n' ∷ b'g' ∷ []) ∷ []
suffixes_of webp = (b'.' ∷ b'w' ∷ b'e' ∷ b'b' ∷ b'p' ∷ []) ∷ []
suffixes_of mp4 = (b'.' ∷ b'm' ∷ b'p' ∷ b'4' ∷ []) ∷ []
suffixes_of pdf = (b'.' ∷ b'p' ∷ b'd' ∷ b'f' ∷ []) ∷ []

abbrev pub starts_with : List ℕ → List ℕ → Bool
starts_with [] s = true
starts_with (p ∷ ps) [] = false
starts_with (p ∷ ps) (c ∷ s) = p == c && starts_with ps s

-- `head[low:high] == …`
abbrev pub slice : ℕ → ℕ → List ℕ → List ℕ
slice low high s = take (high - low) (drop low s)

unfoldable pub detect_media_type : List ℕ → Option MediaType
detect_media_type head =
    if starts_with (0xff ∷ 0xd8 ∷ 0xff ∷ []) head
    then some jpeg
    else if starts_with (0x89 ∷ b'P' ∷ b'N' ∷ b'G' ∷ 13 ∷ 10 ∷ 0x1a ∷ 10 ∷ []) head
    then some png
    else if starts_with (b'R' ∷ b'I' ∷ b'F' ∷ b'F' ∷ []) head
        && text_eq (slice 8 12 head) (b'W' ∷ b'E' ∷ b'B' ∷ b'P' ∷ [])
    then some webp
    else if text_eq (slice 4 8 head) (b'f' ∷ b't' ∷ b'y' ∷ b'p' ∷ [])
    then some mp4
    else if starts_with (b'%' ∷ b'P' ∷ b'D' ∷ b'F' ∷ b'-' ∷ []) head
    then some pdf
    else none

-- What stands before the first occurrence of a character: `s.split(c, 1)[0]`.
abbrev pub until : ℕ → Text → Text
until stop [] = []
until stop (c ∷ s) = let rest = until stop s in if c == stop then [] else c ∷ rest

-- The text after the last occurrence of a character, and before it; `none` where there is none.
unfoldable pub rpartition : ℕ → Text → Option (Text × Text)
rpartition stop [] = none
rpartition stop (c ∷ s) = elim (rpartition stop s) [
  | some (before, after) ↦ some (c ∷ before, after)
  | none ↦ if c == stop then some ([], s) else none
]

-- `s.rsplit("/", 1)[-1]`
abbrev pub base_name : Text → Text
base_name s = elim (rpartition b'/' s) [ none ↦ s | some (_, after) ↦ after ]

-- `Path(name).suffix` of a name without slashes: from the last dot on, unless the name starts or
-- ends there.
unfoldable pub suffix : Text → Text
suffix name = elim (rpartition b'.' name) [
  | none ↦ []
  | some ([], _) ↦ []
  | some (_ ∷ _, []) ↦ []
  | some (_ ∷ _, c ∷ s) ↦ b'.' ∷ c ∷ s
]

-- The characters that `_UNSAFE_NAME_CHARS` matches.
unfoldable pub is_unsafe : ℕ → Bool
is_unsafe c =
    leb c 0x1f
    || c == 0x7f
    || any_of (λ u. c == u) (b'/' ∷ b'\\' ∷ b':' ∷ b'*' ∷ b'?' ∷ b'"' ∷ b'<' ∷ b'>' ∷ b'|' ∷ [])

abbrev pub replace : (ℕ → Bool) → ℕ → Text → Text
replace test by = map (λ c. if test c then by else c)

-- `s.strip(" .")`
abbrev pub drop_while : (ℕ → Bool) → Text → Text
drop_while test [] = []
drop_while test (c ∷ s) = let rest = drop_while test s in if test c then rest else c ∷ s

abbrev pub is_blank_or_dot : ℕ → Bool
is_blank_or_dot c = c == b' ' || c == b'.'

abbrev pub strip_dots : Text → Text
strip_dots s = reverse (drop_while is_blank_or_dot (reverse (drop_while is_blank_or_dot s)))

-- The cut of a long name, which keeps a short extension. What a suffix leaves of the limit is at
-- least 109 there.
unfoldable pub cut_name : Text → Text
cut_name name = elim (rpartition b'.' name) [
  | none ↦ take max_display_name_chars name
  | some (stem, after) ↦
      if leb (length after) 10
      then take (max_display_name_chars - length after - 1) stem ++ (b'.' ∷ after)
      else take max_display_name_chars name
]

abbrev pub unsupported {ℓ} : {A : Type ℓ} → Result A
unsupported = raise (api attachment_unsupported_media_type)

abbrev pub name_invalid {ℓ} : {A : Type ℓ} → Result A
name_invalid = raise (api attachment_name_invalid)

-- The last two tests of `sanitize_display_name`. A candidate has no dot at its ends, so it is
-- neither `.` nor `..`.
abbrev pub checked_name : Text → Result Text
checked_name [] = name_invalid
checked_name (c ∷ s) =
    if ltb max_display_name_chars (length (c ∷ s)) then ok (cut_name (c ∷ s)) else ok (c ∷ s)

pub record StagedAttachment : Type 0 where
  pub display_name : Text
  pub media_type : MediaType
  pub size_bytes : ℕ
  pub sha256 : Text
  pub extension : Text

-- The part of `UploadFile` that is read: its name, its declared type, and the chunks that `read`
-- gives, of which an empty one is the end.
pub record UploadSource : Type 0 where
  pub filename : Option Text
  pub content_type : Option Text
  pub chunks : List (List ℕ)

pub record AttachmentStager : Type 0 where
  pub staged : List StagedAttachment
  pub total_bytes : ℕ

-- What the read loop has gathered: the size, the first sixteen bytes, and the bytes written.
pub record Received : Type 0 where
  pub size : ℕ
  pub head : List ℕ
  pub bytes : List ℕ

abbrev pub receive : Received → List ℕ → Received
receive r chunk = record {
  size = r.size + length chunk;
  head = if ltb (length r.head) 16 then r.head ++ take (16 - length r.head) chunk else r.head;
  bytes = r.bytes ++ chunk;
}

-- The `while True` of `stage`. A source that ends without an empty chunk has one at its end.
unfoldable pub read_chunks : ℕ → Received → List (List ℕ) → Result Received
read_chunks total r [] = ok r
read_chunks total r ([] ∷ _) = ok r
read_chunks total r ((b ∷ bs) ∷ rest) =
    let size = r.size + length (b ∷ bs) in
    let more = read_chunks total (receive r (b ∷ bs)) rest in
    if ltb max_attachment_bytes size
    then raise (api attachment_too_large)
    else if ltb max_attachment_total_bytes (total + size)
    then raise (api attachment_total_too_large)
    else more

module _ (nfc lower : Text → Text) (sha256 : List ℕ → Text) where
  -- The name without its directories, unsafe characters and outer dots.
  abbrev pub safe_name : Text → Text
  safe_name raw =
      strip_dots
        (replace is_unsafe b'_' (base_name (replace (λ c. c == b'\\') b'/' (strip (nfc raw)))))

  unfoldable pub sanitize_display_name : Option Text → Result Text
  sanitize_display_name none = name_invalid
  sanitize_display_name (some raw) = checked_name (safe_name raw)

  abbrev pub declared_type : Option Text → Text
  declared_type none = lower (strip (until b';' []))
  declared_type (some declared) = lower (strip (until b';' declared))

  -- The tests on the declared type and on the extension; an empty one is not looked at.
  abbrev pub agrees : Text → MediaType → Bool
  agrees [] sniffed = true
  agrees (c ∷ s) sniffed = text_eq (c ∷ s) (text_of sniffed)

  abbrev pub suffix_agrees : Text → MediaType → Bool
  suffix_agrees [] sniffed = true
  suffix_agrees (c ∷ s) sniffed = any_of (text_eq (c ∷ s)) (suffixes_of sniffed)

  abbrev pub agreed : Option Text → Text → Option MediaType → Result MediaType
  agreed declared display_name none = unsupported
  agreed declared display_name (some sniffed) =
      if not (agrees (declared_type declared) sniffed)
      then unsupported
      else if not (suffix_agrees (lower (suffix display_name)) sniffed)
      then unsupported
      else ok sniffed

  unfoldable pub resolve_media_type : Option Text → Text → List ℕ → Result MediaType
  resolve_media_type declared display_name head =
      agreed declared display_name (detect_media_type head)

  abbrev pub first_suffix : List Text → Text
  first_suffix [] = []
  first_suffix (s ∷ _) = s

  -- The staged file appended, and its size added to the total.
  abbrev pub with_staged : AttachmentStager → Text → Received → MediaType → AttachmentStager
  with_staged stager display_name r media_type = record {
    staged =
        stager.staged
        ++ (record {
          display_name = display_name;
          media_type = media_type;
          size_bytes = r.size;
          sha256 = sha256 r.bytes;
          extension = first_suffix (suffixes_of media_type);
        }
            ∷ []);
    total_bytes = stager.total_bytes + r.size;
  }

  -- After the read loop: the emptiness test and the media type.
  abbrev pub finish : AttachmentStager → UploadSource → Text → Received → Result AttachmentStager
  finish stager upload display_name r =
      if r.size == 0
      then raise (api attachment_empty)
      else resolve_media_type upload.content_type display_name r.head >>= λ media_type.
          ok (with_staged stager display_name r media_type)

  unfoldable pub stage : AttachmentStager → UploadSource → Result AttachmentStager
  stage stager upload =
      if leb max_attachments (length stager.staged)
      then raise (api attachment_too_many)
      else sanitize_display_name upload.filename >>= λ display_name.
          read_chunks stager.total_bytes (record { size = 0; head = []; bytes = [] }) upload.chunks
          >>= finish stager upload display_name

  -- The parts of one request, in order, until one is refused.
  unfoldable pub stage_all : AttachmentStager → List UploadSource → Result AttachmentStager
  stage_all stager [] = ok stager
  stage_all stager (upload ∷ rest) = stage stager upload >>= λ next. stage_all next rest
