-- ===== src/Tests/Edge.antt =====
-- Downloads, attachments, graphemes and injected faults at concrete values.
use kxinspect_backend.Base.{
  ℕ, ◌+◌, ◌-◌, ◌<◌, ◌≤◌, ◌≡◌, refl, String, none, some, List, [], ◌∷◌, ◌++◌, length, take, drop,
  arith, ltb, if◌then◌else◌,
}
use kxinspect_backend.Core.Errors.{ok}
use kxinspect_backend.Core.Chaos.{ChaosConfig, failing, counted, failing_lem}
use kxinspect_backend.Core.Graphemes.{
  grapheme_clusters, grapheme_length, clusters_from, breaks_between, is_control, is_extend,
  is_spacing_mark, is_extended_pictographic, is_hangul_lv, is_hangul_lvt,
}
use kxinspect_backend.Services.ChargeService.Validation.{
  validate_contest_reason, validate_contest_reason-bounds,
}
use kxinspect_backend.Core.Graphemes.Clusters.{Splits, grapheme_clusters-Splits}
use kxinspect_backend.Db.Text.{Text, lstrip, strip}
use kxinspect_backend.Services.Attachments.{
  AttachmentStager, UploadSource, pdf, stage, stage_all, sanitize_display_name, resolve_media_type,
  detect_media_type, read_chunks, is_unsafe, rpartition, suffix,
}
use kxinspect_backend.Services.Attachments.Limits.{WithinLimits, stage_all-WithinLimits}
use kxinspect_backend.Api.Download.{
  download, range_of, match_range, digits, int_digits, value_of, clip, read_range,
}
use kxinspect_backend.Api.Download.Bytes.{download-partial}

-- `bytes=1-2` of five bytes.
abbrev header : Text
header = b'b' ∷ b'y' ∷ b't' ∷ b'e' ∷ b's' ∷ b'=' ∷ b'1' ∷ b'-' ∷ b'2' ∷ []

abbrev middle : List ℕ
middle = 11 ∷ 12 ∷ []

abbrev content : List ℕ
content = 10 ∷ 11 ∷ 12 ∷ 13 ∷ 14 ∷ []

download-partial_example :
    (5 ≡ length content)
    × (1 ≤ 2)
    × (2 < 5)
    × (length middle ≡ 2 - 1 + 1)
    × (content ≡ take 1 content ++ (middle ++ drop (2 + 1) content))
unfolding download range_of match_range digits int_digits value_of clip read_range strip lstrip
download-partial_example = download-partial content header middle 1 2 5 refl

-- Two faults over four requests, one of them to the health route.
abbrev chaos : ChaosConfig
chaos = record {
  latency_ms = 5;
  fail_next = 2;
  error_status = 500;
  error_code = "x";
  excluded_paths = "/api/v1/health" ∷ [];
}

abbrev paths : List String
paths = "/a" ∷ "/api/v1/health" ∷ "/b" ∷ "/c" ∷ []

failing_lem_example : (failing chaos paths).0 ≡ take 2 (counted chaos paths)
failing_lem_example = failing_lem chaos paths

-- A category for ASCII: controls, and everything else.
abbrev ascii_category : ℕ → String
ascii_category c = if ltb c 32 then "Cc" else "Ll"

grapheme_clusters-Splits_example :
    Splits
      (13 ∷ 10 ∷ b'a' ∷ 0xfe0f ∷ [])
      (grapheme_clusters ascii_category (13 ∷ 10 ∷ b'a' ∷ 0xfe0f ∷ []))
grapheme_clusters-Splits_example =
    grapheme_clusters-Splits ascii_category (13 ∷ 10 ∷ b'a' ∷ 0xfe0f ∷ [])

abbrev no_files : AttachmentStager
no_files = record { staged = []; total_bytes = 0 }

abbrev upload : UploadSource
upload = record {
  filename = some (b'a' ∷ b'.' ∷ b'p' ∷ b'd' ∷ b'f' ∷ []);
  content_type = none;
  chunks = (b'%' ∷ b'P' ∷ b'D' ∷ b'F' ∷ b'-' ∷ []) ∷ (b'1' ∷ []) ∷ [] ∷ [];
}

abbrev same_text : Text → Text
same_text s = s

abbrev one_file : AttachmentStager
one_file = record {
  staged =
      record {
        display_name = b'a' ∷ b'.' ∷ b'p' ∷ b'd' ∷ b'f' ∷ [];
        media_type = pdf;
        size_bytes = 6;
        sha256 = b'%' ∷ b'P' ∷ b'D' ∷ b'F' ∷ b'-' ∷ b'1' ∷ [];
        extension = b'.' ∷ b'p' ∷ b'd' ∷ b'f' ∷ [];
      }
      ∷ [];
  total_bytes = 6;
}

no_files-WithinLimits : WithinLimits no_files
no_files-WithinLimits = record {
  count_limit = omega arith;
  total_ok = refl;
  total_limit = omega arith;
  each = tt;
}

staged_ok : stage_all same_text same_text same_text no_files (upload ∷ []) ≡ ok one_file
unfolding stage_all stage sanitize_display_name resolve_media_type detect_media_type read_chunks
    is_unsafe rpartition suffix strip lstrip
staged_ok = refl

stage_all-WithinLimits_example : WithinLimits one_file
stage_all-WithinLimits_example =
    stage_all-WithinLimits same_text same_text same_text no_files (upload ∷ []) one_file
      no_files-WithinLimits staged_ok

-- ` A damp wall `: trimmed to eleven characters.
abbrev damp_wall : Text
damp_wall = b'A' ∷ b' ' ∷ b'd' ∷ b'a' ∷ b'm' ∷ b'p' ∷ b' ' ∷ b'w' ∷ b'a' ∷ b'l' ∷ b'l' ∷ []

abbrev padded : Text
padded = b' ' ∷ (damp_wall ++ (b' ' ∷ []))

reason_ok : validate_contest_reason ascii_category padded ≡ ok damp_wall
unfolding validate_contest_reason grapheme_length grapheme_clusters clusters_from breaks_between
    is_control is_extend is_spacing_mark is_extended_pictographic is_hangul_lv is_hangul_lvt strip
    lstrip
reason_ok = refl

validate_contest_reason-bounds_example :
    (damp_wall ≡ strip padded)
    × (10 ≤ length damp_wall)
    × (10 ≤ grapheme_length ascii_category damp_wall)
    × (grapheme_length ascii_category damp_wall ≤ 2000)
validate_contest_reason-bounds_example =
    validate_contest_reason-bounds ascii_category padded damp_wall reason_ok
