-- ===== src/Tests/Contested.antt =====
-- Witnesses on a contest and on the limit of a body at concrete values.
use mathlib.Core.List.{reverse, reverse-append, reverse-cons, reverse-reverse}
use kxinspect_backend.Base.{
  ℕ, ◌≤◌, ◌<◌, ◌≡◌, ◌⊎◌, ◌∙◌, ap, refl, true, false, none, some, Option, List, [], ◌∷◌, ◌++◌, map,
  drop, if◌then◌else◌,
}
use kxinspect_backend.Base.Int.{pos}
use kxinspect_backend.Core.CanonicalJson.{
  int, text, obj, Members, end, member, serialize, utf8, utf8_char, canonical_json,
  canonical_sha256, escape, escape_char, int_text, join,
}
use kxinspect_backend.Core.CanonicalJson.Sorting.{
  utf16_char, utf16_sort_key, lex_lt, insert_member, sort_members,
}
use kxinspect_backend.Core.Clock.{format_instant, parse_instant}
use kxinspect_backend.Core.Graphemes.{
  grapheme_length, grapheme_clusters, clusters_from, breaks_between, is_extend, is_spacing_mark,
  is_control, is_extended_pictographic, is_hangul_lv, is_hangul_lvt,
}
use kxinspect_backend.Core.Idempotency.{require_idempotency_key, scope_key, contest_digest}
use kxinspect_backend.Domain.ChargeState.{contested, transition}
use kxinspect_backend.Domain.Deadline.{is_expired}
use kxinspect_backend.Db.Text.{codes, text_eq, strip, lstrip, str}
use kxinspect_backend.Db.Entities.{Charge}
use kxinspect_backend.Db.Models.{StoreSnapshot}
use kxinspect_backend.Db.Store.{
  written, seed_snapshot, commit, append_events, keep_last, persist, find_entity, ledger_get,
  ledger_set,
}
use kxinspect_backend.Services.ChargeService.Ledger.{require_epoch, replay, record_success}
use kxinspect_backend.Services.ChargeService.Commands.{charge_mutator, next_charge}
use kxinspect_backend.Services.ChargeService.Validation.{validate_contest_reason}
use kxinspect_backend.Db.Uploads.{Entry, referenced_attachment_ids}
use kxinspect_backend.Services.Attachments.{
  starts_with, rpartition, suffix, is_unsafe, cut_name, sanitize_display_name, detect_media_type,
  resolve_media_type, UploadSource, read_chunks, stage, stage_all,
}
use kxinspect_backend.Services.Attachments.Finalize.{finalized_from}
use kxinspect_backend.Services.Attachments.Finalize.Named.{IsPlain, IsGlob}
use kxinspect_backend.Services.ChargeService.Operator.{raised_charge}
use kxinspect_backend.Services.ChargeService.Reconcile.{
  is_elapsed, reconcile_charges, reconcile_deadlines,
}
use kxinspect_backend.Services.ChargeService.Requests.{Moment}
use kxinspect_backend.Api.Deps.{Platform}
use kxinspect_backend.Api.Commands.{decoded, json_body, get_member, has_only}
use kxinspect_backend.Api.Commands.Contest.{
  as_field, ContestForm, ContestRun, contest_form, split_contest_parts, contest_model,
  prepare_contest, commit_contest, contest_charge,
}
use kxinspect_backend.Api.Commands.Contest.Kept.{IsServed}
use kxinspect_backend.Api.Commands.Contest.Route.{contest_charge-IsServed}
use kxinspect_backend.Api.Middleware.{
  Message, request, received, limit_body, is_above, declared_length, body_bytes, limit_body_bounds,
}
use kxinspect_backend.Tests.Data.{seeded, store}
use kxinspect_backend.Tests.Startup.{star_match}

abbrev platform : Platform
platform = record {
  uuid_text = some;
  upper = λ s. s;
  lower = λ s. s;
  nfc = λ s. s;
  category = λ c. "Ll";
  sha256 = λ s. s;
  string = λ s.
      if text_eq s (codes "CHG-1")
      then "CHG-1"
      else if text_eq s (codes "epoch-1")
      then "epoch-1"
      else "other";
  stamp = λ s. format_instant 0;
  fnmatch = star_match;
  hexes = λ n. codes "1";
}

abbrev old_file : Entry
old_file = record { name = codes "att_2.png"; is_file = true }

abbrev moment : Moment
moment = record { commit_at = 3000; now = 2000; recorded_at = 2500; disk = written }

-- The eight bytes that a PNG file starts with.
abbrev upload : UploadSource
upload = record {
  filename = some (codes "a.png");
  content_type = none;
  chunks = (0x89 ∷ 80 ∷ 78 ∷ 71 ∷ 13 ∷ 10 ∷ 26 ∷ 10 ∷ []) ∷ [];
}

abbrev metadata : Members
metadata = member (codes "reason") (text (codes "It was not me")) (
    member (codes "expectedStateEpoch") (text (codes "epoch-1"))
      (member (codes "expectedVersion") (int (pos 1)) end))

abbrev form : ContestForm
form = record { metadata = as_field (decoded (obj metadata)); uploads = upload ∷ [] }

abbrev done : ContestRun
done =
    contest_charge platform moment store (old_file ∷ []) (some (codes "k"))
      (some (codes "multipart/form-data")) (some form) (codes "CHG-1")

abbrev unwrapped : Option StoreSnapshot → StoreSnapshot
unwrapped none = seeded
unwrapped (some s) = s

abbrev afterwards : StoreSnapshot
afterwards = unwrapped done.run.store.snapshot

no_references : referenced_attachment_ids seeded.entities ≡ []
unfolding referenced_attachment_ids seed_snapshot raised_charge
no_references = refl

seeded-IsServed : IsServed star_match none (old_file ∷ []) seeded
seeded-IsServed i listed = let l = rw no_references at listed in absurd l

star_match-IsGlob : IsGlob star_match
star_match-IsGlob i name plain =
    ap (λ s. starts_with s name)
      (ap (λ s. reverse (drop 1 s)) (reverse-append i (b'.' ∷ b'*' ∷ []))
        ∙ reverse-cons b'.' (reverse i)
        ∙ ap (λ s. s ++ (b'.' ∷ [])) (reverse-reverse i))

hexes-IsPlain : (n : ℕ) → IsPlain (platform.hexes n)
hexes-IsPlain n = ((refl, refl, refl, refl, refl), tt)

afterwards_live : done.run.store.snapshot ≡ some afterwards
unfolding contest_charge prepare_contest contest_form split_contest_parts json_body contest_model
    get_member has_only require_idempotency_key validate_contest_reason contest_digest strip lstrip
    stage_all stage read_chunks sanitize_display_name resolve_media_type detect_media_type is_unsafe
    rpartition suffix cut_name canonical_sha256 canonical_json serialize utf8 utf8_char escape
    escape_char int_text join sort_members insert_member utf16_sort_key utf16_char lex_lt str
    grapheme_length grapheme_clusters clusters_from breaks_between is_extend is_spacing_mark
    is_control is_extended_pictographic is_hangul_lv is_hangul_lvt scope_key finalized_from
    commit_contest commit charge_mutator replay ledger_get ledger_set require_epoch
    reconcile_deadlines reconcile_charges is_elapsed is_expired parse_instant format_instant
    find_entity transition next_charge record_success persist seed_snapshot raised_charge
    append_events keep_last
afterwards_live = refl

charges_contested : map (λ (c : Charge). c.status) afterwards.entities.charges ≡ contested ∷ []
unfolding contest_charge prepare_contest contest_form split_contest_parts json_body contest_model
    get_member has_only require_idempotency_key validate_contest_reason contest_digest strip lstrip
    stage_all stage read_chunks sanitize_display_name resolve_media_type detect_media_type is_unsafe
    rpartition suffix cut_name canonical_sha256 canonical_json serialize utf8 utf8_char escape
    escape_char int_text join sort_members insert_member utf16_sort_key utf16_char lex_lt str
    grapheme_length grapheme_clusters clusters_from breaks_between is_extend is_spacing_mark
    is_control is_extended_pictographic is_hangul_lv is_hangul_lvt scope_key finalized_from
    commit_contest commit charge_mutator replay ledger_get ledger_set require_epoch
    reconcile_deadlines reconcile_charges is_elapsed is_expired parse_instant format_instant
    find_entity transition next_charge record_success persist seed_snapshot raised_charge
    append_events keep_last
charges_contested = refl

contest_charge-IsServed_example : IsServed star_match none done.uploads afterwards
contest_charge-IsServed_example =
    contest_charge-IsServed platform none moment star_match-IsGlob hexes-IsPlain store seeded
      (old_file ∷ []) (some (codes "k")) (some (codes "multipart/form-data")) (some form)
      (codes "CHG-1") afterwards refl ((λ n. refl), tt) seeded-IsServed afterwards_live

abbrev messages : List Message
messages = request (1 ∷ 2 ∷ []) true ∷ request (3 ∷ []) true ∷ request (4 ∷ []) false ∷ []

limit_body_bounds_example :
    let got = received (limit_body 3 (some (codes "2")) messages) in
    (body_bytes got ≤ 3)
    × ((got ≡ messages)
        ⊎ (is_above 3 (declared_length (some (codes "2"))) ≡ true)
        ⊎ (3 < body_bytes messages))
limit_body_bounds_example = limit_body_bounds 3 (some (codes "2")) messages
