-- ===== src/Api/Commands/Contest.antt =====
-- `contest_charge` of app/api/v1/endpoints/commands.py: the multipart form, the staged attachments,
-- the commit, and the rollback of the files where it raises. A form is what the parser makes of it;
-- the temporary files of the parser are not modelled.
pub mod References
pub mod Kept
pub mod Route
use kxinspect_backend.Base.{
  ℕ, ◌+◌, String, Bool, true, false, ◌&&◌, ◌||◌, not, Option, none, some, List, [], ◌∷◌, ltb, leb,
  length, if◌then◌else◌,
}
use kxinspect_backend.Core.Errors.{
  Fault, api, malformed_request, validation, attachment_too_many, Result, ok, raise, ◌>>=◌, ◌>>◌,
}
use kxinspect_backend.Core.CanonicalJson.{Json, Members}
use kxinspect_backend.Core.Idempotency.{
  AttachmentDigestPart, require_idempotency_key, contest_digest,
}
use kxinspect_backend.Core.Idempotency.Contest.{ContestFacts, contest_metadata}
use kxinspect_backend.Domain.ChargeState.{contest}
use kxinspect_backend.Db.Text.{Text, codes, text_eq, strip}
use kxinspect_backend.Db.Entities.{ContestAttachment}
use kxinspect_backend.Db.Models.{StoreSnapshot}
use kxinspect_backend.Db.Store.{Store, MutationOutcome, CommitRun, commit}
use kxinspect_backend.Db.Uploads.{Entry}
use kxinspect_backend.Services.Attachments.{
  max_attachments, starts_with, until, StagedAttachment, UploadSource, AttachmentStager, stage_all,
}
use kxinspect_backend.Services.Attachments.Finalize.{
  FinalizedAttachment, digest_part, finalized_from, place_all, rollback, as_json_all,
}
use kxinspect_backend.Services.ChargeService.Ledger.{CommandResult}
use kxinspect_backend.Services.ChargeService.Commands.{ChargeCommand, charge_mutator}
use kxinspect_backend.Services.ChargeService.Requests.{Moment}
use kxinspect_backend.Services.ChargeService.Validation.{validate_contest_reason}
use kxinspect_backend.Api.Deps.{Platform, or_empty}
use kxinspect_backend.Api.Commands.{
  RequestBody, json_body, get_member, has_only, text_of_json, version_of_json, epoch_field,
  version_field, ChargeCommandRequest, both_fields, contest_route, context_for,
}

-- The `metadata` part: a text field, or a file with its declared type and what its bytes are, `none`
-- where they are no UTF-8. `RequestBody` is what `json.loads` makes of the text.
pub data MetadataPart : Type 0 where
  missing : MetadataPart
  as_field : RequestBody → MetadataPart
  as_file : (content_type : Option Text) (content : Option RequestBody) → MetadataPart

pub record ContestForm : Type 0 where
  pub metadata : MetadataPart
  pub uploads : List UploadSource

-- `_contest_form`: the header, and the form, `none` where the parser raises.
unfoldable pub contest_form : Option Text → Option ContestForm → Result ContestForm
contest_form content_type form =
    if starts_with (codes "multipart/form-data") (or_empty content_type)
    then elim form [ none ↦ raise (api malformed_request) | some f ↦ ok f ]
    else raise (api malformed_request)

abbrev pub is_json_type : Text → Bool
is_json_type [] = true
is_json_type (c ∷ s) = text_eq (c ∷ s) (codes "application/json")

-- The bytes of the part are decoded outside the `try`, so the UnicodeDecodeError, a ValueError,
-- leaves the handler.
abbrev pub decoded_file : Option RequestBody → Result RequestBody
decoded_file none = raise Fault.value_error
decoded_file (some body) = ok body

abbrev pub metadata_text : MetadataPart → Result RequestBody
metadata_text missing = raise (api malformed_request)
metadata_text (as_field body) = ok body
metadata_text (as_file content_type content) =
    if is_json_type (strip (until b';' (or_empty content_type)))
    then decoded_file content
    else raise (api malformed_request)

-- `_split_contest_parts`
unfoldable pub split_contest_parts : ContestForm → Result (Members × List UploadSource)
split_contest_parts form = do
  body ← metadata_text form.metadata
  metadata ← json_body body
  if ltb max_attachments (length form.uploads)
      then raise (api attachment_too_many)
      else ok (metadata, form.uploads)

abbrev pub reason_field : Text
reason_field = codes "reason"

-- The reason is not empty.
abbrev pub reason_of : Option Text → Result Text
reason_of none = raise (api validation)
reason_of (some []) = raise (api validation)
reason_of (some (c ∷ s)) = ok (c ∷ s)

-- `_model(ContestMetadata, metadata)`
unfoldable pub contest_model : Members → Result (Text × ChargeCommandRequest)
contest_model metadata =
    if not (has_only (reason_field ∷ epoch_field ∷ version_field ∷ []) metadata)
    then raise (api validation)
    else reason_of (text_of_json (get_member reason_field metadata)) >>= λ reason.
        both_fields (text_of_json (get_member epoch_field metadata))
          (version_of_json (get_member version_field metadata))
        >>= λ request. ok (reason, request)

abbrev pub digest_parts : List StagedAttachment → List AttachmentDigestPart
digest_parts [] = []
digest_parts (staged ∷ rest) = digest_part staged ∷ digest_parts rest

-- What the callback `finalize` would have moved and returned, if the mutator called it.
abbrev pub with_attachments : Platform → ChargeCommand → List FinalizedAttachment → ChargeCommand
with_attachments p command finalized = record command {
  attachments = as_json_all p.string finalized;
}

abbrev pub is_fresh : Option Fault → Bool → Bool
is_fresh none replayed = not replayed
is_fresh (some error) replayed = false

-- Whether the mutator called `finalize_attachments`: it does so on the way to a fresh success, and
-- on no other.
abbrev pub calls_finalize : Result (MutationOutcome CommandResult × StoreSnapshot) → Bool
calls_finalize (raise error) = false
calls_finalize (ok (outcome, _)) = is_fresh outcome.deferred_error outcome.value.replayed

abbrev pub finalize_called : Moment → ChargeCommand → Option StoreSnapshot → Bool
finalize_called m command none = false
finalize_called m command (some s) = calls_finalize (charge_mutator m.now m.recorded_at command s)

-- What the handler leaves: the run of the commit, and the uploads.
pub record ContestRun : Type 0 where
  pub run : CommitRun CommandResult
  pub uploads : List Entry

module _ (p : Platform) where
  abbrev pub contest_command : Text → Text → ContestFacts → Text → ChargeCommand
  contest_command charge_id key facts digest = record {
    charge_id = p.string charge_id;
    event = contest;
    expected_state_epoch = p.string facts.expected_state_epoch;
    expected_version = facts.expected_version;
    context = context_for p contest_route charge_id key digest;
    contest_reason = some (p.string facts.reason);
    attachments = [];
  }

  -- From the parts of the form on, up to the commit.
  abbrev pub prepare_parts :
      Text → Text → Members × List UploadSource → Result (ChargeCommand × List StagedAttachment)
  prepare_parts charge_id key (metadata, uploads) = do
    parsed ← contest_model metadata
    reason ← validate_contest_reason p.category parsed.0
    stager ← stage_all p.nfc p.lower p.sha256 (record { staged = []; total_bytes = 0 }) uploads
    let facts : ContestFacts = record {
      reason = reason;
      expected_state_epoch = parsed.1.expected_state_epoch;
      expected_version = parsed.1.expected_version;
    }
    digest ← contest_digest p.sha256 (contest_metadata facts) (digest_parts stager.staged)
    ok (contest_command charge_id key facts digest, stager.staged)

  unfoldable pub prepare_contest :
      Option Text
      → Option Text
      → Option ContestForm
      → Text
      → Result (ChargeCommand × List StagedAttachment)
  prepare_contest header content_type form charge_id = do
    key ← require_idempotency_key p.uuid_text header
    parsed ← contest_form content_type form
    parts ← split_contest_parts parsed
    prepare_parts charge_id key parts

  -- The uploads after the commit: moved, and moved back by the `except` where the call raised.
  abbrev pub uploads_after :
      {T : Type 0} → Bool → Result T → List FinalizedAttachment → List Entry → List Entry
  uploads_after false result finalized uploads = uploads
  uploads_after true (ok _) finalized uploads = place_all finalized uploads
  uploads_after true (raise _) finalized uploads =
      rollback p.fnmatch finalized (place_all finalized uploads)

  -- The commit and what stands around it.
  unfoldable pub commit_contest :
      Moment → ChargeCommand → List FinalizedAttachment → Store → List Entry → ContestRun
  commit_contest m command finalized store uploads =
      let final = with_attachments p command finalized in
      let run = commit m.commit_at m.disk (charge_mutator m.now m.recorded_at final) store in
      record {
        run = run;
        uploads =
            uploads_after (finalize_called m final store.snapshot) run.result finalized uploads;
      }

  abbrev pub run_contest :
      Moment → Store → List Entry → Result (ChargeCommand × List StagedAttachment) → ContestRun
  run_contest m store uploads (raise error) = record {
    run = record { result = raise error; store = store; published = [] };
    uploads = uploads;
  }
  run_contest m store uploads (ok (command, staged)) =
      commit_contest m command (finalized_from p.hexes 0 staged) store uploads

  unfoldable pub contest_charge :
      Moment
      → Store
      → List Entry
      → Option Text
      → Option Text
      → Option ContestForm
      → Text
      → ContestRun
  contest_charge m store uploads header content_type form charge_id =
      run_contest m store uploads (prepare_contest header content_type form charge_id)
