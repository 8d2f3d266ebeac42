-- ===== src/Api/Commands/Contest/Route.antt =====
-- The whole of `contest_charge` of app/api/v1/endpoints/commands.py: from the form to the uploads that
-- it leaves.
use kxinspect_backend.Base.{ℕ, ◌≡◌, refl, sym, ap, Option, some, List, []}
use kxinspect_backend.Core.CanonicalJson.{Members}
use kxinspect_backend.Core.Errors.{Result, ok, raise, bind-ok}
use kxinspect_backend.Core.Idempotency.{require_idempotency_key, contest_digest}
use kxinspect_backend.Core.Idempotency.Contest.{ContestFacts, contest_metadata}
use kxinspect_backend.Domain.ChargeState.{contest}
use kxinspect_backend.Db.Text.{Text}
use kxinspect_backend.Db.Models.{StoreSnapshot}
use kxinspect_backend.Db.Store.{Store}
use kxinspect_backend.Db.Uploads.{Entry, Directory}
use kxinspect_backend.Services.Attachments.{StagedAttachment, UploadSource, stage_all}
use kxinspect_backend.Services.Attachments.Finalize.{finalized_from}
use kxinspect_backend.Services.Attachments.Finalize.Named.{
  AllDotted, stage_all-AllDotted, IsPlain, IsGlob, AreUnused, finalized_from-IsAddressed,
  finalized_from-AreFresh,
}
use kxinspect_backend.Services.ChargeService.Commands.{ChargeCommand}
use kxinspect_backend.Services.ChargeService.Requests.{Moment}
use kxinspect_backend.Services.ChargeService.Validation.{validate_contest_reason}
use kxinspect_backend.Api.Deps.{Platform}
use kxinspect_backend.Api.Commands.Contest.{
  ContestForm, contest_form, split_contest_parts, contest_model, contest_command, digest_parts,
  prepare_parts, prepare_contest, run_contest, contest_charge,
}
use kxinspect_backend.Api.Commands.Contest.Kept.{IsServed, commit_contest-IsServed}

module _ (p : Platform) where
  -- What a request that reaches the commit hands to it.
  prepare_parts-contest :
      (charge_id key : Text) (parts : Members × List UploadSource) (command : ChargeCommand)
      (staged : List StagedAttachment)
      → prepare_parts p charge_id key parts ≡ ok (command, staged)
      → (command.event ≡ contest) × AllDotted staged
  prepare_parts-contest charge_id key (metadata, uploads) command staged h =
      let (parsed, _, h1) = bind-ok (contest_model metadata) _ (command, staged) h in
      let (reason, _, h2) =
        bind-ok (validate_contest_reason p.category parsed.0) _ (command, staged) h1 in
      let (stager, taken, h3) =
        bind-ok (stage_all p.nfc p.lower p.sha256 (record { staged = []; total_bytes = 0 }) uploads)
          _ (command, staged) h2 in
      let facts : ContestFacts = record {
        reason = reason;
        expected_state_epoch = parsed.1.expected_state_epoch;
        expected_version = parsed.1.expected_version;
      } in
      let (digest, _, h4) =
        bind-ok (contest_digest p.sha256 (contest_metadata facts) (digest_parts stager.staged)) _
          (command, staged) h3 in
      let commands : contest_command p charge_id key facts digest ≡ command = cc in
      let files : stager.staged ≡ staged = cc in
      let dotted =
        stage_all-AllDotted p.nfc p.lower p.sha256 (record { staged = []; total_bytes = 0 }) uploads
          stager taken tt in
      (ap (λ (c : ChargeCommand). c.event) (sym commands), rw files at dotted)

  prepare_contest-contest :
      (header content_type : Option Text) (form : Option ContestForm) (charge_id : Text)
      (command : ChargeCommand) (staged : List StagedAttachment)
      → prepare_contest p header content_type form charge_id ≡ ok (command, staged)
      → (command.event ≡ contest) × AllDotted staged
  unfolding prepare_contest
  prepare_contest-contest header content_type form charge_id command staged h =
      let (key, _, h1) =
        bind-ok (require_idempotency_key p.uuid_text header) _ (command, staged) h in
      let (parsed, _, h2) = bind-ok (contest_form content_type form) _ (command, staged) h1 in
      let (parts, _, h3) = bind-ok (split_contest_parts parsed) _ (command, staged) h2 in
      prepare_parts-contest charge_id key parts command staged h3

module _ (p : Platform) (static : Directory) (m : Moment) (glob : IsGlob p.fnmatch)
    (plain : (n : ℕ) → IsPlain (p.hexes n)) where
  run_contest-IsServed :
      (prepared : Result (ChargeCommand × List StagedAttachment)) (store : Store)
      (s : StoreSnapshot) (uploads : List Entry) (t : StoreSnapshot)
      → ((command : ChargeCommand) (staged : List StagedAttachment)
          → prepared ≡ ok (command, staged)
          → (command.event ≡ contest) × AllDotted staged)
      → store.snapshot ≡ some s
      → AreUnused p.hexes uploads
      → IsServed p.fnmatch static uploads s
      → (run_contest p m store uploads prepared).run.store.snapshot ≡ some t
      → IsServed p.fnmatch static (run_contest p m store uploads prepared).uploads t
  run_contest-IsServed (raise f) store s uploads t shape live unused before after =
      let same : s ≡ t = cc in rw same at before
  run_contest-IsServed (ok (command, staged)) store s uploads t shape live unused before after =
      let (is_contest, dotted) = shape command staged refl in
      commit_contest-IsServed p static m command (finalized_from p.hexes 0 staged) store s uploads t
        is_contest live (finalized_from-IsAddressed p.fnmatch glob p.hexes plain 0 staged dotted)
        (finalized_from-AreFresh p.fnmatch glob p.hexes plain 0 staged uploads dotted unused) before
        after

  -- Take any request to contest a charge, whatever its headers and its form, at a state of which every
  -- referenced id finds a file; UUIDs whose hexadecimal texts are plain and start no name among the
  -- uploads; and a `glob` that finds by a plain id and `.*` the names that start with the id and a
  -- dot. Whatever the handler ends in (a refused form or file, a replay, a refusal, a success) and
  -- whatever the disk does to the write, every id that the live state refers to afterwards finds a
  -- file among the uploads that the handler leaves.
  pub contest_charge-IsServed :
      (store : Store) (s : StoreSnapshot) (uploads : List Entry) (header content_type : Option Text)
      (form : Option ContestForm) (charge_id : Text) (t : StoreSnapshot)
      → store.snapshot ≡ some s
      → AreUnused p.hexes uploads
      → IsServed p.fnmatch static uploads s
      → (contest_charge p m store uploads header content_type form charge_id).run.store.snapshot
        ≡ some t
      → IsServed p.fnmatch static
          (contest_charge p m store uploads header content_type form charge_id).uploads
          t
  unfolding contest_charge
  contest_charge-IsServed store s uploads header content_type form charge_id t live unused before
        after =
      run_contest-IsServed (prepare_contest p header content_type form charge_id) store s uploads t
        (prepare_contest-contest p header content_type form charge_id) live unused before after
