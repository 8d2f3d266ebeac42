-- ===== src/Tests/Startup.antt =====
-- Witnesses on the start of the store, its uploads and the contest of a charge.
use mathlib.Core.List.{reverse}
use kxinspect_backend.Base.{◌≡◌, refl, ap, true, none, some, [], ◌∷◌, inl, inr, All, Bool, drop}
use kxinspect_backend.Core.Errors.{api, store_unavailable, raise}
use kxinspect_backend.Domain.ChargeState.{contested}
use kxinspect_backend.Db.Text.{Text, codes}
use kxinspect_backend.Db.Entities.{Charge, ContestAttachment}
use kxinspect_backend.Db.Models.{StoreSnapshot}
use kxinspect_backend.Db.Store.{Store, written, failed_before_replace, seed_snapshot}
use kxinspect_backend.Db.Store.Reset.{ResetRun, reset_all, reset_all_failed}
use kxinspect_backend.Db.Store.Startup.{
  incompatible, corrupt, started, refused, RawState, holds, Versions, Opened, prepare_uploads,
  staging, versions_of, open_store, detached, saved,
}
use kxinspect_backend.Db.Store.Startup.Integrity.{IsServing, open_store-IsServing}
use kxinspect_backend.Db.Store.Startup.Restart.{
  IsCurrent, open_store-saved, open_store-incompatible,
}
use kxinspect_backend.Domain.CostBreakdown.{default_cost_breakdown}
use kxinspect_backend.Db.Cursor.{baseline_cursor}
use kxinspect_backend.Db.Uploads.{
  Entry, Directory, referenced_attachment_ids, resolve_attachment, missing_attachments, file_in,
  stem, remove_unreferenced_uploads, entries,
}
use kxinspect_backend.Db.Uploads.Cleanup.{In, IsNamed}
use kxinspect_backend.Services.Attachments.{starts_with, rpartition}
use kxinspect_backend.Services.ChargeService.Operator.{raised_charge}
use kxinspect_backend.Tests.Data.{charge, entities, stream}

-- The test of `glob` on patterns that end in `*` and have no other mark.
abbrev pub star_match : Text → Text → Bool
star_match pattern name = starts_with (reverse (drop 1 (reverse pattern))) name

abbrev evidence : ContestAttachment
evidence = record {
  id = "att_1";
  display_name = "a.png";
  media_type = "image/png";
  size_bytes = 3;
  sha256 = "00";
  download_url = codes "/api/v1/attachments/att_1";
  thumbnail_url = none;
}

abbrev contested_charge : Charge
contested_charge = record charge { status = contested; contest_attachments = evidence ∷ [] }

abbrev with_evidence : StoreSnapshot
with_evidence = seed_snapshot (record entities { charges = contested_charge ∷ [] }) "epoch-1" stream

abbrev file : Text → Entry
file name = record { name = name; is_file = true }

-- One upload that the state refers to, and one that it does not.
abbrev uploads : Directory
uploads = some (file (codes "att_1.png") ∷ file (codes "att_2.png") ∷ [])

abbrev opened : Opened
opened =
    open_store star_match written (some entities) "epoch-2" stream
      (some (holds (saved with_evidence))) uploads none

references : referenced_attachment_ids with_evidence.entities ≡ codes "att_1" ∷ []
unfolding referenced_attachment_ids rpartition seed_snapshot raised_charge
references = refl

evidence-IsCurrent : IsCurrent with_evidence
unfolding seed_snapshot raised_charge default_cost_breakdown baseline_cursor
evidence-IsCurrent = record {
  schema = refl;
  contract = refl;
  seed = refl;
  cursor = λ e. cc;
  evicted = λ e. cc;
  filled = (refl, tt);
}

all_there :
    missing_attachments star_match
      (prepare_uploads uploads)
      none
      (referenced_attachment_ids with_evidence.entities)
    ≡ []
unfolding missing_attachments resolve_attachment file_in prepare_uploads
all_there = rw references refl

open_store-saved_example :
    open_store star_match written
      (some entities)
      "epoch-2"
      stream
      (some (holds (saved with_evidence)))
      uploads
      none
    ≡ record {
      result = started (detached with_evidence);
      written = none;
      uploads =
          remove_unreferenced_uploads
            (referenced_attachment_ids with_evidence.entities)
            (prepare_uploads uploads);
    }
open_store-saved_example =
    open_store-saved star_match written entities "epoch-2" stream with_evidence uploads none
      evidence-IsCurrent all_there

open_evidence :
    open_store star_match written
      (some entities)
      "epoch-2"
      stream
      (some (holds (saved with_evidence)))
      uploads
      none
    ≡ record {
      result = started (detached with_evidence);
      written = none;
      uploads =
          remove_unreferenced_uploads
            (referenced_attachment_ids with_evidence.entities)
            (prepare_uploads uploads);
    }
open_evidence =
    open_store-saved star_match written entities "epoch-2" stream with_evidence uploads none
      evidence-IsCurrent all_there

IsNamed-one :
    (e : Entry)
    → (e.is_file ≡ true → starts_with (codes "att_1.") e.name ≡ true → stem e.name ≡ codes "att_1")
    → IsNamed star_match (codes "att_1" ∷ []) e
IsNamed-one e h i (inl same) is_file m = rw same (h is_file (rw same at m))
IsNamed-one e h i (inr other) is_file m = absurd other

uploads-IsNamed :
    All
      (IsNamed star_match (referenced_attachment_ids with_evidence.entities))
      (entries (prepare_uploads uploads))
unfolding prepare_uploads stem rpartition
uploads-IsNamed = rw references (
  IsNamed-one (file (codes "att_1.png")) (λ f m. refl),
  (
    IsNamed-one (file (codes "att_2.png")) (λ f m. absurd (cc)),
    (IsNamed-one staging (λ f m. absurd (cc)), tt),
  ),
)

open_store-IsServing_example : IsServing star_match none (detached with_evidence) opened.uploads
open_store-IsServing_example =
    open_store-IsServing star_match written (some entities) "epoch-2" stream
      (some (holds (saved with_evidence))) uploads none (detached with_evidence) uploads-IsNamed
      (ap (λ (o : Opened). o.result) open_evidence)

abbrev other_versions : Versions
other_versions = record {
  schema_version = "1";
  contract_version = "1";
  seed_version = "1";
  state_epoch = "epoch-0";
  stream_epoch = stream;
}

abbrev older : RawState
older = record (saved with_evidence) { seed_version = some "1"; state_epoch = some "epoch-0" }

older_versions : versions_of older ≡ some other_versions
unfolding seed_snapshot
older_versions = refl

open_store-incompatible_example :
    open_store star_match written none "epoch-2" stream (some (holds older)) uploads none
    ≡ record { result = refused incompatible; written = none; uploads = prepare_uploads uploads }
open_store-incompatible_example =
    open_store-incompatible star_match written none "epoch-2" stream older other_versions uploads
      none older_versions refl

first_listed : In (codes "att_1") (referenced_attachment_ids with_evidence.entities)
first_listed = rw references (inl refl)

no_static : file_in star_match (codes "att_1") none ≡ none
unfolding file_in
no_static = refl

abbrev serving_evidence : Store
serving_evidence = record { snapshot = some with_evidence; disk = some with_evidence }

abbrev failed_reset : ResetRun
failed_reset = reset_all failed_before_replace entities "epoch-2" stream serving_evidence uploads

reset_all_failed_example :
    (failed_reset.result ≡ raise (api store_unavailable))
    × (failed_reset.store ≡ serving_evidence)
    × (resolve_attachment star_match failed_reset.uploads none (codes "att_1") ≡ none)
    × ((open_store star_match written
          (some entities)
          "epoch-2"
          stream
          (some (holds (saved with_evidence)))
          failed_reset.uploads
          none).result
        ≡ refused corrupt)
reset_all_failed_example =
    reset_all_failed star_match entities "epoch-2" stream with_evidence uploads none (codes "att_1")
      written evidence-IsCurrent first_listed no_static
