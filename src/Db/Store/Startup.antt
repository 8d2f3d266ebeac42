-- ===== src/Db/Store/Startup.antt =====
-- `open` of app/db/store.py: the state file is read, checked and upgraded, or a fresh state is
-- seeded; then the attachments are verified and cleaned up. The runtime lock, the marker and the
-- permissions of files are not modelled.
pub mod Integrity
pub mod Restart
use kxinspect_backend.Base.{
  ℕ, ◌+◌, String, Bool, true, false, ◌&&◌, not, Option, none, some, List, [], ◌∷◌, ◌++◌, filter_by,
  get_elem?, if◌then◌else◌, str_eq,
}
use kxinspect_backend.Core.Errors.{Result, ok, raise}
use kxinspect_backend.Db.Text.{Text, text_eq}
use kxinspect_backend.Db.Cursor.{baseline_cursor}
use kxinspect_backend.Db.Entities.{Charge, Entities}
use kxinspect_backend.Db.Models.{
  Body, own_charge, shared_charge, empty_body, StoredEvent, IdempotencyRecord, StoreSnapshot,
}
use kxinspect_backend.Db.Store.{WriteOutcome, persist, seed_snapshot}
use kxinspect_backend.Db.Store.Backfill.{backfill_cost_breakdowns}
use kxinspect_backend.Db.Uploads.{
  Entry, Directory, entries, referenced_attachment_ids, missing_attachments,
  remove_unreferenced_uploads,
}

-- The exceptions that end the startup: `IncompatibleRuntimeStateError`,
-- `CorruptRuntimeStateError`, what `int` raises, and the failure of a write.
pub data StartupError : Type 0 where
  incompatible corrupt bad_number not_written : StartupError

pub data Startup (A : Type 0) : Type 0 where
  started : A → Startup A
  refused : StartupError → Startup A

-- The members of the state file. A text that is missing or of another type is `none`; so are
-- entities of which a list is missing. `some none` is a revision that `int` does not take.
pub record RawState : Type 0 where
  pub schema_version : Option String
  pub contract_version : Option String
  pub seed_version : Option String
  pub state_epoch : Option String
  pub store_revision : Option (Option ℕ)
  pub stream_epoch : Option Text
  pub stream_cursor : Option Text
  pub stream_evicted_through : Option Text
  pub entities : Option Entities
  pub events : List StoredEvent
  pub idempotency : List (String × IdempotencyRecord)

pub data StateFile : Type 0 where
  unreadable not_an_object : StateFile
  holds : RawState → StateFile

-- `str(raw.get(…) or baseline_cursor(…))`
abbrev pub cursor_or : Option Text → Text → Text
cursor_or none baseline = baseline
cursor_or (some []) baseline = baseline
cursor_or (some (c ∷ s)) baseline = c ∷ s

-- The five texts that must be there.
pub record Versions : Type 0 where
  pub schema_version : String
  pub contract_version : String
  pub seed_version : String
  pub state_epoch : String
  pub stream_epoch : Text

abbrev pub versions_from :
    Option String → Option String → Option String → Option String → Option Text → Option Versions
versions_from (some schema) (some contract) (some seed) (some epoch) (some stream) = some (record {
  schema_version = schema;
  contract_version = contract;
  seed_version = seed;
  state_epoch = epoch;
  stream_epoch = stream;
})
versions_from _ _ _ _ _ = none

abbrev pub versions_of : RawState → Option Versions
versions_of raw =
    versions_from raw.schema_version raw.contract_version raw.seed_version raw.state_epoch
      raw.stream_epoch

-- `int(raw.get("storeRevision", 1))`
abbrev pub revision_of : Option (Option ℕ) → Option ℕ
revision_of none = some 1
revision_of (some number) = number

abbrev pub with_revision : RawState → Versions → Entities → Option ℕ → Startup StoreSnapshot
with_revision raw v entities none = refused bad_number
with_revision raw v entities (some revision) = started (record {
  schema_version = v.schema_version;
  contract_version = v.contract_version;
  seed_version = v.seed_version;
  state_epoch = v.state_epoch;
  store_revision = revision;
  stream_epoch = v.stream_epoch;
  stream_cursor = cursor_or raw.stream_cursor (baseline_cursor v.stream_epoch);
  stream_evicted_through = cursor_or raw.stream_evicted_through (baseline_cursor v.stream_epoch);
  entities = entities;
  events = raw.events;
  idempotency = raw.idempotency;
})

abbrev pub with_entities : RawState → Versions → Option Entities → Startup StoreSnapshot
with_entities raw v none = refused corrupt
with_entities raw v (some entities) = with_revision raw v entities (revision_of raw.store_revision)

-- The versions that this build serves.
abbrev pub is_served : Versions → Bool
is_served v = str_eq v.schema_version "1" && str_eq v.contract_version "1"

abbrev pub with_versions : RawState → Option Versions → Startup StoreSnapshot
with_versions raw none = refused corrupt
with_versions raw (some v) =
    if not (is_served v)
    then refused incompatible
    else if not (str_eq v.seed_version "2")
    then refused incompatible
    else with_entities raw v raw.entities

-- `_load_state` up to the upgrade.
unfoldable pub parse_state : StateFile → Startup StoreSnapshot
parse_state unreadable = refused corrupt
parse_state not_an_object = refused corrupt
parse_state (holds raw) = with_versions raw (versions_of raw)

-- A step of the startup that may write the state file: its result, and the snapshot that the file
-- holds afterwards where it was replaced.
abbrev pub Written : Type 0
Written = Startup StoreSnapshot × Option StoreSnapshot

abbrev pub after_write : StoreSnapshot → Result (Unit {0}) × Option StoreSnapshot → Written
after_write snapshot (ok _, disk) = (started snapshot, disk)
after_write snapshot (raise _, disk) = (refused not_written, disk)

abbrev pub with_charges_filled : StoreSnapshot → List Charge → StoreSnapshot
with_charges_filled s charges = record s { entities = record s.entities { charges = charges } }

-- The upgrade, with the entities of the seed files, `none` where one of them cannot be read.
abbrev pub upgrade : WriteOutcome → Option Entities → StoreSnapshot → Written
upgrade write none s = (refused corrupt, none)
upgrade write (some seed) s =
    let (charges, changed) = backfill_cost_breakdowns seed.charges s.entities.charges in
    let filled = with_charges_filled s charges in
    if changed then after_write filled (persist write filled none) else (started filled, none)

abbrev pub upgraded : WriteOutcome → Option Entities → Startup StoreSnapshot → Written
upgraded write seed (refused error) = (refused error, none)
upgraded write seed (started s) = upgrade write seed s

-- `_load_state`
unfoldable pub load_state : WriteOutcome → Option Entities → StateFile → Written
load_state write seed file = upgraded write seed (parse_state file)

-- `_build_seed_snapshot` and `_persist`, where there is no state file.
abbrev pub seed_state : WriteOutcome → Option Entities → String → Text → Written
seed_state write none state_epoch stream_epoch = (refused corrupt, none)
seed_state write (some seed) state_epoch stream_epoch =
    let fresh = seed_snapshot seed state_epoch stream_epoch in
    after_write fresh (persist write fresh none)

abbrev pub read_or_seed :
    WriteOutcome → Option Entities → String → Text → Option StateFile → Written
read_or_seed write seed state_epoch stream_epoch none =
    seed_state write seed state_epoch stream_epoch
read_or_seed write seed state_epoch stream_epoch (some file) = load_state write seed file

abbrev pub staging_name : Text
staging_name = b'.' ∷ b's' ∷ b't' ∷ b'a' ∷ b'g' ∷ b'i' ∷ b'n' ∷ b'g' ∷ []

abbrev pub staging : Entry
staging = record { name = staging_name; is_file = false }

-- `mkdir(exist_ok=True)` of the uploads, and `_clear_staging`.
unfoldable pub prepare_uploads : Directory → Directory
prepare_uploads uploads = some (
    filter_by (λ (e : Entry). not (text_eq e.name staging_name)) (entries uploads)
    ++ (staging ∷ []))

-- What `open` leaves: its result, the state file where it was replaced, and the uploads.
pub record Opened : Type 0 where
  pub result : Startup StoreSnapshot
  pub written : Option StoreSnapshot
  pub uploads : Directory

module _ (fnmatch : Text → Text → Bool) where
  -- `_verify_attachments`, then `_remove_unreferenced_uploads`.
  abbrev pub checked :
      StoreSnapshot → Option StoreSnapshot → Directory → List Text → List Text → Opened
  checked s written uploads referenced [] = record {
    result = started s;
    written = written;
    uploads = remove_unreferenced_uploads referenced uploads;
  }
  checked s written uploads referenced (missing ∷ _) = record {
    result = refused corrupt;
    written = written;
    uploads = uploads;
  }

  abbrev pub verified : Directory → Directory → Written → Opened
  verified uploads static (refused error, written) = record {
    result = refused error;
    written = written;
    uploads = uploads;
  }
  verified uploads static (started s, written) =
      let referenced = referenced_attachment_ids s.entities in
      checked s written uploads referenced (missing_attachments fnmatch uploads static referenced)

  -- `open`, with the two fresh UUIDs of a seeded state.
  unfoldable pub open_store :
      WriteOutcome
      → Option Entities
      → String
      → Text
      → Option StateFile
      → Directory
      → Directory
      → Opened
  open_store write seed state_epoch stream_epoch file uploads static =
      verified (prepare_uploads uploads) static
        (read_or_seed write seed state_epoch stream_epoch file)

-- The body of a ledger record as a member of its own, as JSON text holds it.
abbrev pub detach : List Charge → Body → Body
detach charges (shared_charge i) = elim (get_elem? charges i) [
  | none ↦ empty_body
  | some c ↦ own_charge c
]
detach charges body = body

abbrev pub detach_all :
    List Charge → List (String × IdempotencyRecord) → List (String × IdempotencyRecord)
detach_all charges [] = []
detach_all charges ((key, r) ∷ rest) =
    (key, record r { response_body = detach charges r.response_body }) ∷ detach_all charges rest

-- The snapshot after a dump and a load, in which no two members are one object.
abbrev pub detached : StoreSnapshot → StoreSnapshot
detached s = record s { idempotency = detach_all s.entities.charges s.idempotency }

-- What `_persist` writes for a snapshot.
abbrev pub saved : StoreSnapshot → RawState
saved s = record {
  schema_version = some s.schema_version;
  contract_version = some s.contract_version;
  seed_version = some s.seed_version;
  state_epoch = some s.state_epoch;
  store_revision = some (some s.store_revision);
  stream_epoch = some s.stream_epoch;
  stream_cursor = some s.stream_cursor;
  stream_evicted_through = some s.stream_evicted_through;
  entities = some s.entities;
  events = s.events;
  idempotency = detach_all s.entities.charges s.idempotency;
}
