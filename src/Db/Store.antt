-- ===== src/Db/Store.antt =====
-- `JsonStore` of app/db/store.py: the live snapshot, the file that a restart reads, `commit`, the
-- event ring, `reset` and the idempotency ledger. The store lock makes `commit`, `reset` and reads
-- follow one another, so each is one step.
--
-- A mutator changes the working copy in place or raises; here it takes a snapshot and returns the
-- changed one beside its outcome, or a fault. What the disk does to a write is an argument.
pub mod Lookup
pub mod Atomic
pub mod Ring
pub mod Publish
pub mod Seed
pub mod Backfill
pub mod Startup
pub mod Reset
use kxinspect_backend.Base.{
  ℕ, zero, suc, ◌+◌, ◌-◌, ◌≡◌, ap, String, Bool, true, false, Option, none, some, List, [], ◌∷◌,
  ◌++◌, length, take, drop, if◌then◌else◌, str_eq,
}
use kxinspect_backend.Core.Clock.{DateTime, Stamp, format_instant}
use kxinspect_backend.Core.Errors.{Fault, api, store_unavailable, Result, ok, raise}
use kxinspect_backend.Db.Text.{Text}
use kxinspect_backend.Db.Cursor.{event_id, baseline_cursor}
use kxinspect_backend.Db.Entities.{Entities}
use kxinspect_backend.Db.Models.{
  EventType, ResourceType, ChangeType, StoredEvent, IdempotencyRecord, StoreSnapshot,
}

-- `EVENT_RING_CAPACITY`
abbrev pub event_ring_capacity : ℕ
event_ring_capacity = 100

pub record DraftEvent : Type 0 where
  pub type : EventType
  pub entity_id : String
  pub resource_type : ResourceType
  pub change_type : ChangeType
  pub booking_id : Option String
  pub entity_version : Option ℕ

pub record MutationOutcome (T : Type 0) : Type 0 where
  pub value : T
  pub events : List DraftEvent
  pub persist : Bool
  pub deferred_error : Option Fault

pub record CommitResult (T : Type 0) : Type 0 where
  pub value : T
  pub events : List StoredEvent
  pub state_epoch : String
  pub store_revision : ℕ
  pub stream_epoch : Text
  pub stream_cursor : Text

-- A mutator over the working copy.
abbrev pub Mutator : Type 0 → Type 0
Mutator T = StoreSnapshot → Result (MutationOutcome T × StoreSnapshot)

abbrev pub stored_event : StoreSnapshot → Stamp → ℕ → DraftEvent → StoredEvent
stored_event s occurred_at ordinal draft = record {
  id = event_id s.stream_epoch s.store_revision ordinal;
  state_epoch = s.state_epoch;
  store_revision = s.store_revision;
  type = draft.type;
  occurred_at = occurred_at;
  booking_id = draft.booking_id;
  entity_id = draft.entity_id;
  entity_version = draft.entity_version;
  data_of = record { resource_type = draft.resource_type; change_type = draft.change_type };
}

-- The loop of `_append_events`, from one ordinal on.
unfoldable pub stored_from : StoreSnapshot → Stamp → ℕ → List DraftEvent → List StoredEvent
stored_from s occurred_at ordinal [] = []
stored_from s occurred_at ordinal (draft ∷ drafts) =
    stored_event s occurred_at ordinal draft ∷ stored_from s occurred_at (suc ordinal) drafts

-- The id of the last event of a list, or what stood there before.
unfoldable pub last_id : Text → List StoredEvent → Text
last_id before [] = before
last_id before (e ∷ es) = last_id e.id es

-- The ring's part of `_append_events`: `combined[:-100]` is evicted, `combined[-100:]` kept.
unfoldable pub keep_last : StoreSnapshot → List StoredEvent → StoreSnapshot
keep_last s stored =
    let combined = s.events ++ stored in
    let surplus : ℕ = length combined - event_ring_capacity in
    record s {
      stream_evicted_through = last_id s.stream_evicted_through (take surplus combined);
      events = drop surplus combined;
      stream_cursor = last_id s.stream_cursor stored;
    }

unfoldable pub append_events :
    DateTime → StoreSnapshot → List DraftEvent → StoreSnapshot × List StoredEvent
append_events now s [] = (s, [])
append_events now s (draft ∷ drafts) =
    let stored = stored_from s (format_instant now) 1 (draft ∷ drafts) in
    (keep_last s stored, stored)

-- The snapshot in memory, `none` before `open`, and the content of the state file.
pub record Store : Type 0 where
  pub snapshot : Option StoreSnapshot
  pub disk : Option StoreSnapshot

-- What a write to the disk comes to. The replacement of the file may stand although the call
-- raises: `_fsync_directory` runs after it, under the same `except`.
pub data WriteOutcome : Type 0 where
  written failed_before_replace failed_after_replace : WriteOutcome

-- `_persist`: the outcome of the call, and the file afterwards.
unfoldable pub persist :
    WriteOutcome → StoreSnapshot → Option StoreSnapshot → Result (Unit {0}) × Option StoreSnapshot
persist written new disk = (ok tt, some new)
persist failed_before_replace new disk = (raise (api store_unavailable), disk)
persist failed_after_replace new disk = (raise (api store_unavailable), some new)

-- What a call of `commit` leaves: its result, the store, and the events handed to the publisher.
pub record CommitRun (T : Type 0) : Type 0 where
  pub result : Result (CommitResult T)
  pub store : Store
  pub published : List StoredEvent

module _ {T : Type 0} where
  abbrev pub commit_result :
      StoreSnapshot → MutationOutcome T → List StoredEvent → Result (CommitResult T)
  commit_result target outcome events = elim outcome.deferred_error [
    | some error ↦ raise error
    | none ↦ ok (record {
      value = outcome.value;
      events = events;
      state_epoch = target.state_epoch;
      store_revision = target.store_revision;
      stream_epoch = target.stream_epoch;
      stream_cursor = target.stream_cursor;
    })
  ]

  -- After `_persist`: only a write that did not raise makes the working copy live and publishes.
  abbrev pub after_persist :
      Store
      → MutationOutcome T
      → StoreSnapshot
      → List StoredEvent
      → Result (Unit {0}) × Option StoreSnapshot
      → CommitRun T
  after_persist store outcome working events (ok _, disk) = record {
    result = commit_result working outcome events;
    store = record { snapshot = some working; disk = disk };
    published = events;
  }
  after_persist store outcome working events (raise error, disk) = record {
    result = raise error;
    store = record store { disk = disk };
    published = [];
  }

  abbrev pub after_mutator :
      DateTime
      → WriteOutcome
      → Store
      → StoreSnapshot
      → Result (MutationOutcome T × StoreSnapshot)
      → CommitRun T
  after_mutator now write store current (raise error) = record {
    result = raise error;
    store = store;
    published = [];
  }
  after_mutator now write store current (ok (outcome, mutated)) =
      let bumped = record mutated { store_revision = current.store_revision + 1 } in
      let appended = append_events now bumped outcome.events in
      if outcome.persist
      then after_persist store outcome appended.0 appended.1 (persist write appended.0 store.disk)
      else record { result = commit_result current outcome []; store = store; published = [] }

  -- Under the lock, with what `_require_snapshot` finds.
  abbrev pub run_mutator :
      DateTime → WriteOutcome → Mutator T → Store → Option StoreSnapshot → CommitRun T
  run_mutator now write mutator store none = record {
    result = raise (api store_unavailable);
    store = store;
    published = [];
  }
  run_mutator now write mutator store (some current) =
      after_mutator now write store current (mutator current)

  unfoldable pub commit : DateTime → WriteOutcome → Mutator T → Store → CommitRun T
  unfolding append_events persist
  commit now write mutator store = run_mutator now write mutator store store.snapshot

  pub commit_lem :
      (now : DateTime) (write : WriteOutcome) (m : Mutator T) (store : Store)
      (current : StoreSnapshot)
      → store.snapshot ≡ some current
      → commit now write m store ≡ after_mutator now write store current (m current)
  unfolding commit
  commit_lem now write m store current live = ap (run_mutator now write m store) live

-- `_build_seed_snapshot`, with the entities of the seed files and the two fresh UUIDs.
unfoldable pub seed_snapshot : Entities → String → Text → StoreSnapshot
seed_snapshot seed state_epoch stream_epoch = record {
  schema_version = "1";
  contract_version = "1";
  seed_version = "2";
  state_epoch = state_epoch;
  store_revision = 1;
  stream_epoch = stream_epoch;
  stream_cursor = baseline_cursor stream_epoch;
  stream_evicted_through = baseline_cursor stream_epoch;
  entities = seed;
  events = [];
  idempotency = [];
}

abbrev pub after_reset :
    Store → StoreSnapshot → Result (Unit {0}) × Option StoreSnapshot → Result StoreSnapshot × Store
after_reset store fresh (ok _, disk) = (ok fresh, record { snapshot = some fresh; disk = disk })
after_reset store fresh (raise error, disk) = (raise error, record store { disk = disk })

-- `reset`, but for the uploads, which Db/Store/Reset has.
unfoldable pub reset :
    WriteOutcome → Entities → String → Text → Store → Result StoreSnapshot × Store
unfolding persist seed_snapshot
reset write seed state_epoch stream_epoch store =
    let fresh = seed_snapshot seed state_epoch stream_epoch in
    after_reset store fresh (persist write fresh store.disk)

-- `lookup_idempotency`: `dict.get`.
unfoldable pub ledger_get : String → List (String × IdempotencyRecord) → Option IdempotencyRecord
ledger_get key [] = none
ledger_get key ((k, r) ∷ rest) = if str_eq k key then some r else ledger_get key rest

-- `record_idempotency`: an assignment to a key of a dictionary, in place if the key is there.
unfoldable pub ledger_set :
    String
    → IdempotencyRecord
    → List (String × IdempotencyRecord)
    → List (String × IdempotencyRecord)
ledger_set key record_of [] = (key, record_of) ∷ []
ledger_set key record_of ((k, r) ∷ rest) =
    if str_eq k key then (k, record_of) ∷ rest else (k, r) ∷ ledger_set key record_of rest

-- `find_entity` over one collection, with its position: the first item with the id.
unfoldable pub find_entity : {A : Type 0} → (A → String) → String → List A → Option (ℕ × A)
find_entity id_of entity_id [] = none
find_entity id_of entity_id (x ∷ xs) =
    if str_eq (id_of x) entity_id
    then some (0, x)
    else elim (find_entity id_of entity_id xs) [ none ↦ none | some (i, y) ↦ some (suc i, y) ]
