-- ===== src/Api/Reads.antt =====
-- The routes of app/api/v1/endpoints/reads.py, each with the reconciliation that it runs first. The
-- models of the responses are those of the stored shapes.
pub mod Settled
use kxinspect_backend.Base.{ℕ, String, Bool, Option, none, some, List, [], ◌∷◌, if◌then◌else◌}
use kxinspect_backend.Core.Clock.{DateTime, Stamp, format_instant}
use kxinspect_backend.Core.Errors.{api, store_unavailable, validation, Result, ok, raise, ◌>>=◌}
use kxinspect_backend.Domain.ChargeState.{
  ChargeStatus, outstanding, accepted, contested, resolved, paid,
}
use kxinspect_backend.Db.Text.{Text, codes, text_eq}
use kxinspect_backend.Db.Entities.{
  Booking, InventoryReport, Inspection, Charge, AppNotification, Entities,
}
use kxinspect_backend.Db.Models.{StoredEvent, StoreSnapshot}
use kxinspect_backend.Db.Store.{Store, CommitRun, CommitResult, commit}
use kxinspect_backend.Services.ChargeService.Reads.{
  HubSnapshot, bookings, hub, sync_snapshot, report, inspection, charges, charge, notifications,
}
use kxinspect_backend.Services.ChargeService.Reconcile.{reconcile_mutator}
use kxinspect_backend.Services.ChargeService.Requests.{Moment}
use kxinspect_backend.Api.Deps.{Envelope, envelope, Meta, meta_for}

-- What a read leaves: its answer, and the store and the events of its reconciliation.
pub record ReadRun (A : Type 0) : Type 0 where
  pub result : Result A
  pub store : Store
  pub published : List StoredEvent

-- `snapshot()` of the store, and a read on it.
abbrev pub live_read : {A : Type 0} → (StoreSnapshot → Result A) → Option StoreSnapshot → Result A
live_read read none = raise (api store_unavailable)
live_read read (some s) = read s

abbrev pub after_settling :
    {A : Type 0} → (StoreSnapshot → Result A) → Store → Result (CommitResult ℕ) → Result A
after_settling read store (raise error) = raise error
after_settling read store (ok _) = live_read read store.snapshot

-- `reconcile_now()`
abbrev pub settling : Moment → Store → CommitRun ℕ
settling m store = commit m.commit_at m.disk (reconcile_mutator m.now) store

-- A read of the service that reconciles first, and one that does not.
abbrev pub settled_read : {A : Type 0} → Moment → Store → (StoreSnapshot → Result A) → ReadRun A
settled_read m store read =
    let run = settling m store in
    record {
      result = after_settling read run.store run.result;
      store = run.store;
      published = run.published;
    }

abbrev pub plain_read : {A : Type 0} → Store → (StoreSnapshot → Result A) → ReadRun A
plain_read store read = record {
  result = live_read read store.snapshot;
  store = store;
  published = [];
}

-- The response, with the id of the request and the instant at which it is built.
abbrev pub respond : {A : Type 0} → String → DateTime → ReadRun A → ReadRun (Envelope A)
respond request_id at run = record {
  result = run.result >>= λ content. ok (envelope request_id at run.store content);
  store = run.store;
  published = run.published;
}

pub record HealthData : Type 0 where
  pub status : String
  pub schema_version : String
  pub contract_version : String
  pub seed_version : String
  pub server_time : Stamp
  pub dev_routes_enabled : Bool

unfoldable pub health : String → DateTime → Bool → Store → Envelope HealthData
health request_id at enabled store = envelope request_id at store (record {
  status = "ok";
  schema_version = "1";
  contract_version = "1";
  seed_version = "2";
  server_time = format_instant at;
  dev_routes_enabled = enabled;
})

-- `ChargeStatus(value)`
abbrev pub status_of : Text → Option ChargeStatus
status_of s =
    if text_eq s (codes "outstanding")
    then some outstanding
    else if text_eq s (codes "accepted")
    then some accepted
    else if text_eq s (codes "contested")
    then some contested
    else if text_eq s (codes "resolved")
    then some resolved
    else if text_eq s (codes "paid")
    then some paid
    else none

abbrev pub known : Option ChargeStatus → Result ChargeStatus
known none = raise (api validation)
known (some status) = ok status

-- The filter of statuses; one that is unknown is refused.
unfoldable pub statuses_of : List Text → Result (List ChargeStatus)
statuses_of [] = ok []
statuses_of (s ∷ rest) =
    known (status_of s) >>= λ status. statuses_of rest >>= λ others. ok (status ∷ others)

-- A request that is refused before it reaches the service.
abbrev pub checked_read : {A B : Type 0} → Store → (B → ReadRun A) → Result B → ReadRun A
checked_read store run (raise error) = record {
  result = raise error;
  store = store;
  published = [];
}
checked_read store run (ok b) = run b

-- The instant of `after` is `some none` where `parse_instant` raises.
abbrev pub after_of : Option (Option Stamp) → Result (Option Stamp)
after_of none = ok none
after_of (some none) = raise (api validation)
after_of (some (some stamp)) = ok (some stamp)

module _ (request_id : String) (at : DateTime) (m : Moment) (store : Store) where
  unfoldable pub list_bookings : ReadRun (Envelope (List Booking))
  list_bookings = respond request_id at (plain_read store (λ s. ok (bookings s)))

  -- `read_at` is the clock after the reconciliation.
  unfoldable pub booking_hub : DateTime → String → ReadRun (Envelope HubSnapshot)
  booking_hub read_at booking_id =
      respond request_id at (settled_read m store (λ s. hub read_at s booking_id))

  -- The stream's epoch and cursor stand in the metadata of the source.
  unfoldable pub sync_snapshot_route : ReadRun (Envelope (Entities × (Text × Text)))
  sync_snapshot_route = respond request_id at (settled_read m store (λ s. ok (sync_snapshot s)))

  unfoldable pub inventory_report : String → ReadRun (Envelope InventoryReport)
  inventory_report report_id = respond request_id at (plain_read store (λ s. report s report_id))

  unfoldable pub inspection_route : String → ReadRun (Envelope Inspection)
  inspection_route inspection_id =
      respond request_id at (plain_read store (λ s. inspection s inspection_id))

  unfoldable pub list_charges : Option String → List Text → ReadRun (Envelope (List Charge))
  list_charges booking_id status = respond request_id at (
      checked_read store
        (λ statuses. settled_read m store (λ s. ok (charges s booking_id statuses)))
        (statuses_of status))

  unfoldable pub charge_detail : String → ReadRun (Envelope Charge)
  charge_detail charge_id = respond request_id at (settled_read m store (λ s. charge s charge_id))

  unfoldable pub list_notifications :
      Option (Option Stamp) → Bool → ReadRun (Envelope (List AppNotification))
  list_notifications after unread_only = respond request_id at (
      checked_read store (λ bound. plain_read store (λ s. ok (notifications s bound unread_only)))
        (after_of after))
