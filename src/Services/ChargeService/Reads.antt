-- ===== src/Services/ChargeService/Reads.antt =====
-- The reads of app/services/charge_service.py, each on the snapshot that it takes, and the delay of
-- the deadline scheduler.
pub mod Scheduler
use kxinspect_backend.Base.{
  ℕ, ◌-◌, String, Bool, true, false, not, Option, none, some, List, [], ◌∷◌, filter_by, any_of, map,
  ltb, min, if◌then◌else◌, str_eq,
}
use kxinspect_backend.Core.Clock.{DateTime, Stamp, format_instant, parse_instant}
use kxinspect_backend.Core.Errors.{
  ApiError, api, booking_not_found, charge_not_found, inspection_not_found, report_not_found,
  Result, ok, raise,
}
use kxinspect_backend.Domain.ChargeState.{ChargeStatus, outstanding, status_eq}
use kxinspect_backend.Db.Text.{Text}
use kxinspect_backend.Db.Entities.{
  Booking, InventoryReport, Inspection, MaintenanceTask, Charge, AppNotification, Entities,
}
use kxinspect_backend.Db.Models.{StoreSnapshot}
use kxinspect_backend.Db.Store.{find_entity}

unfoldable pub bookings : StoreSnapshot → List Booking
bookings s = s.entities.bookings

pub record HubSnapshot : Type 0 where
  pub booking : Booking
  pub inventory_reports : List InventoryReport
  pub inspections : List Inspection
  pub tasks : List MaintenanceTask
  pub charges : List Charge
  pub notifications : List AppNotification
  pub generated_at : Stamp

-- `n["chargeId"] in charge_ids`
abbrev pub about_one_of : List Charge → AppNotification → Bool
about_one_of charges n = elim n.charge_id [
  | none ↦ false
  | some charge_id ↦ any_of (λ (c : Charge). str_eq c.id charge_id) charges
]

abbrev pub of_booking : String → List Charge → List Charge
of_booking booking_id = filter_by (λ (c : Charge). str_eq c.booking_id booking_id)

abbrev pub hub_of : DateTime → StoreSnapshot → String → Option (ℕ × Booking) → Result HubSnapshot
hub_of now s booking_id none = raise (api (booking_not_found booking_id))
hub_of now s booking_id (some (_, booking)) =
    let charges = of_booking booking_id s.entities.charges in
    ok (record {
      booking = booking;
      inventory_reports =
          filter_by (λ (r : InventoryReport). str_eq r.booking_id booking_id)
            s.entities.inventory_reports;
      inspections =
          filter_by (λ (i : Inspection). str_eq i.booking_id booking_id) s.entities.inspections;
      tasks = filter_by (λ (t : MaintenanceTask). str_eq t.booking_id booking_id) s.entities.tasks;
      charges = charges;
      notifications = filter_by (about_one_of charges) s.entities.notifications;
      generated_at = format_instant now;
    })

-- `hub`, after its reconciliation.
unfoldable pub hub : DateTime → StoreSnapshot → String → Result HubSnapshot
hub now s booking_id =
    hub_of now s booking_id (find_entity (λ (b : Booking). b.id) booking_id s.entities.bookings)

-- `sync_snapshot`, after its reconciliation: all rows, with the stream's epoch and cursor of the
-- same revision.
unfoldable pub sync_snapshot : StoreSnapshot → Entities × (Text × Text)
sync_snapshot s = (s.entities, (s.stream_epoch, s.stream_cursor))

abbrev pub found_or {ℓ} : {A : Type ℓ} → ApiError → Option (ℕ × A) → Result A
found_or error none = raise (api error)
found_or error (some (_, a)) = ok a

unfoldable pub report : StoreSnapshot → String → Result InventoryReport
report s report_id =
    found_or (report_not_found report_id)
      (find_entity (λ (r : InventoryReport). r.id) report_id s.entities.inventory_reports)

unfoldable pub inspection : StoreSnapshot → String → Result Inspection
inspection s inspection_id =
    found_or (inspection_not_found inspection_id)
      (find_entity (λ (i : Inspection). i.id) inspection_id s.entities.inspections)

-- `row["status"] in statuses`
abbrev pub one_of : List ChargeStatus → Charge → Bool
one_of statuses c = any_of (status_eq c.status) statuses

abbrev pub by_booking : Option String → List Charge → List Charge
by_booking none rows = rows
by_booking (some booking_id) rows = of_booking booking_id rows

abbrev pub by_statuses : List ChargeStatus → List Charge → List Charge
by_statuses [] rows = rows
by_statuses (s ∷ ss) rows = filter_by (one_of (s ∷ ss)) rows

-- `charges`, after its reconciliation.
unfoldable pub charges : StoreSnapshot → Option String → List ChargeStatus → List Charge
charges s booking_id statuses = by_statuses statuses (by_booking booking_id s.entities.charges)

-- `charge`, after its reconciliation.
unfoldable pub charge : StoreSnapshot → String → Result Charge
charge s charge_id =
    found_or (charge_not_found charge_id)
      (find_entity (λ (c : Charge). c.id) charge_id s.entities.charges)

abbrev pub created_after : Option Stamp → List AppNotification → List AppNotification
created_after none rows = rows
created_after (some after) rows =
    filter_by (λ (n : AppNotification). ltb (parse_instant after) (parse_instant n.created_at)) rows

unfoldable pub notifications : StoreSnapshot → Option Stamp → Bool → List AppNotification
notifications s after unread_only =
    let rows = created_after after s.entities.notifications in
    if unread_only then filter_by (λ (n : AppNotification). not n.read) rows else rows

-- `min(future) if future else None`
abbrev pub least : List ℕ → Option ℕ
least [] = none
least (x ∷ xs) = elim (least xs) [ none ↦ some x | some y ↦ some (min x y) ]

abbrev pub candidates : List Charge → List DateTime
candidates cs =
    map (λ (c : Charge). parse_instant c.deadline_at)
      (filter_by (λ (c : Charge). status_eq c.status outstanding) cs)

-- `next_deadline_seconds`, in microseconds.
unfoldable pub next_deadline_micros : DateTime → StoreSnapshot → Option ℕ
next_deadline_micros now s = least (
    map (λ deadline. deadline - now)
      (filter_by (λ deadline. ltb now deadline) (candidates s.entities.charges)))
