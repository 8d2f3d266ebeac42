-- ===== src/Tests/Data.antt =====
-- A small store: one booking, one outstanding charge, and commands on it.
use kxinspect_backend.Base.{ℕ, String, true, none, some, [], ◌∷◌}
use kxinspect_backend.Base.Int.{pos}
use kxinspect_backend.Core.Clock.{DateTime}
use kxinspect_backend.Core.Errors.{Result, ok, raise}
use kxinspect_backend.Domain.ChargeState.{ChargeEvent, accept, pay}
use kxinspect_backend.Db.Text.{Text}
use kxinspect_backend.Db.Entities.{
  Booking, MaintenanceTask, TaskCategory, TaskStatus, Charge, ChargeType, Entities,
}
use kxinspect_backend.Db.Models.{EventType, ResourceType, ChangeType, StoredEvent, StoreSnapshot}
use kxinspect_backend.Db.Store.{DraftEvent, Store, CommitResult, seed_snapshot}
use kxinspect_backend.Services.ChargeService.Ledger.{CommandResult, empty_response}
use kxinspect_backend.Services.ChargeService.Commands.{ChargeCommand}
use kxinspect_backend.Services.ChargeService.Operator.{RaisedCharge, raised_charge}

abbrev pub booking : Booking
booking = record {
  id = "BKG-1";
  property_code = "P";
  room_name = "R";
  display_location = "L";
  start_date = record { millis = 0 };
  end_date = record { millis = 1 };
}

-- Raised at the instant 0 with one day of grace.
abbrev pub raised : RaisedCharge
raised = record {
  id = "CHG-1";
  booking_id = "BKG-1";
  inspection_id = none;
  item_name = "Lamp";
  type = ChargeType.replace;
  notes = "";
  location = "Room";
  amount_minor = 12000;
  currency = "GBP";
  raised_at = record { millis = 0 };
  grace_period_days = some (pos 1);
  cost_breakdown = none;
  photos = [];
}

abbrev pub one_day : DateTime
one_day = 86_400_000_000

abbrev pub charge : Charge
charge = raised_charge 1000 raised (pos 1) one_day

abbrev pub entities : Entities
entities = record {
  bookings = booking ∷ [];
  inventory_reports = [];
  inspections = [];
  tasks = [];
  charges = charge ∷ [];
  notifications = [];
}

abbrev pub stream : Text
stream = b'e' ∷ []

abbrev pub seeded : StoreSnapshot
seeded = seed_snapshot entities "epoch-1" stream

abbrev pub store : Store
store = record { snapshot = some seeded; disk = some seeded }

abbrev pub command : ChargeEvent → ℕ → String → ChargeCommand
command event version key = record {
  charge_id = "CHG-1";
  event = event;
  expected_state_epoch = "epoch-1";
  expected_version = version;
  context = record { idempotency_key = key; request_digest = key; scope = key };
  contest_reason = none;
  attachments = [];
}

abbrev pub accepting : ChargeCommand
accepting = command accept 1 "k1"

abbrev pub paying : ChargeCommand
paying = command pay 2 "k2"

abbrev pub task : MaintenanceTask
task = record {
  id = "TSK-1";
  booking_id = "BKG-1";
  category = TaskCategory.plumbing;
  notes = "A dripping tap";
  location = "Kitchen";
  date = record { millis = 5 };
  status = TaskStatus.new;
}

abbrev pub draft : DraftEvent
draft = record {
  type = EventType.charge_updated;
  entity_id = "CHG-1";
  resource_type = ResourceType.charge;
  change_type = ChangeType.updated;
  booking_id = some "BKG-1";
  entity_version = some 2;
}

abbrev pub some_event : Text → StoredEvent
some_event id = record {
  id = id;
  state_epoch = "epoch-1";
  store_revision = 2;
  type = EventType.charge_updated;
  occurred_at = record { millis = 7 };
  booking_id = none;
  entity_id = "CHG-1";
  entity_version = none;
  data_of = record { resource_type = ResourceType.charge; change_type = ChangeType.updated };
}

abbrev pub unwrap : {A : Type 0} → A → Result A → A
unwrap default (ok a) = a
unwrap default (raise _) = default

abbrev pub no_answer : CommitResult CommandResult
no_answer = record {
  value = record { body = empty_response; status_code = 0; replayed = true };
  events = [];
  state_epoch = "";
  store_revision = 0;
  stream_epoch = [];
  stream_cursor = [];
}
