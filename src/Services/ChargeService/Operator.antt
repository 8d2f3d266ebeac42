-- ===== src/Services/ChargeService/Operator.antt =====
-- `dev_raise_charge` and `dev_resolve_charge` of app/services/charge_service.py: a charge raised by
-- the operator, and the decision on a contested one. The id of the new notification, drawn from the
-- id provider, is an argument.
use kxinspect_backend.Base.{
  ℕ, ◌+◌, String, true, false, Option, none, some, List, [], ◌∷◌, ◌++◌, set, if◌then◌else◌,
}
use kxinspect_backend.Base.Int.{ℤ, pos_part}
use kxinspect_backend.Core.Clock.{DateTime, Stamp, format_instant, parse_instant}
use kxinspect_backend.Core.Errors.{
  Fault, api, booking_not_found, charge_not_found, charge_duplicate_id, ApiError, Result, ok, raise,
  ◌>>=◌,
}
use kxinspect_backend.Domain.ChargeState.{
  ChargeStatus, outstanding, accepted, ChargeEvent, AcceptanceOrigin, TransitionResult,
  transition_accepted, invalid_transition, transition, status_eq,
}
use kxinspect_backend.Domain.Deadline.{DeadlineResult, deadline_for}
use kxinspect_backend.Domain.CostBreakdown.{CostBreakdownItem, default_cost_breakdown}
use kxinspect_backend.Db.Entities.{
  Booking, Charge, ChargeType, Photo, AppNotification, NotificationType,
}
use kxinspect_backend.Db.Models.{EventType, ResourceType, ChangeType, StoreSnapshot}
use kxinspect_backend.Db.Store.{DraftEvent, MutationOutcome, Mutator, find_entity}
use kxinspect_backend.Services.ChargeService.Reconcile.{charge_updated_event, with_charges}
use kxinspect_backend.Services.ChargeService.Tasks.{notification_event, with_notifications}

-- The dictionary that `dev_raise_charge` gets. Its two optional members are options.
pub record RaisedCharge : Type 0 where
  pub id : String
  pub booking_id : String
  pub inspection_id : Option String
  pub item_name : String
  pub type : ChargeType
  pub notes : String
  pub location : String
  pub amount_minor : ℕ
  pub currency : String
  pub raised_at : Stamp
  pub grace_period_days : Option ℤ
  pub cost_breakdown : Option (List CostBreakdownItem)
  pub photos : List Photo

-- `charge.get(…, default)`
abbrev pub get_or {ℓ} : {A : Type ℓ} → Option A → A → A
get_or (some a) default = a
get_or none default = default

abbrev pub deadline_or_fault : DeadlineResult → Result DateTime
deadline_or_fault (DeadlineResult.at moment) = ok moment
deadline_or_fault DeadlineResult.value_error = raise Fault.value_error
deadline_or_fault DeadlineResult.overflow_error = raise Fault.overflow_error

-- The charge as it is stored, once its deadline is known. A negative grace period has no deadline.
unfoldable pub raised_charge : DateTime → RaisedCharge → ℤ → DateTime → Charge
raised_charge now charge grace deadline = record {
  facts = record {
    id = charge.id;
    booking_id = charge.booking_id;
    inspection_id = charge.inspection_id;
    item_name = charge.item_name;
    type = charge.type;
    notes = charge.notes;
    location = charge.location;
    amount_minor = charge.amount_minor;
    currency = charge.currency;
    cost_breakdown = get_or charge.cost_breakdown (default_cost_breakdown charge.amount_minor);
    raised_at = charge.raised_at;
    grace_period_days = pos_part grace;
    deadline_at = format_instant deadline;
    photos = charge.photos;
  };
  status = outstanding;
  contest_reason = none;
  contest_attachments = [];
  accepted_at = none;
  contested_at = none;
  resolved_at = none;
  paid_at = none;
  acceptance_origin = none;
  version = 1;
  updated_at = format_instant now;
}

abbrev pub new_notification :
    DateTime → String → NotificationType → String → String → String → AppNotification
new_notification now notification_id kind title body charge_id = record {
  id = notification_id;
  type = kind;
  title_key = title;
  body_key = body;
  charge_id = some charge_id;
  created_at = format_instant now;
  read = false;
}

abbrev pub charge_created_event : Charge → DraftEvent
charge_created_event c = record {
  type = EventType.charge_created;
  entity_id = c.id;
  resource_type = ResourceType.charge;
  change_type = ChangeType.created;
  booking_id = some c.booking_id;
  entity_version = some 1;
}

abbrev pub raised_notification : DateTime → String → Charge → AppNotification
raised_notification now notification_id c =
    new_notification now notification_id NotificationType.charge_raised
      "notifications.chargeRaised.title" "notifications.chargeRaised.body" c.id

-- What a raise leaves: the charge and its notification at the ends of their lists.
abbrev pub store_raised :
    DateTime → String → StoreSnapshot → Charge → MutationOutcome Charge × StoreSnapshot
store_raised now notification_id s stored = (
  record {
    value = stored;
    events =
        charge_created_event stored ∷ notification_event notification_id ChangeType.created ∷ [];
    persist = true;
    deferred_error = none;
  },
  with_notifications (with_charges s (s.entities.charges ++ (stored ∷ [])))
      (s.entities.notifications ++ (raised_notification now notification_id stored ∷ [])),
)

abbrev pub raise_checked :
    DateTime
    → String
    → ℤ
    → RaisedCharge
    → StoreSnapshot
    → Option (ℕ × Booking)
    → Option (ℕ × Charge)
    → Result (MutationOutcome Charge × StoreSnapshot)
raise_checked now notification_id default_grace charge s none _ =
    raise (api (booking_not_found charge.booking_id))
raise_checked now notification_id default_grace charge s (some _) (some _) =
    raise (api (charge_duplicate_id charge.id))
raise_checked now notification_id default_grace charge s (some _) none =
    let grace = get_or charge.grace_period_days default_grace in
    deadline_or_fault (deadline_for (parse_instant charge.raised_at) grace) >>= λ deadline.
    ok (store_raised now notification_id s (raised_charge now charge grace deadline))

-- The mutator of `dev_raise_charge`; the default grace period is a setting.
unfoldable pub raise_mutator : DateTime → String → ℤ → RaisedCharge → Mutator Charge
raise_mutator now notification_id default_grace charge s =
    raise_checked now notification_id default_grace charge s
      (find_entity (λ (b : Booking). b.id) charge.booking_id s.entities.bookings)
      (find_entity (λ (c : Charge). c.id) charge.id s.entities.charges)

-- The charge after the decision.
unfoldable pub decided_charge : DateTime → ChargeStatus → Option AcceptanceOrigin → Charge → Charge
decided_charge now to_status origin c =
    if status_eq to_status accepted
    then record c {
      status = to_status;
      version = c.version + 1;
      updated_at = format_instant now;
      accepted_at = some (format_instant now);
      acceptance_origin = origin;
    }
    else record c {
      status = to_status;
      version = c.version + 1;
      updated_at = format_instant now;
      resolved_at = some (format_instant now);
    }

abbrev pub decision_notification : DateTime → String → ChargeStatus → String → AppNotification
decision_notification now notification_id to_status charge_id =
    if status_eq to_status accepted
    then new_notification now notification_id NotificationType.charge_accepted
        "notifications.chargeAccepted.title" "notifications.chargeAccepted.body" charge_id
    else new_notification now notification_id NotificationType.charge_resolved
        "notifications.chargeResolved.title" "notifications.chargeResolved.body" charge_id

abbrev pub decide :
    DateTime
    → String
    → String
    → StoreSnapshot
    → ℕ
    → Charge
    → ChargeEvent
    → TransitionResult
    → Result (MutationOutcome Charge × StoreSnapshot)
decide now notification_id charge_id s i c event (invalid_transition from _) =
    raise (api (ApiError.invalid_transition charge_id from event c))
decide now notification_id charge_id s i c event (transition_accepted _ _ to_status origin) =
    let charge = decided_charge now to_status origin c in
    ok (
      record {
        value = charge;
        events =
            charge_updated_event charge
            ∷ notification_event notification_id ChangeType.created
            ∷ [];
        persist = true;
        deferred_error = none;
      },
      with_notifications (with_charges s (set s.entities.charges i charge)) (
          s.entities.notifications
          ++ (decision_notification now notification_id to_status charge_id ∷ [])),
    )

abbrev pub decide_found :
    DateTime
    → String
    → String
    → ChargeEvent
    → StoreSnapshot
    → Option (ℕ × Charge)
    → Result (MutationOutcome Charge × StoreSnapshot)
decide_found now notification_id charge_id event s none = raise (api (charge_not_found charge_id))
decide_found now notification_id charge_id event s (some (i, c)) =
    decide now notification_id charge_id s i c event (transition c.status event)

-- The mutator of `dev_resolve_charge`.
unfoldable pub resolve_mutator : DateTime → String → String → ChargeEvent → Mutator Charge
resolve_mutator now notification_id charge_id event s =
    decide_found now notification_id charge_id event s
      (find_entity (λ (c : Charge). c.id) charge_id s.entities.charges)
