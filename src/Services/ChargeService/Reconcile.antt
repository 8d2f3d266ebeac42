-- ===== src/Services/ChargeService/Reconcile.antt =====
-- `_reconcile_deadlines` and `reconcile_now` of app/services/charge_service.py.
pub mod Laws
use kxinspect_backend.Base.{
  ℕ, ◌+◌, String, Bool, true, false, ◌&&◌, Option, none, some, List, [], ◌∷◌, length, if◌then◌else◌,
}
use kxinspect_backend.Core.Clock.{DateTime, format_instant, parse_instant}
use kxinspect_backend.Core.Errors.{Result, ok}
use kxinspect_backend.Domain.ChargeState.{
  outstanding, deadline_elapsed, TransitionResult, transition_accepted, invalid_transition,
  transition, status_eq,
}
use kxinspect_backend.Domain.Deadline.{is_expired}
use kxinspect_backend.Db.Entities.{Charge}
use kxinspect_backend.Db.Models.{EventType, ResourceType, ChangeType, StoreSnapshot}
use kxinspect_backend.Db.Store.{DraftEvent, MutationOutcome, Mutator}

abbrev pub charge_updated_event : Charge → DraftEvent
charge_updated_event c = record {
  type = EventType.charge_updated;
  entity_id = c.id;
  resource_type = ResourceType.charge;
  change_type = ChangeType.updated;
  booking_id = some c.booking_id;
  entity_version = some c.version;
}

-- The two `continue` tests of the loop.
unfoldable pub is_elapsed : DateTime → Charge → Bool
is_elapsed now c = status_eq c.status outstanding && is_expired now (parse_instant c.deadline_at)

-- What the loop writes; the assertion on the result of `transition` never fails.
abbrev pub by_deadline : DateTime → Charge → TransitionResult → Charge
by_deadline now c (transition_accepted _ _ to_status origin) = record c {
  status = to_status;
  accepted_at = some c.deadline_at;
  acceptance_origin = origin;
  updated_at = format_instant now;
  version = c.version + 1;
}
by_deadline now c (invalid_transition _ _) = c

unfoldable pub accept_elapsed : DateTime → Charge → Charge
unfolding transition
accept_elapsed now c = by_deadline now c (transition outstanding deadline_elapsed)

-- The loop of `_reconcile_deadlines`: the charges afterwards, and the events.
unfoldable pub reconcile_charges : DateTime → List Charge → List Charge × List DraftEvent
reconcile_charges now [] = ([], [])
reconcile_charges now (c ∷ cs) =
    let rest = reconcile_charges now cs in
    if is_elapsed now c
    then (accept_elapsed now c ∷ rest.0, charge_updated_event (accept_elapsed now c) ∷ rest.1)
    else (c ∷ rest.0, rest.1)

abbrev pub with_charges : StoreSnapshot → List Charge → StoreSnapshot
with_charges s cs = record s { entities = record s.entities { charges = cs } }

unfoldable pub reconcile_deadlines : DateTime → StoreSnapshot → StoreSnapshot × List DraftEvent
reconcile_deadlines now s =
    let r = reconcile_charges now s.entities.charges in (with_charges s r.0, r.1)

abbrev pub any_event : List DraftEvent → Bool
any_event [] = false
any_event (e ∷ es) = true

-- The mutator of `reconcile_now`.
unfoldable pub reconcile_mutator : DateTime → Mutator ℕ
reconcile_mutator now s =
    let r = reconcile_deadlines now s in
    ok (
      record { value = length r.1; events = r.1; persist = any_event r.1; deferred_error = none },
      r.0,
    )
