-- ===== src/Services/ChargeService/Commands.antt =====
-- `apply_charge_command` of app/services/charge_service.py: Accept, Contest and Pay.
pub mod Cases
pub mod Success
pub mod Retry
pub mod Aliased
pub mod Refused
use kxinspect_backend.Base.{
  ℕ, ◌+◌, String, Bool, true, false, not, Option, none, some, List, [], ◌∷◌, ◌++◌, set, length,
  ◌==◌, if◌then◌else◌,
}
use kxinspect_backend.Core.Clock.{DateTime, format_instant}
use kxinspect_backend.Core.Errors.{api, charge_not_found, version_conflict, Result, ok, ◌>>=◌, ◌>>◌}
use kxinspect_backend.Core.Errors.{ApiError}
use kxinspect_backend.Domain.ChargeState.{
  ChargeStatus, ChargeEvent, accept, contest, pay, AcceptanceOrigin, TransitionResult,
  transition_accepted, invalid_transition, transition,
}
use kxinspect_backend.Db.Entities.{Charge, ContestAttachment}
use kxinspect_backend.Db.Models.{shared_charge, StoreSnapshot}
use kxinspect_backend.Db.Store.{DraftEvent, MutationOutcome, Mutator, find_entity}
use kxinspect_backend.Services.ChargeService.Ledger.{
  CommandContext, CommandResult, charge_response, require_epoch, replay, record_success,
  fail_after_reconciliation,
}
use kxinspect_backend.Services.ChargeService.Reconcile.{
  charge_updated_event, with_charges, reconcile_deadlines,
}

-- The arguments of `apply_charge_command`. `attachments` is what the callback
-- `finalize_attachments` returns, the empty list where there is no callback; the files that it
-- moves are not part of this model.
pub record ChargeCommand : Type 0 where
  pub charge_id : String
  pub event : ChargeEvent
  pub expected_state_epoch : String
  pub expected_version : ℕ
  pub context : CommandContext
  pub contest_reason : Option String
  pub attachments : List ContestAttachment

-- The `if event is …` chain, on the charge with its new status.
abbrev pub stamp_event :
    DateTime → ChargeCommand → Option AcceptanceOrigin → ChargeEvent → Charge → Charge
stamp_event now cmd origin accept c = record c {
  accepted_at = some (format_instant now);
  acceptance_origin = origin;
}
stamp_event now cmd origin contest c = record c {
  contested_at = some (format_instant now);
  contest_reason = cmd.contest_reason;
  contest_attachments = cmd.attachments;
}
stamp_event now cmd origin pay c = record c { paid_at = some (format_instant now) }
stamp_event now cmd origin _ c = c

-- The charge after an accepted transition.
unfoldable pub next_charge :
    DateTime → ChargeCommand → ChargeStatus → Option AcceptanceOrigin → Charge → Charge
next_charge now cmd to_status origin c =
    stamp_event now cmd origin cmd.event
      (record c { status = to_status; version = c.version + 1; updated_at = format_instant now })

abbrev pub success_events : List DraftEvent → Charge → List DraftEvent
success_events reconciliation charge = reconciliation ++ (charge_updated_event charge ∷ [])

-- The working copy after a success: the charge at its position, and the ledger record.
abbrev pub success_snapshot :
    DateTime → ChargeCommand → StoreSnapshot → List DraftEvent → ℕ → Charge → StoreSnapshot
success_snapshot recorded_at cmd s reconciliation i charge =
    record_success recorded_at (with_charges s (set s.entities.charges i charge)) cmd.context
      (shared_charge i) 200 (some charge.version) (length (success_events reconciliation charge))

abbrev pub success_outcome : List DraftEvent → Charge → MutationOutcome CommandResult
success_outcome reconciliation charge = record {
  value = record { body = charge_response charge; status_code = 200; replayed = false };
  events = success_events reconciliation charge;
  persist = true;
  deferred_error = none;
}

-- The result of the transition, on the charge at a position.
abbrev pub complete :
    DateTime
    → DateTime
    → ChargeCommand
    → StoreSnapshot
    → List DraftEvent
    → ℕ
    → Charge
    → TransitionResult
    → Result (MutationOutcome CommandResult × StoreSnapshot)
complete now recorded_at cmd s reconciliation i c (invalid_transition from event) =
    fail_after_reconciliation reconciliation
      (api (ApiError.invalid_transition cmd.charge_id from cmd.event c)) s
complete now recorded_at cmd s reconciliation i c (transition_accepted _ _ to_status origin) =
    let charge = next_charge now cmd to_status origin c in
    ok (
      success_outcome reconciliation charge,
      success_snapshot recorded_at cmd s reconciliation i charge,
    )

-- From the lookup of the charge on.
abbrev pub on_charge :
    DateTime
    → DateTime
    → ChargeCommand
    → StoreSnapshot
    → List DraftEvent
    → Option (ℕ × Charge)
    → Result (MutationOutcome CommandResult × StoreSnapshot)
on_charge now recorded_at cmd s reconciliation none =
    fail_after_reconciliation reconciliation (api (charge_not_found cmd.charge_id)) s
on_charge now recorded_at cmd s reconciliation (some (i, c)) =
    if not (c.version == cmd.expected_version)
    then fail_after_reconciliation reconciliation
        (api (version_conflict cmd.charge_id cmd.expected_version c)) s
    else complete now recorded_at cmd s reconciliation i c (transition c.status cmd.event)

-- After the replay lookup: the epoch check, the reconciliation, and the command.
abbrev pub fresh_command :
    DateTime
    → DateTime
    → ChargeCommand
    → StoreSnapshot
    → Option (MutationOutcome CommandResult)
    → Result (MutationOutcome CommandResult × StoreSnapshot)
fresh_command now recorded_at cmd s (some outcome) = ok (outcome, s)
fresh_command now recorded_at cmd s none = do
  require_epoch s cmd.expected_state_epoch
  let r = reconcile_deadlines now s
  on_charge now recorded_at cmd r.0 r.1
      (find_entity (λ (c : Charge). c.id) cmd.charge_id r.0.entities.charges)

-- The mutator of `apply_charge_command`.
unfoldable pub charge_mutator : DateTime → DateTime → ChargeCommand → Mutator CommandResult
charge_mutator now recorded_at cmd s = do
  replayed ← replay s cmd.context
  fresh_command now recorded_at cmd s replayed
