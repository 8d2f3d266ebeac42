-- ===== src/Services/ChargeService/Commands/Cases.antt =====
-- The ways in which a charge command can end.
use kxinspect_backend.Base.{
  ℕ, ◌≡◌, ◌∙◌, refl, true, false, Option, none, some, List, ◌==◌, ==_iff, Bool-cases, inl, inr,
}
use kxinspect_backend.Core.Clock.{DateTime}
use kxinspect_backend.Core.Errors.{
  Fault, api, charge_not_found, version_conflict, ApiError, Result, ok, raise, ◌>>=◌,
}
use kxinspect_backend.Domain.ChargeState.{
  ChargeStatus, AcceptanceOrigin, transition_accepted, invalid_transition, transition,
}
use kxinspect_backend.Domain.ChargeState.Lifecycle.{transition-cases}
use kxinspect_backend.Db.Entities.{Charge}
use kxinspect_backend.Db.Models.{StoreSnapshot}
use kxinspect_backend.Db.Store.{DraftEvent, MutationOutcome, find_entity}
use kxinspect_backend.Services.ChargeService.Ledger.{
  CommandResult, require_epoch, replay, fail_after_reconciliation, empty_response,
}
use kxinspect_backend.Services.ChargeService.Reconcile.{reconcile_deadlines}
use kxinspect_backend.Services.ChargeService.Commands.{
  ChargeCommand, next_charge, success_outcome, success_snapshot, on_charge, fresh_command,
  charge_mutator,
}

-- The working copy after the reconciliation, and its events.
abbrev pub settled_snapshot : DateTime → StoreSnapshot → StoreSnapshot
settled_snapshot now s = (reconcile_deadlines now s).0

abbrev pub settled_events : DateTime → StoreSnapshot → List DraftEvent
settled_events now s = (reconcile_deadlines now s).1

module _ (now recorded_at : DateTime) (cmd : ChargeCommand) (s : StoreSnapshot) where
  -- Why a command fails after the reconciliation, and with what.
  pub data Refusal : Fault → Type 0 where
    unknown :
        find_entity (λ (c : Charge). c.id) cmd.charge_id (settled_snapshot now s).entities.charges
          ≡ none
        → Refusal (api (charge_not_found cmd.charge_id))
    stale :
        (i : ℕ) (c : Charge)
        → find_entity (λ (c : Charge). c.id) cmd.charge_id (settled_snapshot now s).entities.charges
          ≡ some (i, c)
        → (c.version == cmd.expected_version) ≡ false
        → Refusal (api (version_conflict cmd.charge_id cmd.expected_version c))
    illegal :
        (i : ℕ) (c : Charge)
        → find_entity (λ (c : Charge). c.id) cmd.charge_id (settled_snapshot now s).entities.charges
          ≡ some (i, c)
        → c.version ≡ cmd.expected_version
        → transition c.status cmd.event ≡ invalid_transition c.status cmd.event
        → Refusal (api (ApiError.invalid_transition cmd.charge_id c.status cmd.event c))

  abbrev pub deferred_outcome : List DraftEvent → Fault → MutationOutcome CommandResult
  deferred_outcome events f = record {
    value = record { body = empty_response; status_code = 0; replayed = false };
    events = events;
    persist = true;
    deferred_error = some f;
  }

  -- The five ways, by what the mutator answers.
  pub data CommandCase (r : Result (MutationOutcome CommandResult × StoreSnapshot)) : Type 0 where
    replayed :
        (outcome : MutationOutcome CommandResult)
        → replay s cmd.context ≡ ok (some outcome)
        → r ≡ ok (outcome, s)
        → CommandCase r
    mismatched : (f : Fault) → replay s cmd.context ≡ raise f → r ≡ raise f → CommandCase r
    wrong_epoch :
        (f : Fault)
        → replay s cmd.context ≡ ok none
        → require_epoch s cmd.expected_state_epoch ≡ raise f
        → r ≡ raise f
        → CommandCase r
    refused :
        (f : Fault)
        → replay s cmd.context ≡ ok none
        → require_epoch s cmd.expected_state_epoch ≡ ok tt
        → Refusal f
        → r ≡ fail_after_reconciliation (settled_events now s) f (settled_snapshot now s)
        → CommandCase r
    succeeded :
        (i : ℕ) (c : Charge) (to_status : ChargeStatus) (origin : Option AcceptanceOrigin)
        → replay s cmd.context ≡ ok none
        → require_epoch s cmd.expected_state_epoch ≡ ok tt
        → find_entity (λ (c : Charge). c.id) cmd.charge_id (settled_snapshot now s).entities.charges
          ≡ some (i, c)
        → c.version ≡ cmd.expected_version
        → transition c.status cmd.event ≡ transition_accepted c.status cmd.event to_status origin
        → r
          ≡ ok (
            success_outcome (settled_events now s) (next_charge now cmd to_status origin c),
            success_snapshot recorded_at cmd
                (settled_snapshot now s)
                (settled_events now s)
                i
                (next_charge now cmd to_status origin c),
          )
        → CommandCase r

  fresh_case :
      replay s cmd.context ≡ ok none
      → require_epoch s cmd.expected_state_epoch ≡ ok tt
      → (found : Option (ℕ × Charge))
      → find_entity (λ (c : Charge). c.id) cmd.charge_id (settled_snapshot now s).entities.charges
        ≡ found
      → (r : Result (MutationOutcome CommandResult × StoreSnapshot))
      → r ≡ on_charge now recorded_at cmd (settled_snapshot now s) (settled_events now s) found
      → CommandCase r
  fresh_case fresh epoch none lookup r e = refused _ fresh epoch (unknown lookup) e
  fresh_case fresh epoch (some (i, c)) lookup r e =
      elim (Bool-cases (c.version == cmd.expected_version)) [
        | inr v ↦ refused _ fresh epoch (stale i c lookup v) (e ∙ rw v)
        | inl v ↦
            let same = (==_iff c.version cmd.expected_version).0 v in
            elim (transition-cases c.status cmd.event) [
              | inl t ↦ refused _ fresh epoch (illegal i c lookup same t) (e ∙ rw (v, t))
              | inr (to, origin, t) ↦
                  succeeded i c to origin fresh epoch lookup same t (e ∙ rw (v, t))
            ]
      ]

  epoch_case :
      replay s cmd.context ≡ ok none
      → (x : Result (Unit {0})) → require_epoch s cmd.expected_state_epoch ≡ x
      → (r : Result (MutationOutcome CommandResult × StoreSnapshot))
      → r ≡ (
          x >>= λ _. on_charge now recorded_at cmd (settled_snapshot now s) (settled_events now s) (
            find_entity
              (λ (c : Charge). c.id)
              cmd.charge_id
              (settled_snapshot now s).entities.charges))
      → CommandCase r
  epoch_case fresh (raise f) h r e = wrong_epoch f fresh h e
  epoch_case fresh (ok tt) h r e = fresh_case fresh h _ refl r e

  replay_case :
      (x : Result (Option (MutationOutcome CommandResult)))
      → replay s cmd.context ≡ x
      → (r : Result (MutationOutcome CommandResult × StoreSnapshot))
      → r ≡ (x >>= fresh_command now recorded_at cmd s)
      → CommandCase r
  replay_case (raise f) h r e = mismatched f h e
  replay_case (ok (some outcome)) h r e = replayed outcome h e
  replay_case (ok none) h r e = epoch_case h _ refl r e

  pub charge_mutator_case : CommandCase (charge_mutator now recorded_at cmd s)
  unfolding charge_mutator
  charge_mutator_case = replay_case _ refl _ refl
