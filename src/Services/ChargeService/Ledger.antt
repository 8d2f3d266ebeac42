-- ===== src/Services/ChargeService/Ledger.antt =====
-- The parts of app/services/charge_service.py that every command shares: the command's context and
-- result, the epoch check, the replay of a recorded response, and the record of a success.
use kxinspect_backend.Base.{
  ℕ, zero, suc, ◌+◌, String, Bool, true, false, not, Option, none, some, List, [], ◌∷◌, get_elem?,
  if◌then◌else◌, str_eq,
}
use kxinspect_backend.Core.Clock.{DateTime, format_instant}
use kxinspect_backend.Core.Errors.{
  Fault, api, epoch_mismatch, idempotency_payload_mismatch, Result, ok, raise,
}
use kxinspect_backend.Db.Text.{Text, str}
use kxinspect_backend.Db.Entities.{Charge, MaintenanceTask}
use kxinspect_backend.Db.Models.{
  Body, shared_charge, own_charge, task_body, empty_body, IdempotencyRecord, StoreSnapshot,
}
use kxinspect_backend.Db.Store.{DraftEvent, MutationOutcome, ledger_get, ledger_set}

pub record CommandContext : Type 0 where
  pub idempotency_key : String
  pub request_digest : String
  pub scope : String

-- The JSON value of a response body.
pub data Response : Type 0 where
  charge_response : Charge → Response
  task_response : MaintenanceTask → Response
  empty_response : Response

pub record CommandResult : Type 0 where
  pub body : Response
  pub status_code : ℕ
  pub replayed : Bool

abbrev pub charge_or_empty : Option Charge → Response
charge_or_empty none = empty_response
charge_or_empty (some c) = charge_response c

-- What a body in the ledger of a snapshot reads as: one that is shared reads as the charge does.
unfoldable pub body_value : StoreSnapshot → Body → Response
body_value s (shared_charge position) = charge_or_empty (get_elem? s.entities.charges position)
body_value s (own_charge c) = charge_response c
body_value s (task_body t) = task_response t
body_value s empty_body = empty_response

-- `_require_epoch`
unfoldable pub require_epoch : StoreSnapshot → String → Result (Unit {0})
require_epoch s expected =
    if str_eq expected s.state_epoch
    then ok tt
    else raise (api (epoch_mismatch expected s.state_epoch s.store_revision))

abbrev pub replayed_outcome : StoreSnapshot → IdempotencyRecord → MutationOutcome CommandResult
replayed_outcome s found = record {
  value = record {
    body = body_value s found.response_body;
    status_code = found.status_code;
    replayed = true;
  };
  events = [];
  persist = false;
  deferred_error = none;
}

-- The tests of `_replay` on the record under the key.
abbrev pub replay_record :
    StoreSnapshot
    → CommandContext
    → Option IdempotencyRecord
    → Result (Option (MutationOutcome CommandResult))
replay_record s context none = ok none
replay_record s context (some found) =
    if not (str_eq found.scope context.scope)
    then ok none
    else if not (str_eq found.request_digest context.request_digest)
    then raise (api (idempotency_payload_mismatch context.idempotency_key))
    else ok (some (replayed_outcome s found))

-- `_replay`
unfoldable pub replay :
    StoreSnapshot → CommandContext → Result (Option (MutationOutcome CommandResult))
replay s context = replay_record s context (ledger_get context.idempotency_key s.idempotency)

-- `pending:1`, `pending:2` and so on, from a number on.
unfoldable pub pending_ids : ℕ → ℕ → List Text
pending_ids from zero = []
pending_ids from (suc n) =
    (b'p' ∷ b'e' ∷ b'n' ∷ b'd' ∷ b'i' ∷ b'n' ∷ b'g' ∷ b':' ∷ str from) ∷ pending_ids (from + 1) n

-- `_record_success`; the clock is read once more for `createdAt`.
unfoldable pub record_success :
    DateTime → StoreSnapshot → CommandContext → Body → ℕ → Option ℕ → ℕ → StoreSnapshot
record_success recorded_at s context body status_code aggregate_version event_count = record s {
  idempotency =
      ledger_set context.idempotency_key
        (record {
          key = context.idempotency_key;
          scope = context.scope;
          request_digest = context.request_digest;
          status_code = status_code;
          response_body = body;
          aggregate_version = aggregate_version;
          event_ids = pending_ids 1 event_count;
          created_at = format_instant recorded_at;
        })
        s.idempotency;
}

-- `_fail_after_reconciliation`
unfoldable pub fail_after_reconciliation :
    List DraftEvent → Fault → StoreSnapshot → Result (MutationOutcome CommandResult × StoreSnapshot)
fail_after_reconciliation [] error s = raise error
fail_after_reconciliation (e ∷ es) error s = ok (
  record {
    value = record { body = empty_response; status_code = 0; replayed = false };
    events = e ∷ es;
    persist = true;
    deferred_error = some error;
  },
  s,
)
