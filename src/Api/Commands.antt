-- ===== src/Api/Commands.antt =====
-- The mutating routes of app/api/v1/endpoints/commands.py, but for Contest, which has a module of its
-- own: what each makes of a request, and the one commit that follows. The strict models of
-- app/schemas are tests on the members of the decoded body.
pub mod Tasks
pub mod Contest
use kxinspect_backend.Base.{
  ℕ, ◌+◌, String, Bool, true, false, ◌&&◌, ◌||◌, not, Option, none, some, List, [], ◌∷◌, ltb, leb,
  ◌==◌, any_of, length, str_eq, if◌then◌else◌,
}
use kxinspect_backend.Base.Int.{pos}
use kxinspect_backend.Core.Clock.{DateTime, Stamp}
use kxinspect_backend.Core.Errors.{
  api, malformed_request, validation, Result, ok, raise, ◌>>=◌, ◌>>◌,
}
use kxinspect_backend.Core.CanonicalJson.{Json, int, text, obj, Members, end, member}
use kxinspect_backend.Core.Idempotency.{require_idempotency_key, scope_key, json_digest}
use kxinspect_backend.Domain.ChargeState.{ChargeEvent, accept, pay}
use kxinspect_backend.Db.Text.{Text, codes, text_eq, strip, is_digit, prepend}
use kxinspect_backend.Db.Entities.{
  MaintenanceTask, TaskCategory, electrical, plumbing, heating, appliance, furniture, cleaning,
  other, TaskStatus, AppNotification,
}
use kxinspect_backend.Db.Models.{StoredEvent}
use kxinspect_backend.Db.Store.{Store, WriteOutcome, CommitRun, commit, CommitResult}
use kxinspect_backend.Services.ChargeService.Ledger.{CommandContext, CommandResult}
use kxinspect_backend.Services.ChargeService.Commands.{ChargeCommand, charge_mutator}
use kxinspect_backend.Services.ChargeService.Tasks.{task_mutator, read_mutator}
use kxinspect_backend.Services.ChargeService.Validation.{validate_task_payload}
use kxinspect_backend.Services.ChargeService.Requests.{Moment}
use kxinspect_backend.Api.Deps.{Platform}

-- What `request.json()` gives: it raises, or a value.
pub data RequestBody : Type 0 where
  undecodable : RequestBody
  decoded : Json → RequestBody

abbrev pub object_of : Json → Result Members
object_of (obj ms) = ok ms
object_of value = raise (api malformed_request)

-- `_json_body`
unfoldable pub json_body : RequestBody → Result Members
json_body undecodable = raise (api malformed_request)
json_body (decoded value) = object_of value

-- `payload[key]`
unfoldable pub get_member : Text → Members → Option Json
get_member key end = none
get_member key (member k x ms) = if text_eq k key then some x else get_member key ms

-- `extra="forbid"`: every key is one of the fields.
unfoldable pub has_only : List Text → Members → Bool
has_only fields end = true
has_only fields (member k x ms) = any_of (text_eq k) fields && has_only fields ms

abbrev pub text_of_json : Option Json → Option Text
text_of_json (some (text s)) = some s
text_of_json value = none

-- A strict `int` with `ge=1`.
abbrev pub version_of_json : Option Json → Option ℕ
version_of_json (some (int (pos n))) = if leb 1 n then some n else none
version_of_json value = none

abbrev pub epoch_field : Text
epoch_field = codes "expectedStateEpoch"

abbrev pub version_field : Text
version_field = codes "expectedVersion"

pub record ChargeCommandRequest : Type 0 where
  pub expected_state_epoch : Text
  pub expected_version : ℕ

abbrev pub both_fields : Option Text → Option ℕ → Result ChargeCommandRequest
both_fields (some epoch) (some version) =
    ok (record { expected_state_epoch = epoch; expected_version = version })
both_fields _ _ = raise (api validation)

-- `_model(ChargeCommandRequest, payload)`
unfoldable pub charge_command_model : Members → Result ChargeCommandRequest
charge_command_model payload =
    if not (has_only (epoch_field ∷ version_field ∷ []) payload)
    then raise (api validation)
    else both_fields (text_of_json (get_member epoch_field payload))
        (version_of_json (get_member version_field payload))

abbrev pub post : Text
post = codes "POST"

module _ (p : Platform) where
  -- The `CommandContext` of a command on a resource.
  abbrev pub context_for : Text → Text → Text → Text → CommandContext
  context_for route resource key digest = record {
    idempotency_key = p.string key;
    request_digest = p.string digest;
    scope = p.string (scope_key p.upper post route resource key);
  }

  -- What `_run_charge_command` hands to the service.
  unfoldable pub charge_command :
      Option Text → RequestBody → Text → ChargeEvent → Text → Result ChargeCommand
  charge_command header body charge_id event route = do
    key ← require_idempotency_key p.uuid_text header
    payload ← json_body body
    command ← charge_command_model payload
    digest ← json_digest p.sha256 (obj payload)
    ok (record {
      charge_id = p.string charge_id;
      event = event;
      expected_state_epoch = p.string command.expected_state_epoch;
      expected_version = command.expected_version;
      context = context_for route charge_id key digest;
      contest_reason = none;
      attachments = [];
    })

abbrev pub run_command : Moment → Store → Result ChargeCommand → CommitRun CommandResult
run_command m store (raise error) = record { result = raise error; store = store; published = [] }
run_command m store (ok cmd) =
    commit m.commit_at m.disk (charge_mutator m.now m.recorded_at cmd) store

abbrev pub accept_route : Text
accept_route = codes "/api/v1/charges/{chargeId}/accept"

abbrev pub pay_route : Text
pay_route = codes "/api/v1/charges/{chargeId}/pay"

abbrev pub contest_route : Text
contest_route = codes "/api/v1/charges/{chargeId}/contest"

abbrev pub tasks_route : Text
tasks_route = codes "/api/v1/tasks"

module _ (p : Platform) where
  -- `accept_charge` and `pay_charge`, with the header, the body and the id in the path.
  unfoldable pub accept_charge :
      Moment → Store → Option Text → RequestBody → Text → CommitRun CommandResult
  accept_charge m store header body charge_id =
      run_command m store (charge_command p header body charge_id accept accept_route)

  unfoldable pub pay_charge :
      Moment → Store → Option Text → RequestBody → Text → CommitRun CommandResult
  pay_charge m store header body charge_id =
      run_command m store (charge_command p header body charge_id pay pay_route)
