-- ===== src/Api/Commands/Tasks.antt =====
-- `create_task` and `mark_notification_read` of app/api/v1/endpoints/commands.py, with the models of
-- app/schemas/task.py and app/schemas/common.py.
use kxinspect_backend.Base.{
  ℕ, String, Bool, true, false, ◌&&◌, ◌||◌, Option, none, some, List, [], ◌∷◌, leb, ◌==◌, length,
  str_eq, if◌then◌else◌,
}
use kxinspect_backend.Core.Errors.{api, validation, Result, ok, raise, ◌>>=◌, ◌>>◌}
use kxinspect_backend.Core.CanonicalJson.{obj, Members}
use kxinspect_backend.Core.Idempotency.{require_idempotency_key, json_digest}
use kxinspect_backend.Db.Text.{split_on, Text, codes, text_eq, strip, is_digit}
use kxinspect_backend.Db.Entities.{
  MaintenanceTask, TaskCategory, electrical, plumbing, heating, appliance, furniture, cleaning,
  other, TaskStatus, AppNotification,
}
use kxinspect_backend.Db.Store.{Store, CommitRun, commit}
use kxinspect_backend.Services.ChargeService.Ledger.{CommandContext, CommandResult}
use kxinspect_backend.Services.ChargeService.Tasks.{task_mutator, read_mutator}
use kxinspect_backend.Services.ChargeService.Validation.{validate_task_payload}
use kxinspect_backend.Services.ChargeService.Requests.{Moment}
use kxinspect_backend.Api.Deps.{Platform}
use kxinspect_backend.Api.Commands.{
  RequestBody, json_body, get_member, has_only, text_of_json, epoch_field, context_for, tasks_route,
}

abbrev pub is_hex : ℕ → Bool
is_hex c = is_digit c || (leb b'a' c && leb c b'f') || (leb b'A' c && leb c b'F')

abbrev pub all_hex : Text → Bool
all_hex [] = true
all_hex (c ∷ s) = is_hex c && all_hex s

abbrev pub are_groups : List ℕ → List Text → Bool
are_groups [] [] = true
are_groups (n ∷ ns) (part ∷ parts) = length part == n && all_hex part && are_groups ns parts
are_groups _ _ = false

-- The pattern of `Uuid`: five groups of hexadecimal digits.
unfoldable pub is_uuid : Text → Bool
is_uuid s = are_groups (8 ∷ 4 ∷ 4 ∷ 4 ∷ 12 ∷ []) (split_on b'-' s)

-- One character of `ISO_UTC_PATTERN`: a decimal digit of any script, or the very character.
abbrev pub fits_mark : (ℕ → String) → ℕ → ℕ → Bool
fits_mark category mark c = if mark == b'd' then str_eq (category c) "Nd" else c == mark

abbrev pub fits : (ℕ → String) → Text → Text → Bool
fits category [] [] = true
fits category (mark ∷ marks) (c ∷ s) = fits_mark category mark c && fits category marks s
fits category _ _ = false

-- `ISO_UTC_PATTERN`, with and without the milliseconds.
unfoldable pub is_instant : (ℕ → String) → Text → Bool
is_instant category s =
    fits category (codes "dddd-dd-ddTdd:dd:ddZ") s
    || fits category (codes "dddd-dd-ddTdd:dd:dd.dddZ") s

-- The literals of `TaskCategory`.
unfoldable pub category_of : Text → Option TaskCategory
category_of s =
    if text_eq s (codes "electrical")
    then some electrical
    else if text_eq s (codes "plumbing")
    then some plumbing
    else if text_eq s (codes "heating")
    then some heating
    else if text_eq s (codes "appliance")
    then some appliance
    else if text_eq s (codes "furniture")
    then some furniture
    else if text_eq s (codes "cleaning")
    then some cleaning
    else if text_eq s (codes "other")
    then some other
    else none

pub record CreateTaskRequest : Type 0 where
  pub id : Text
  pub booking_id : Text
  pub category : TaskCategory
  pub notes : Text
  pub location : Text
  pub date : Text
  pub expected_state_epoch : Text

abbrev pub required : Option Text → Result Text
required none = raise (api validation)
required (some s) = ok s

abbrev pub required_category : Option TaskCategory → Result TaskCategory
required_category none = raise (api validation)
required_category (some c) = ok c

-- The constraints on a text field; every failure is the one validation error.
abbrev pub constrained : (Text → Bool) → Text → Result Text
constrained test s = if test s then ok s else raise (api validation)

abbrev pub field : (Text → Bool) → Text → Members → Result Text
field test key payload = required (text_of_json (get_member key payload)) >>= constrained test

-- A length from 1 to a limit.
abbrev pub up_to : ℕ → Text → Bool
up_to limit s = leb 1 (length s) && leb (length s) limit

abbrev pub is_nonempty : Text → Bool
is_nonempty s = leb 1 (length s)

abbrev pub any_text : Text → Bool
any_text s = true

abbrev pub task_fields : List Text
task_fields =
    codes "id"
    ∷ codes "bookingId"
    ∷ codes "category"
    ∷ codes "notes"
    ∷ codes "location"
    ∷ codes "date"
    ∷ epoch_field
    ∷ []

-- `_model(CreateTaskRequest, payload)`
unfoldable pub task_model : (ℕ → String) → Members → Result CreateTaskRequest
task_model unicode payload = do
  task_id ← field is_uuid (codes "id") payload
  booking_id ← field (up_to 64) (codes "bookingId") payload
  category_text ← field any_text (codes "category") payload
  category ← required_category (category_of category_text)
  notes ← field (up_to 4000) (codes "notes") payload
  location ← field is_nonempty (codes "location") payload
  date ← field (is_instant unicode) (codes "date") payload
  epoch ← field any_text epoch_field payload
  if has_only task_fields payload
      then ok (record {
        id = task_id;
        booking_id = booking_id;
        category = category;
        notes = notes;
        location = location;
        date = date;
        expected_state_epoch = epoch;
      })
      else raise (api validation)

-- The arguments of `create_task` of the service.
pub record TaskCommand : Type 0 where
  pub task : MaintenanceTask
  pub expected_state_epoch : String
  pub context : CommandContext

module _ (p : Platform) where
  abbrev pub task_of : CreateTaskRequest → MaintenanceTask
  task_of command = record {
    id = p.string command.id;
    booking_id = p.string command.booking_id;
    category = command.category;
    notes = p.string (strip command.notes);
    location = p.string command.location;
    date = p.stamp command.date;
    status = TaskStatus.new;
  }

  -- What `create_task` hands to the service.
  unfoldable pub task_command : Option Text → RequestBody → Result TaskCommand
  task_command header body = do
    key ← require_idempotency_key p.uuid_text header
    payload ← json_body body
    command ← task_model p.category payload
    validate_task_payload p.category (strip command.notes)
    digest ← json_digest p.sha256 (obj payload)
    ok (record {
      task = task_of command;
      expected_state_epoch = p.string command.expected_state_epoch;
      context = context_for p tasks_route command.id key digest;
    })

  abbrev pub run_task : Moment → Store → Result TaskCommand → CommitRun CommandResult
  run_task m store (raise error) = record { result = raise error; store = store; published = [] }
  run_task m store (ok command) =
      commit m.commit_at m.disk
        (task_mutator m.recorded_at command.task command.expected_state_epoch command.context) store

  unfoldable pub create_task : Moment → Store → Option Text → RequestBody → CommitRun CommandResult
  create_task m store header body = run_task m store (task_command header body)

  -- The epoch that `NotificationReadRequest` asks for.
  unfoldable pub read_model : RequestBody → Result Text
  read_model body = do
    payload ← json_body body
    epoch ← field any_text epoch_field payload
    if has_only (epoch_field ∷ []) payload then ok epoch else raise (api validation)

  abbrev pub run_read : Moment → Store → Text → Result Text → CommitRun AppNotification
  run_read m store notification_id (raise error) = record {
    result = raise error;
    store = store;
    published = [];
  }
  run_read m store notification_id (ok epoch) =
      commit m.commit_at m.disk (read_mutator (p.string notification_id) (p.string epoch)) store

  unfoldable pub mark_notification_read :
      Moment → Store → RequestBody → Text → CommitRun AppNotification
  mark_notification_read m store body notification_id =
      run_read m store notification_id (read_model body)
