-- ===== src/Services/ChargeService/Tasks.antt =====
-- `create_task` and `mark_notification_read` of app/services/charge_service.py.
use kxinspect_backend.Base.{
  ℕ, String, true, false, Option, none, some, List, [], ◌∷◌, ◌++◌, set, if◌then◌else◌,
}
use kxinspect_backend.Core.Clock.{DateTime}
use kxinspect_backend.Core.Errors.{
  api, booking_not_found, notification_not_found, task_duplicate_id, Result, ok, raise, ◌>>=◌, ◌>>◌,
}
use kxinspect_backend.Db.Entities.{Booking, MaintenanceTask, TaskStatus, AppNotification}
use kxinspect_backend.Db.Models.{EventType, ResourceType, ChangeType, task_body, StoreSnapshot}
use kxinspect_backend.Db.Store.{DraftEvent, MutationOutcome, Mutator, find_entity}
use kxinspect_backend.Services.ChargeService.Ledger.{
  CommandContext, CommandResult, task_response, require_epoch, replay, record_success,
}

-- `{**task, "status": "new"}`
abbrev pub stored_task : MaintenanceTask → MaintenanceTask
stored_task task = record task { status = TaskStatus.new }

abbrev pub task_created_event : MaintenanceTask → DraftEvent
task_created_event task = record {
  type = EventType.task_created;
  entity_id = task.id;
  resource_type = ResourceType.task;
  change_type = ChangeType.created;
  booking_id = some task.booking_id;
  entity_version = none;
}

abbrev pub with_tasks : StoreSnapshot → List MaintenanceTask → StoreSnapshot
with_tasks s tasks = record s { entities = record s.entities { tasks = tasks } }

-- From the two lookups on. No later operation changes a task, so the ledger's body is the task
-- itself although the two are one object.
abbrev pub append_task :
    DateTime
    → MaintenanceTask
    → CommandContext
    → StoreSnapshot
    → Option (ℕ × Booking)
    → Option (ℕ × MaintenanceTask)
    → Result (MutationOutcome CommandResult × StoreSnapshot)
append_task recorded_at task context s none _ = raise (api (booking_not_found task.booking_id))
append_task recorded_at task context s (some _) (some _) = raise (api (task_duplicate_id task.id))
append_task recorded_at task context s (some _) none = ok (
  record {
    value = record { body = task_response (stored_task task); status_code = 201; replayed = false };
    events = task_created_event (stored_task task) ∷ [];
    persist = true;
    deferred_error = none;
  },
  record_success recorded_at (with_tasks s (s.entities.tasks ++ (stored_task task ∷ []))) context
      (task_body (stored_task task)) 201 none 1,
)

abbrev pub fresh_task :
    DateTime
    → MaintenanceTask
    → String
    → CommandContext
    → StoreSnapshot
    → Option (MutationOutcome CommandResult)
    → Result (MutationOutcome CommandResult × StoreSnapshot)
fresh_task recorded_at task epoch context s (some outcome) = ok (outcome, s)
fresh_task recorded_at task epoch context s none =
    require_epoch s epoch
    >> append_task recorded_at task context s
        (find_entity (λ (b : Booking). b.id) task.booking_id s.entities.bookings)
        (find_entity (λ (t : MaintenanceTask). t.id) task.id s.entities.tasks)

-- The mutator of `create_task`.
unfoldable pub task_mutator :
    DateTime → MaintenanceTask → String → CommandContext → Mutator CommandResult
task_mutator recorded_at task epoch context s =
    replay s context >>= fresh_task recorded_at task epoch context s

abbrev pub notification_event : String → ChangeType → DraftEvent
notification_event notification_id change = record {
  type = EventType.notification_updated;
  entity_id = notification_id;
  resource_type = ResourceType.notification;
  change_type = change;
  booking_id = none;
  entity_version = none;
}

abbrev pub with_notifications : StoreSnapshot → List AppNotification → StoreSnapshot
with_notifications s ns = record s { entities = record s.entities { notifications = ns } }

abbrev pub mark_read : AppNotification → AppNotification
mark_read n = record n { read = true }

abbrev pub read_found :
    String
    → StoreSnapshot
    → Option (ℕ × AppNotification)
    → Result (MutationOutcome AppNotification × StoreSnapshot)
read_found notification_id s none = raise (api (notification_not_found notification_id))
read_found notification_id s (some (i, n)) =
    if n.read
    then ok (record { value = n; events = []; persist = false; deferred_error = none }, s)
    else ok (
      record {
        value = mark_read n;
        events = notification_event notification_id ChangeType.updated ∷ [];
        persist = true;
        deferred_error = none;
      },
      with_notifications s (set s.entities.notifications i (mark_read n)),
    )

-- The mutator of `mark_notification_read`.
unfoldable pub read_mutator : String → String → Mutator AppNotification
read_mutator notification_id epoch s =
    require_epoch s epoch
    >> read_found notification_id s
        (find_entity (λ (n : AppNotification). n.id) notification_id s.entities.notifications)
