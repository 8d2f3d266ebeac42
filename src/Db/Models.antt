-- ===== src/Db/Models.antt =====
-- app/db/models.py: events, ledger records and the snapshot.
--
-- The ledger holds the response body of a charge command by reference: the dictionary in
-- `responseBody["charge"]` is the very object in `entities["charges"]`, and `copy.deepcopy` keeps
-- the two one object. So a body is the position of the charge in the list, where charges are only
-- appended; `Body.own_charge` is a body that is an object of its own, as after a load from disk.
use kxinspect_backend.Base.{ℕ, String, Option, List}
use kxinspect_backend.Core.Clock.{Stamp}
use kxinspect_backend.Db.Text.{Text}
use kxinspect_backend.Db.Entities.{Charge, MaintenanceTask, Entities}

pub data EventType : Type 0 where
  charge_created charge_updated task_created notification_updated sync_required : EventType

pub data ResourceType : Type 0 where
  charge task notification : ResourceType

pub data ChangeType : Type 0 where
  created updated : ChangeType

pub record EventData : Type 0 where
  pub resource_type : ResourceType
  pub change_type : ChangeType

pub record StoredEvent : Type 0 where
  pub id : Text
  pub state_epoch : String
  pub store_revision : ℕ
  pub type : EventType
  pub occurred_at : Stamp
  pub booking_id : Option String
  pub entity_id : String
  pub entity_version : Option ℕ
  pub data_of : EventData

pub data Body : Type 0 where
  shared_charge : (position : ℕ) → Body
  own_charge : Charge → Body
  task_body : MaintenanceTask → Body
  empty_body : Body

pub record IdempotencyRecord : Type 0 where
  pub key : String
  pub scope : String
  pub request_digest : String
  pub status_code : ℕ
  pub response_body : Body
  pub aggregate_version : Option ℕ
  pub event_ids : List Text
  pub created_at : Stamp

pub record StoreSnapshot : Type 0 where
  pub schema_version : String
  pub contract_version : String
  pub seed_version : String
  pub state_epoch : String
  pub store_revision : ℕ
  pub stream_epoch : Text
  pub stream_cursor : Text
  pub stream_evicted_through : Text
  pub entities : Entities
  pub events : List StoredEvent
  pub idempotency : List (String × IdempotencyRecord)
