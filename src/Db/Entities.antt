-- ===== src/Db/Entities.antt =====
-- The entities of app/db/models.py and app/schemas, as the store holds them. A JSON object is a
-- record, an enumeration of the schemas a data type; urls, which the store takes apart, are lists of
-- code points, all other texts are strings that are only compared.
use kxinspect_backend.Base.{ℕ, String, Bool, Option, List}
use kxinspect_backend.Core.Clock.{Stamp}
use kxinspect_backend.Domain.ChargeState.{ChargeStatus, AcceptanceOrigin}
use kxinspect_backend.Domain.CostBreakdown.{CostBreakdownItem}
use kxinspect_backend.Db.Text.{Text}

pub record Booking : Type 0 where
  pub id : String
  pub property_code : String
  pub room_name : String
  pub display_location : String
  pub start_date : Stamp
  pub end_date : Stamp

pub data RecordStatus : Type 0 where
  pending completed : RecordStatus

pub record InventoryReport : Type 0 where
  pub id : String
  pub booking_id : String
  pub name : String
  pub summary : String
  pub status : RecordStatus
  pub location : String
  pub completed_on : Option Stamp
  pub report_url : Text
  pub download_media_type : String
  pub download_file_name : String

pub record GeneralNote : Type 0 where
  pub id : String
  pub recorded_at : Stamp
  pub text : String

pub record ItemAction : Type 0 where
  pub id : String
  pub item_name : String
  pub notes : String
  pub thumbnail_url : Option Text
  pub charge_id : Option String
  pub amount_minor : Option ℕ

pub record ItemUpdate : Type 0 where
  pub id : String
  pub item_name : String
  pub condition_note : String

pub data InspectionType : Type 0 where
  pre_arrival post_arrival mid_stay checkout : InspectionType

pub record Inspection : Type 0 where
  pub id : String
  pub booking_id : String
  pub type : InspectionType
  pub status : RecordStatus
  pub location : String
  pub room_name : String
  pub date : Stamp
  pub general_notes : List GeneralNote
  pub item_actions : List ItemAction
  pub item_updates : List ItemUpdate

pub data TaskCategory : Type 0 where
  electrical plumbing heating appliance furniture cleaning other : TaskCategory

pub data TaskStatus : Type 0 where
  new in_progress outstanding accepted completed : TaskStatus

pub record MaintenanceTask : Type 0 where
  pub id : String
  pub booking_id : String
  pub category : TaskCategory
  pub notes : String
  pub location : String
  pub date : Stamp
  pub status : TaskStatus

pub record Photo : Type 0 where
  pub id : String
  pub url : Text
  pub thumbnail_url : Text
  pub media_type : String
  pub width : ℕ
  pub height : ℕ
  pub alt_key : String
  pub sort_order : ℕ

pub record ContestAttachment : Type 0 where
  pub id : String
  pub display_name : String
  pub media_type : String
  pub size_bytes : ℕ
  pub sha256 : String
  pub download_url : Text
  pub thumbnail_url : Option Text

pub data ChargeType : Type 0 where
  replace repair clean : ChargeType

-- The members of a charge that no operation on a stored charge writes, but for the cost breakdown,
-- which the loader fills in.
pub record ChargeFacts : Type 0 where
  pub id : String
  pub booking_id : String
  pub inspection_id : Option String
  pub item_name : String
  pub type : ChargeType
  pub notes : String
  pub location : String
  pub amount_minor : ℕ
  pub currency : String
  pub cost_breakdown : List CostBreakdownItem
  pub raised_at : Stamp
  pub grace_period_days : ℕ
  pub deadline_at : Stamp
  pub photos : List Photo

pub record Charge : Type 0 where
  pub facts : ChargeFacts
  pub open facts use *
  pub status : ChargeStatus
  pub contest_reason : Option String
  pub contest_attachments : List ContestAttachment
  pub accepted_at : Option Stamp
  pub contested_at : Option Stamp
  pub resolved_at : Option Stamp
  pub paid_at : Option Stamp
  pub acceptance_origin : Option AcceptanceOrigin
  pub version : ℕ
  pub updated_at : Stamp

pub data NotificationType : Type 0 where
  charge_raised charge_deadline_approaching charge_accepted charge_resolved charge_paid :
      NotificationType

pub record AppNotification : Type 0 where
  pub id : String
  pub type : NotificationType
  pub title_key : String
  pub body_key : String
  pub charge_id : Option String
  pub created_at : Stamp
  pub read : Bool

pub record Entities : Type 0 where
  pub bookings : List Booking
  pub inventory_reports : List InventoryReport
  pub inspections : List Inspection
  pub tasks : List MaintenanceTask
  pub charges : List Charge
  pub notifications : List AppNotification
