-- ===== src/Core/Errors.antt =====
-- app/core/errors.py: the exceptions that reach the API, their machine codes and HTTP statuses, and
-- the catalogue. Of the details the model keeps those that carry state; messages are left out.
pub mod Catalog
use kxinspect_backend.Base.{
  ℕ, ◌≡◌, refl, String, Bool, true, false, Option, none, some, List, [], ◌∷◌,
}
use kxinspect_backend.Domain.ChargeState.{ChargeStatus, ChargeEvent}
use kxinspect_backend.Db.Entities.{Charge}

pub data ApiError : Type 0 where
  malformed_request : ApiError
  idempotency_key_missing : ApiError
  idempotency_key_invalid : ApiError
  validation : ApiError
  booking_not_found : (booking_id : String) → ApiError
  charge_not_found : (charge_id : String) → ApiError
  inspection_not_found : (inspection_id : String) → ApiError
  report_not_found : (report_id : String) → ApiError
  notification_not_found : (notification_id : String) → ApiError
  attachment_not_found : (attachment_id : String) → ApiError
  range_not_satisfiable : ApiError
  invalid_transition :
      (charge_id : String) (status : ChargeStatus) (event : ChargeEvent) (current : Charge)
      → ApiError
  version_conflict : (charge_id : String) (expected : ℕ) (current : Charge) → ApiError
  epoch_mismatch : (expected state_epoch : String) (store_revision : ℕ) → ApiError
  idempotency_payload_mismatch : (key : String) → ApiError
  task_duplicate_id : (task_id : String) → ApiError
  charge_duplicate_id : (charge_id : String) → ApiError
  contest_reason_invalid : (grapheme_length : ℕ) → ApiError
  attachment_too_many : ApiError
  attachment_empty : ApiError
  attachment_name_invalid : ApiError
  attachment_too_large : ApiError
  attachment_total_too_large : ApiError
  attachment_unsupported_media_type : ApiError
  dev_route_forbidden : ApiError
  store_unavailable : ApiError
  stream_unavailable : ApiError
  chaos_injected : (code : String) (status_code : ℕ) (path : String) → ApiError

-- An exception that a request can end with: an `ApiError`, or one of Python's own, which the
-- handler of last resort turns into `server.internal`.
pub data Fault : Type 0 where
  api : ApiError → Fault
  value_error overflow_error assertion_error : Fault

pub data Result {ℓ} (A : Type ℓ) : Type ℓ where
  ok : A → Result A
  raise : Fault → Result A

infixl 5 ◌>>=◌ ◌>>◌
abbrev pub ◌>>=◌ {ℓ κ} : {A : Type ℓ} {B : Type κ} → Result A → (A → Result B) → Result B
ok a >>= f = f a
raise e >>= f = raise e

abbrev pub ◌>>◌ {ℓ} : {B : Type ℓ} → Result (Unit {0}) → Result B → Result B
m >> k = m >>= λ _. k

-- A test whose failure raises a ValueError.
abbrev pub require : Bool → Result (Unit {0})
require true = ok tt
require false = raise Fault.value_error

-- A chain that ends well has passed its test, or its first step.
pub require-then :
    {A : Type 0} (b : Bool) (m : Result A) (x : A)
    → (require b >> m) ≡ ok x
    → (b ≡ true) × (m ≡ ok x)
require-then true m x h = (refl, h)
require-then false m x h = absurd (cc)

pub bind-ok :
    {A B : Type 0} (m : Result A) (k : A → Result B) (y : B)
    → (m >>= k) ≡ ok y
    → (x : A) × (m ≡ ok x) × (k x ≡ ok y)
bind-ok (ok x) k y h = (x, refl, h)
bind-ok (raise e) k y h = absurd (cc)

-- The `code` of an error.
unfoldable pub code : ApiError → String
code malformed_request = "request.malformed"
code idempotency_key_missing = "request.idempotency_key_missing"
code idempotency_key_invalid = "request.idempotency_key_invalid"
code validation = "validation.failed"
code (booking_not_found _) = "booking.not_found"
code (charge_not_found _) = "charge.not_found"
code (inspection_not_found _) = "inspection.not_found"
code (report_not_found _) = "report.not_found"
code (notification_not_found _) = "notification.not_found"
code (attachment_not_found _) = "attachment.not_found"
code range_not_satisfiable = "attachment.range_not_satisfiable"
code (invalid_transition _ _ _ _) = "charge.invalid_transition"
code (version_conflict _ _ _) = "charge.version_conflict"
code (epoch_mismatch _ _ _) = "store.epoch_mismatch"
code (idempotency_payload_mismatch _) = "idempotency.payload_mismatch"
code (task_duplicate_id _) = "task.duplicate_id"
code (charge_duplicate_id _) = "charge.duplicate_id"
code (contest_reason_invalid _) = "contest.reason_invalid"
code attachment_too_many = "attachment.too_many"
code attachment_empty = "attachment.empty"
code attachment_name_invalid = "attachment.invalid_name"
code attachment_too_large = "attachment.too_large"
code attachment_total_too_large = "attachment.total_too_large"
code attachment_unsupported_media_type = "attachment.unsupported_media_type"
code dev_route_forbidden = "dev.forbidden"
code store_unavailable = "store.unavailable"
code stream_unavailable = "stream.unavailable"
code (chaos_injected c _ _) = c

-- The `status_code` of an error.
unfoldable pub status_code : ApiError → ℕ
status_code malformed_request = 400
status_code idempotency_key_missing = 400
status_code idempotency_key_invalid = 400
status_code validation = 422
status_code (booking_not_found _) = 404
status_code (charge_not_found _) = 404
status_code (inspection_not_found _) = 404
status_code (report_not_found _) = 404
status_code (notification_not_found _) = 404
status_code (attachment_not_found _) = 404
status_code range_not_satisfiable = 416
status_code (invalid_transition _ _ _ _) = 409
status_code (version_conflict _ _ _) = 409
status_code (epoch_mismatch _ _ _) = 409
status_code (idempotency_payload_mismatch _) = 409
status_code (task_duplicate_id _) = 409
status_code (charge_duplicate_id _) = 409
status_code (contest_reason_invalid _) = 422
status_code attachment_too_many = 422
status_code attachment_empty = 422
status_code attachment_name_invalid = 422
status_code attachment_too_large = 413
status_code attachment_total_too_large = 413
status_code attachment_unsupported_media_type = 415
status_code dev_route_forbidden = 403
status_code store_unavailable = 503
status_code stream_unavailable = 503
status_code (chaos_injected _ s _) = s
