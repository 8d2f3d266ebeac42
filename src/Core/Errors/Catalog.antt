-- ===== src/Core/Errors/Catalog.antt =====
-- The error catalogue of app/core/errors.py.
use kxinspect_backend.Base.{
  ℕ, String, ◌≡◌, refl, ◌⊎◌, inl, inr, Bool, true, List, [], ◌∷◌, ◌&&◌, str_eq, ◌==◌, any_of,
}
use kxinspect_backend.Core.Errors.{ApiError, chaos_injected, code, status_code}

-- `ERROR_CATALOG`, the codes and statuses of its rows, in order.
abbrev pub error_catalog : List (String × ℕ)
error_catalog =
    ("request.malformed", 400)
    ∷ ("request.idempotency_key_missing", 400)
    ∷ ("request.idempotency_key_invalid", 400)
    ∷ ("dev.forbidden", 403)
    ∷ ("booking.not_found", 404)
    ∷ ("charge.not_found", 404)
    ∷ ("inspection.not_found", 404)
    ∷ ("report.not_found", 404)
    ∷ ("notification.not_found", 404)
    ∷ ("attachment.not_found", 404)
    ∷ ("resource.not_found", 404)
    ∷ ("charge.invalid_transition", 409)
    ∷ ("charge.version_conflict", 409)
    ∷ ("store.epoch_mismatch", 409)
    ∷ ("idempotency.payload_mismatch", 409)
    ∷ ("task.duplicate_id", 409)
    ∷ ("charge.duplicate_id", 409)
    ∷ ("attachment.too_large", 413)
    ∷ ("attachment.total_too_large", 413)
    ∷ ("attachment.unsupported_media_type", 415)
    ∷ ("attachment.range_not_satisfiable", 416)
    ∷ ("validation.failed", 422)
    ∷ ("contest.reason_invalid", 422)
    ∷ ("attachment.too_many", 422)
    ∷ ("attachment.empty", 422)
    ∷ ("attachment.invalid_name", 422)
    ∷ ("server.internal", 500)
    ∷ ("chaos.injected", 500)
    ∷ ("store.unavailable", 503)
    ∷ ("stream.unavailable", 503)
    ∷ []

abbrev pub in_catalog : String → ℕ → Bool
in_catalog c s = any_of (λ row. str_eq row.0 c && row.1 == s) error_catalog

abbrev pub IsInjected : ApiError → Type 0
IsInjected (chaos_injected _ _ _) = Unit
IsInjected _ = ⊥

-- Every error but an injected fault, whose code and status the developer chooses, answers with a
-- code and a status that stand together in one row of the catalogue.
code-in_catalog : (e : ApiError) → IsInjected e ⊎ (in_catalog (code e) (status_code e) ≡ true)
unfolding code status_code
code-in_catalog (chaos_injected _ _ _) = inl tt
code-in_catalog _ = inr refl
