-- ===== src/Errors.antt =====
-- The error language of the backend: backend/src/common/errors/domain-errors.ts and
-- pg-error.mapper.ts. A class is a constructor; its message and details, which only a client
-- displays, are left out, except the delay of `RateLimitedError`, which the filter reads.
use last_chance_platform.Prelude.{ℕ, String}

pub data DomainError : Type 0 where
  unit_unavailable invalid_moderation_transition rejection_reason_required : DomainError
  moderation_conflict property_not_found invalid_transition hold_expired : DomainError
  stale_state booking_not_found unit_not_found unit_not_bookable : DomainError
  validation_failed lock_not_acquired invariant_violation unauthorized : DomainError
  forbidden invalid_credentials email_taken : DomainError
  rate_limited : ℕ → DomainError
  flash_deal_sold_out flash_deal_not_claimable flash_deal_not_found : DomainError

-- `code`
unfoldable pub code : DomainError → String
code DomainError.unit_unavailable = "UNIT_UNAVAILABLE"
code DomainError.invalid_moderation_transition = "MODERATION_INVALID_TRANSITION"
code DomainError.rejection_reason_required = "REJECTION_REASON_REQUIRED"
code DomainError.moderation_conflict = "MODERATION_CONFLICT"
code DomainError.property_not_found = "PROPERTY_NOT_FOUND"
code DomainError.invalid_transition = "INVALID_STATE_TRANSITION"
code DomainError.hold_expired = "HOLD_EXPIRED"
code DomainError.stale_state = "CONFLICTING_UPDATE"
code DomainError.booking_not_found = "BOOKING_NOT_FOUND"
code DomainError.unit_not_found = "UNIT_NOT_FOUND"
code DomainError.unit_not_bookable = "UNIT_NOT_BOOKABLE"
code DomainError.validation_failed = "VALIDATION_FAILED"
code DomainError.lock_not_acquired = "RESOURCE_CONTENTION"
code DomainError.invariant_violation = "INVARIANT_VIOLATION"
code DomainError.unauthorized = "UNAUTHORIZED"
code DomainError.forbidden = "FORBIDDEN"
code DomainError.invalid_credentials = "INVALID_CREDENTIALS"
code DomainError.email_taken = "EMAIL_TAKEN"
code (DomainError.rate_limited _) = "RATE_LIMITED"
code DomainError.flash_deal_sold_out = "FLASH_DEAL_SOLD_OUT"
code DomainError.flash_deal_not_claimable = "FLASH_DEAL_NOT_CLAIMABLE"
code DomainError.flash_deal_not_found = "FLASH_DEAL_NOT_FOUND"

-- `httpStatus`
unfoldable pub http_status : DomainError → ℕ
http_status DomainError.unit_unavailable = 409
http_status DomainError.invalid_moderation_transition = 409
http_status DomainError.rejection_reason_required = 422
http_status DomainError.moderation_conflict = 409
http_status DomainError.property_not_found = 404
http_status DomainError.invalid_transition = 409
http_status DomainError.hold_expired = 409
http_status DomainError.stale_state = 409
http_status DomainError.booking_not_found = 404
http_status DomainError.unit_not_found = 404
http_status DomainError.unit_not_bookable = 422
http_status DomainError.validation_failed = 400
http_status DomainError.lock_not_acquired = 409
http_status DomainError.invariant_violation = 500
http_status DomainError.unauthorized = 401
http_status DomainError.forbidden = 403
http_status DomainError.invalid_credentials = 401
http_status DomainError.email_taken = 409
http_status (DomainError.rate_limited _) = 429
http_status DomainError.flash_deal_sold_out = 409
http_status DomainError.flash_deal_not_claimable = 409
http_status DomainError.flash_deal_not_found = 404

-- The SQLSTATEs that the schema raises; `other_state` is any that the mapper does not name.
pub data SqlState : Type 0 where
  exclusion_violation unique_violation check_violation : SqlState
  lc400 lc401 lc402 lc403 lc409 lc410 lc411 lc422 : SqlState
  other_state : SqlState

-- What a method may throw: a domain error, an error of the database, or a plain `Error`.
pub data Failure : Type 0 where
  domain : DomainError → Failure
  pg : SqlState → Failure
  plain : Failure

-- `mapPgError`; what is no database error, or has a state that is not named, comes back unchanged.
unfoldable pub map_pg_error : Failure → Failure
map_pg_error (pg SqlState.exclusion_violation) = domain DomainError.unit_unavailable
map_pg_error (pg SqlState.lc409) = domain DomainError.unit_unavailable
map_pg_error (pg SqlState.lc400) = domain DomainError.invalid_transition
map_pg_error (pg SqlState.lc410) = domain DomainError.invalid_moderation_transition
map_pg_error (pg SqlState.lc411) = domain DomainError.rejection_reason_required
map_pg_error (pg SqlState.lc401) = domain DomainError.validation_failed
map_pg_error (pg SqlState.lc402) = domain DomainError.validation_failed
map_pg_error (pg SqlState.lc403) = domain DomainError.invariant_violation
map_pg_error (pg SqlState.lc422) = domain DomainError.invariant_violation
map_pg_error e = e
