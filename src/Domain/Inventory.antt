-- ===== src/Domain/Inventory.antt =====
-- The rows of `units`, `properties`, `host_profiles` and `unit_availability_blocks` that the
-- booking flow joins (backend/src/modules/booking/infrastructure/unit.repository.ts,
-- backend/src/modules/moderation/domain/types.ts).
use last_chance_platform.Prelude.{ℕ, String, Bool, Option}

pub data UnitStatus : Type 0 where
  active inactive maintenance : UnitStatus

pub data PropertyStatus : Type 0 where
  draft pending_review active suspended delisted : PropertyStatus

pub data ModerationStatus : Type 0 where
  draft pending_approval approved rejected suspended : ModerationStatus

pub record StayUnit : Type 0 where
  pub id : ℕ
  pub property_id : ℕ
  pub supports_hourly : Bool
  pub supports_nightly : Bool
  pub max_guests : ℕ
  pub currency : String
  pub base_nightly_rate_minor : Option ℕ
  pub base_hourly_rate_minor : Option ℕ
  pub min_hourly_duration_minutes : ℕ
  pub turnaround_minutes : ℕ
  pub status : UnitStatus
  pub is_deleted : Bool

pub record Property : Type 0 where
  pub id : ℕ
  pub host_id : ℕ
  pub status : PropertyStatus
  pub moderation_status : ModerationStatus
  pub national_short_address : Option String
  pub tourism_permit_number : Option String
  -- a day, by its number
  pub tourism_permit_expires_at : Option ℕ
  pub is_deleted : Bool

pub record HostProfile : Type 0 where
  pub user_id : ℕ
  pub commission_pct_override : Option ℕ
  pub payout_provider_ref : Option String
  -- `kyc_status = 'VERIFIED'`
  pub is_verified : Bool

pub record AvailabilityBlock : Type 0 where
  pub unit_id : ℕ
  pub is_active : Bool
  pub from_utc : ℕ
  pub until_utc : ℕ
