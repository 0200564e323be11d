-- ===== src/Domain/Booking.antt =====
-- backend/src/modules/booking/domain/types.ts. Ids and currencies are only compared, so ids are
-- numbers; an instant is a number of milliseconds, an amount a number of minor units, and a
-- percentage, a numeric(5,2) of the schema, a number of hundredths of a percent.
use last_chance_platform.Prelude.{ℕ, String, Bool, true, false, Option}

pub data BookingStatus : Type 0 where
  draft pending_payment confirmed checked_in completed cancelled expired refunded : BookingStatus

pub data BookingType : Type 0 where
  hourly nightly : BookingType

pub data ActorType : Type 0 where
  guest host admin support system : ActorType

pub data BookingSource : Type 0 where
  web ios android admin_console api : BookingSource

-- `status = …` of two statuses.
abbrev pub same_status : BookingStatus → BookingStatus → Bool
same_status BookingStatus.draft BookingStatus.draft = true
same_status BookingStatus.pending_payment BookingStatus.pending_payment = true
same_status BookingStatus.confirmed BookingStatus.confirmed = true
same_status BookingStatus.checked_in BookingStatus.checked_in = true
same_status BookingStatus.completed BookingStatus.completed = true
same_status BookingStatus.cancelled BookingStatus.cancelled = true
same_status BookingStatus.expired BookingStatus.expired = true
same_status BookingStatus.refunded BookingStatus.refunded = true
same_status _ _ = false

-- `INVENTORY_BLOCKING_STATUSES`, as a test.
abbrev pub is_blocking : BookingStatus → Bool
is_blocking BookingStatus.pending_payment = true
is_blocking BookingStatus.confirmed = true
is_blocking BookingStatus.checked_in = true
is_blocking _ = false

-- A row of `bookings`; the last three columns are not in the read model.
pub record Booking : Type 0 where
  pub id : ℕ
  pub guest_id : ℕ
  pub unit_id : ℕ
  pub property_id : ℕ
  pub booking_type : BookingType
  pub status : BookingStatus
  pub source : BookingSource
  pub check_in_utc : ℕ
  pub check_out_utc : ℕ
  pub turnaround_minutes : ℕ
  pub guests_count : ℕ
  pub hold_expires_at : Option ℕ
  pub currency : String
  pub base_amount_minor : ℕ
  pub cleaning_fee_minor : ℕ
  pub service_fee_minor : ℕ
  pub taxes_minor : ℕ
  pub discount_minor : ℕ
  pub total_amount_minor : ℕ
  pub commission_pct : ℕ
  pub commission_minor : ℕ
  pub host_payout_minor : ℕ
  pub flash_deal_id : Option ℕ
  pub cancelled_at : Option ℕ
  pub cancelled_by : Option ActorType
  pub cancellation_reason : Option String

pub record BookableUnit : Type 0 where
  pub id : ℕ
  pub property_id : ℕ
  pub supports_hourly : Bool
  pub supports_nightly : Bool
  pub max_guests : ℕ
  pub currency : String
  pub base_nightly_rate_minor : Option ℕ
  pub base_hourly_rate_minor : Option ℕ
  pub min_hourly_duration_minutes : ℕ
  pub turnaround_minutes : ℕ
  pub host_id : ℕ
  pub commission_pct_override : Option ℕ
