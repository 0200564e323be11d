-- ===== src/Booking/Pricing.antt =====
-- backend/src/modules/booking/application/pricing.service.ts, with the three settings that it
-- reads (backend/src/modules/settings/settings.service.ts). A percentage is a number of hundredths
-- of a percent, never negative, as the column type `percentage` has them; the code works with the
-- double of it. Sums and products of whole numbers are exact, as they are below 2 ^ 53.
pub mod Rounding
pub mod Split
pub mod Accepts
pub mod Discount
mod Tests
use last_chance_platform.Prelude.{
  ℕ, String, ◌+◌, ◌-◌, ◌*◌, ◌/◌, ◌%◌, Bool, not, ◌||◌, Option, none, some, ltb, leb, ◌==◌, or_else,
}
use last_chance_platform.Prelude.Double.{of_hundredths, times_double, over_100, math_round}
use last_chance_platform.Prelude.Int.{ℤ, sub_ℕ}
use last_chance_platform.Prelude.Result.{Result, ok, err, fail_if, ◌>>=◌, ◌>>◌}
use last_chance_platform.Errors.{DomainError, Failure, domain}
use last_chance_platform.Domain.Booking.{BookingType, hourly, nightly, BookableUnit}

pub record PlatformSettings : Type 0 where
  pub hold_minutes : ℕ
  pub default_commission_pct : ℕ
  pub max_hourly_booking_hours : ℕ

pub record PriceQuote : Type 0 where
  pub currency : String
  pub base_amount_minor : ℕ
  pub cleaning_fee_minor : ℕ
  pub service_fee_minor : ℕ
  pub taxes_minor : ℕ
  pub discount_minor : ℕ
  pub total_amount_minor : ℕ
  pub commission_pct : ℕ
  pub commission_minor : ℕ
  -- what is left of the net base; a commission above 100 % would make it negative
  pub host_payout_minor : ℤ

abbrev pub ms_per_minute : ℕ
ms_per_minute = 60000

abbrev pub minutes_per_hour : ℕ
minutes_per_hour = 60

abbrev pub minutes_per_night : ℕ
minutes_per_night = 1440

-- `SERVICE_FEE_PCT` and `VAT_PCT`, in hundredths of a percent
abbrev pub service_fee_pct : ℕ
service_fee_pct = 300

abbrev pub vat_pct : ℕ
vat_pct = 1500

-- `Math.round((amount * pct) / 100)`, in doubles
unfoldable pub percent_of : ℕ → ℕ → ℕ
percent_of pct amount = math_round (over_100 (times_double amount (of_hundredths pct)))

unfoldable pub hourly_base : PlatformSettings → BookableUnit → ℕ → Result Failure ℕ
hourly_base settings unit minutes = elim unit.base_hourly_rate_minor [
  | none ↦ err (domain DomainError.unit_not_bookable)
  | some rate ↦ do
    fail_if (not unit.supports_hourly) (domain DomainError.unit_not_bookable)
    fail_if (ltb minutes unit.min_hourly_duration_minutes) (domain DomainError.validation_failed)
    fail_if (ltb (settings.max_hourly_booking_hours * minutes_per_hour) minutes)
        (domain DomainError.validation_failed)
    fail_if (not (minutes % minutes_per_hour == 0)) (domain DomainError.validation_failed)
    ok (minutes / minutes_per_hour * rate)
]

unfoldable pub nightly_base : BookableUnit → ℕ → Result Failure ℕ
nightly_base unit minutes = elim unit.base_nightly_rate_minor [
  | none ↦ err (domain DomainError.unit_not_bookable)
  | some rate ↦ do
    fail_if (not unit.supports_nightly) (domain DomainError.unit_not_bookable)
    fail_if (not (minutes % minutes_per_night == 0)) (domain DomainError.validation_failed)
    ok (minutes / minutes_per_night * rate)
]

abbrev pub base_for : PlatformSettings → BookableUnit → BookingType → ℕ → Result Failure ℕ
base_for settings unit hourly minutes = hourly_base settings unit minutes
base_for settings unit nightly minutes = nightly_base unit minutes

-- The amounts of a quote, from the base, the discount and the commission.
unfoldable pub breakdown : String → ℕ → ℕ → ℕ → PriceQuote
unfolding percent_of
breakdown currency base discount_pct commission_pct =
    let discount = percent_of discount_pct base in
    let net = base - discount in
    let service = percent_of service_fee_pct net in
    let taxes = percent_of vat_pct (net + service) in
    let commission = percent_of commission_pct net in
    record {
      currency = currency;
      base_amount_minor = base;
      cleaning_fee_minor = 0;
      service_fee_minor = service;
      taxes_minor = taxes;
      discount_minor = discount;
      total_amount_minor = base + 0 + service + taxes - discount;
      commission_pct = commission_pct;
      commission_minor = commission;
      host_payout_minor = sub_ℕ net commission;
    }

abbrev pub commission_for : PlatformSettings → BookableUnit → ℕ
commission_for settings unit = or_else unit.commission_pct_override settings.default_commission_pct

-- The window must have a whole number of minutes, and at least one.
unfoldable pub duration_minutes : ℕ → ℕ → Result Failure ℕ
duration_minutes check_in check_out = do
  fail_if (leb check_out check_in || not ((check_out - check_in) % ms_per_minute == 0))
      (domain DomainError.validation_failed)
  ok ((check_out - check_in) / ms_per_minute)

unfoldable pub quote :
    PlatformSettings → BookableUnit → BookingType → ℕ → ℕ → Option ℕ → Result Failure PriceQuote
quote settings unit type check_in check_out option_pct = do
  minutes ← duration_minutes check_in check_out
  base ← base_for settings unit type minutes
  let discount_pct = or_else option_pct 0
  fail_if (ltb 10000 discount_pct) (domain DomainError.validation_failed)
  ok (breakdown unit.currency base discount_pct (commission_for settings unit))
