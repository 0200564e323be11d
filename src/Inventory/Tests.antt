-- ===== src/Inventory/Tests.antt =====
-- A search over one room with a confirmed stay, and the theorems at it.
use last_chance_platform.Prelude.{ℕ, ◌≤◌, ◌≡◌, refl, true, false, some, none, [], ◌∷◌, All}
use last_chance_platform.Prelude.Result.{ok, err}
use last_chance_platform.Errors.{DomainError}
use last_chance_platform.Domain.Booking.{BookingType}
use last_chance_platform.Domain.Inventory.{
  UnitStatus, PropertyStatus, ModerationStatus, StayUnit, Property,
}
use last_chance_platform.Domain.Deal.{FlashDealStatus, FlashDeal}
use last_chance_platform.World.Store.{Db}
use last_chance_platform.Prelude.Double.{
  of_hundredths, times_double, over_100, math_round, to_53_bits, half_even,
}
use last_chance_platform.Booking.Pricing.{percent_of}
use last_chance_platform.Booking.Table.{calendar_blocked}
use last_chance_platform.Booking.Service.{open_for_booking}
use last_chance_platform.Inventory.MapSearch.{
  RawSearch, stay_of, limit_of, parse, is_live_deal, better_deal, best_deal, effective_minor,
  rate_of, is_free, MapPin, pin_at, pins_of, take, search_map,
}
use last_chance_platform.Inventory.MapSearch.Holdable.{Holdable, search_map-Holdable}
use last_chance_platform.Samples.{next_night, tables}

abbrev room : StayUnit
room = record {
  id = 7;
  property_id = 3;
  supports_hourly = false;
  supports_nightly = true;
  max_guests = 2;
  currency = "SAR";
  base_nightly_rate_minor = some 10005;
  base_hourly_rate_minor = none;
  min_hourly_duration_minutes = 60;
  turnaround_minutes = 60;
  status = UnitStatus.active;
  is_deleted = false;
}

abbrev house : Property
house = record {
  id = 3;
  host_id = 9;
  status = PropertyStatus.active;
  moderation_status = ModerationStatus.approved;
  national_short_address = some "RIYD2342";
  tourism_permit_number = some "TP-1";
  tourism_permit_expires_at = some 20000;
  is_deleted = false;
}

abbrev half_price : FlashDeal
half_price = record {
  id = 80;
  unit_id = 7;
  created_by = 33;
  discount_pct = 5000;
  status = FlashDealStatus.active;
  starts_at = 900;
  ends_at = 90000;
  applicable_stay_from = none;
  applicable_stay_to = none;
  quantity_total = 2;
  quantity_claimed = 1;
}

abbrev town : Db
town = record (tables (next_night ∷ []) []) {
  units = room ∷ [];
  properties = house ∷ [];
  deals = half_price ∷ [];
}

abbrev request : ℕ → ℕ → RawSearch
request from until = record {
  booking_type = BookingType.nightly;
  check_in_utc = some from;
  check_out_utc = some until;
  guests = some 2;
  min_price_minor = none;
  max_price_minor = none;
  limit = none;
}

abbrev pin : MapPin
pin = record {
  unit = room;
  property = house;
  base_price_minor = 10005;
  price_minor = 5003;
  deal = some half_price;
}

before_the_stay :
    search_map (λ p. true) (λ pins. pins) 1000 (request 1000 90000) town ≡ ok (pin ∷ [], false)
unfolding search_map parse stay_of limit_of pins_of pin_at best_deal is_live_deal better_deal
    effective_minor rate_of is_free calendar_blocked open_for_booking take
before_the_stay = refl

during_the_stay :
    search_map (λ p. true) (λ pins. pins) 1000 (request 100000000 186400000) town ≡ ok ([], false)
unfolding search_map parse stay_of limit_of pins_of pin_at best_deal is_live_deal better_deal
    effective_minor rate_of is_free calendar_blocked open_for_booking take
during_the_stay = refl

half_a_range :
    search_map
      (λ p. true)
      (λ pins. pins)
      1000
      (record (request 1000 90000) { check_out_utc = none })
      town
    ≡ err DomainError.validation_failed
unfolding search_map parse stay_of
half_a_range = refl

search_map-Holdable_example : All (Holdable 1000 90000 town) (pin ∷ []) × (1 ≤ 300)
search_map-Holdable_example =
    search_map-Holdable (λ p. true) (λ pins. pins) 1000 (request 1000 90000) town 1000 90000
      (pin ∷ []) false (λ P found k. k) refl refl before_the_stay

-- The pin shows 5003; the quote takes 5003 off 10005.
pin_price : effective_minor 10005 5000 ≡ 5003
unfolding effective_minor
pin_price = refl

quoted_discount : percent_of 5000 10005 ≡ 5003
unfolding percent_of of_hundredths times_double over_100 math_round to_53_bits half_even
quoted_discount = refl
