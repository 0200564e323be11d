-- ===== src/Inventory/MapSearch.antt =====
-- backend/src/modules/inventory/application/map-search.service.ts and
-- infrastructure/map-search.repository.ts, with the view `v_public_units` of
-- db/migrations/0016_moderation_compliance.sql. Whether a property's displaced point lies in the
-- viewport, which PostGIS decides, and the order of the pins, by deal and rating, are arguments; the
-- box of the viewport, of real numbers, is left out of the request.
pub mod Holdable
use last_chance_platform.Prelude.{
  ℕ, zero, suc, ◌+◌, ◌-◌, ◌*◌, ◌/◌, Bool, true, false, not, ◌&&◌, ◌||◌, Option, none, some, List,
  [], ◌∷◌, any, find?, filter, ltb, leb, ◌==◌, is_some, if◌then◌else◌,
}
use last_chance_platform.Prelude.Result.{Result, ok, err, fail_if, ◌>>=◌, ◌>>◌}
use last_chance_platform.Errors.{DomainError}
use last_chance_platform.Domain.Booking.{BookingType, is_blocking, Booking}
use last_chance_platform.Domain.Inventory.{StayUnit, Property}
use last_chance_platform.Domain.Deal.{FlashDeal}
use last_chance_platform.World.Store.{Db}
use last_chance_platform.Deals.Repository.{is_active}
use last_chance_platform.Booking.Table.{block_end, overlaps, calendar_blocked}
use last_chance_platform.Booking.Service.{open_for_booking}

abbrev pub max_limit : ℕ
max_limit = 300

abbrev pub default_limit : ℕ
default_limit = 120

abbrev pub is_hourly : BookingType → Bool
is_hourly BookingType.hourly = true
is_hourly BookingType.nightly = false

pub record MapSearchQuery : Type 0 where
  pub booking_type : BookingType
  pub stay : Option (ℕ × ℕ)
  pub guests : Option ℕ
  pub min_price_minor : Option ℕ
  pub max_price_minor : Option ℕ
  pub limit : ℕ

-- The parameters of a request once they are numbers and instants; `limit` is none when it is no
-- integer.
pub record RawSearch : Type 0 where
  pub booking_type : BookingType
  pub check_in_utc : Option ℕ
  pub check_out_utc : Option ℕ
  pub guests : Option ℕ
  pub min_price_minor : Option ℕ
  pub max_price_minor : Option ℕ
  pub limit : Option ℕ

-- Both instants or neither, and in order.
unfoldable pub stay_of : Option ℕ → Option ℕ → Result DomainError (Option (ℕ × ℕ))
stay_of none none = ok none
stay_of (some from) (some until) =
    if leb until from then err DomainError.validation_failed else ok (some (from, until))
stay_of _ _ = err DomainError.validation_failed

abbrev pub at_least : Option ℕ → ℕ → Bool
at_least none n = true
at_least (some low) n = leb low n

abbrev pub at_most : Option ℕ → ℕ → Bool
at_most none n = true
at_most (some high) n = leb n high

abbrev pub is_zero : Option ℕ → Bool
is_zero none = false
is_zero (some n) = n == 0

abbrev pub is_inverted : Option ℕ → Option ℕ → Bool
is_inverted (some low) (some high) = ltb high low
is_inverted _ _ = false

-- `Math.min(Math.max(limitRaw, 1), MAX_LIMIT)`
unfoldable pub limit_of : Option ℕ → ℕ
limit_of none = default_limit
limit_of (some n) = if ltb n 1 then 1 else if ltb max_limit n then max_limit else n

-- `parse`
unfoldable pub parse : RawSearch → Result DomainError MapSearchQuery
parse raw = do
  stay ← stay_of raw.check_in_utc raw.check_out_utc
  fail_if (is_zero raw.guests) DomainError.validation_failed
  fail_if (is_inverted raw.min_price_minor raw.max_price_minor) DomainError.validation_failed
  ok (record {
    booking_type = raw.booking_type;
    stay = stay;
    guests = raw.guests;
    min_price_minor = raw.min_price_minor;
    max_price_minor = raw.max_price_minor;
    limit = limit_of raw.limit;
  })

-- `v_public_units`
abbrev pub in_public_units : StayUnit → Property → Bool
in_public_units u p = open_for_booking u p && (not u.is_deleted && not p.is_deleted)

-- a deal that a guest could claim now
unfoldable pub is_live_deal : ℕ → ℕ → FlashDeal → Bool
is_live_deal now unit_id d =
    (d.unit_id == unit_id && is_active d.status)
    && ((leb d.starts_at now && ltb now d.ends_at) && ltb d.quantity_claimed d.quantity_total)

unfoldable pub better_deal : FlashDeal → Option FlashDeal → FlashDeal
better_deal d none = d
better_deal d (some e) = if ltb d.discount_pct e.discount_pct then e else d

-- `ORDER BY fd.discount_pct DESC LIMIT 1`
unfoldable pub best_deal : ℕ → ℕ → List FlashDeal → Option FlashDeal
best_deal now unit_id [] = none
best_deal now unit_id (d ∷ deals) =
    let rest = best_deal now unit_id deals in
    if is_live_deal now unit_id d then some (better_deal d rest) else rest

abbrev pub discount_of : Option FlashDeal → ℕ
discount_of none = 0
discount_of (some d) = d.discount_pct

-- `round(rate.base_minor * (1 - COALESCE(d.discount_pct, 0) / 100.0))`
unfoldable pub effective_minor : ℕ → ℕ → ℕ
effective_minor base discount_pct = (base * (10000 - discount_pct) + 5000) / 10000

unfoldable pub rate_of : BookingType → StayUnit → Option ℕ
rate_of BookingType.hourly u = u.base_hourly_rate_minor
rate_of BookingType.nightly u = u.base_nightly_rate_minor

abbrev pub offers : BookingType → StayUnit → Bool
offers BookingType.hourly u = u.supports_hourly
offers BookingType.nightly u = u.supports_nightly

-- The two NOT EXISTS over bookings and calendar blocks.
unfoldable pub is_free : StayUnit → Option (ℕ × ℕ) → Db → Bool
is_free u none db = true
is_free u (some (from, until)) db =
    let last = block_end until u.turnaround_minutes in
    not (
      any
        (λ (b : Booking).
          (b.unit_id == u.id && is_blocking b.status)
          && overlaps b.check_in_utc (block_end b.check_out_utc b.turnaround_minutes) from last)
        db.bookings)
    && not (calendar_blocked db.blocks u.id from last)

pub record MapPin : Type 0 where
  pub unit : StayUnit
  pub property : Property
  pub base_price_minor : ℕ
  pub price_minor : ℕ
  pub deal : Option FlashDeal

abbrev pub and_pin : Option MapPin → List MapPin → List MapPin
and_pin none pins = pins
and_pin (some pin) pins = pin ∷ pins

module _ (in_viewport : Property → Bool) (q : MapSearchQuery) (now : ℕ) (db : Db) where
  abbrev pub fits : StayUnit → Property → ℕ → Bool
  fits u p price =
      (in_public_units u p && in_viewport p)
      && ((offers q.booking_type u && at_least q.guests u.max_guests)
          && ((at_least q.min_price_minor price && at_most q.max_price_minor price)
              && is_free u q.stay db))

  unfoldable pub pin_at : StayUnit → Property → Option ℕ → Option MapPin
  pin_at u p none = none
  pin_at u p (some base) =
      let deal = best_deal now u.id db.deals in
      let price = effective_minor base (discount_of deal) in
      if fits u p price
      then some (record {
        unit = u;
        property = p;
        base_price_minor = base;
        price_minor = price;
        deal = deal;
      })
      else none

  -- every unit with its property
  unfoldable pub pins_of : List StayUnit → List MapPin
  pins_of [] = []
  pins_of (u ∷ units) =
      let rest = pins_of units in
      elim (find? (λ (p : Property). p.id == u.property_id) db.properties) [
        | none ↦ rest
        | some p ↦ and_pin (pin_at u p (rate_of q.booking_type u)) rest
      ]

unfoldable pub take : ℕ → List MapPin → List MapPin
take zero pins = []
take (suc n) [] = []
take (suc n) (pin ∷ pins) = pin ∷ take n pins

abbrev pub count : List MapPin → ℕ
count [] = 0
count (_ ∷ pins) = suc (count pins)

-- `MapSearchService.search`: the pins, and whether there may be more
unfoldable pub search_map :
    (Property → Bool)
    → (List MapPin → List MapPin)
    → ℕ
    → RawSearch
    → Db
    → Result DomainError (List MapPin × Bool)
search_map in_viewport order now raw db = do
  q ← parse raw
  let pins = take q.limit (order (pins_of in_viewport q now db db.units))
  ok (pins, leb q.limit (count pins))
