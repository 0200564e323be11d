-- ===== src/Booking/Pricing/Accepts.antt =====
-- Which stays `quote` prices: its guards against a description in milliseconds.
use last_chance_platform.Prelude.{
  ℕ, ◌-◌, ◌*◌, ◌/◌, ◌%◌, ◌≤◌, ◌<◌, ◌≡◌, ◌≢◌, ◌↔◌, inl, inr, true, Option, none, arith, or_else,
  Option-cases,
}
use last_chance_platform.Prelude.Result.{ok, Returns, Returns-value, Returns-of_eq}
use last_chance_platform.Domain.Booking.{BookingType, hourly, nightly, BookableUnit}
use last_chance_platform.Booking.Pricing.{
  PlatformSettings, PriceQuote, breakdown, commission_for, base_for, hourly_base, nightly_base,
  duration_minutes, quote,
}
use last_chance_platform.Booking.Pricing.Split.{quote-Origin}

-- A span in milliseconds that the unit offers as a stay of this type.
abbrev pub Offered : PlatformSettings → BookableUnit → BookingType → ℕ → Type 0
Offered settings unit hourly span =
    (unit.supports_hourly ≡ true)
    × (unit.base_hourly_rate_minor ≢ none)
    × (span % 3600000 ≡ 0)
    × (unit.min_hourly_duration_minutes * 60000 ≤ span)
    × (span ≤ settings.max_hourly_booking_hours * 3600000)
Offered settings unit nightly span =
    (unit.supports_nightly ≡ true) × (unit.base_nightly_rate_minor ≢ none) × (span % 86400000 ≡ 0)

duration_minutes_returns :
    (a b : ℕ) → a < b → (b - a) % 60000 ≡ 0 → duration_minutes a b ≡ ok ((b - a) / 60000)
unfolding duration_minutes
duration_minutes_returns a b lt whole = ground arith

duration_minutes_inv :
    (a b : ℕ) {m : ℕ}
    → duration_minutes a b ≡ ok m
    → (a < b) × ((b - a) % 60000 ≡ 0) × (m ≡ (b - a) / 60000)
unfolding duration_minutes
duration_minutes_inv a b h = ground arith

base_for-Offered :
    (settings : PlatformSettings) (unit : BookableUnit) (type : BookingType) (span : ℕ) {base : ℕ}
    → span % 60000 ≡ 0
    → base_for settings unit type (span / 60000) ≡ ok base
    → Offered settings unit type span
unfolding hourly_base nightly_base
base_for-Offered settings unit hourly span whole h = ground arith
base_for-Offered settings unit nightly span whole h = ground arith

Offered-base_for :
    (settings : PlatformSettings) (unit : BookableUnit) (type : BookingType) (span : ℕ)
    → Offered settings unit type span
    → (base : ℕ) × (base_for settings unit type (span / 60000) ≡ ok base)
unfolding hourly_base nightly_base
Offered-base_for settings unit hourly span h = elim (Option-cases unit.base_hourly_rate_minor) [
  | inl missing ↦ absurd (h.1 missing)
  | inr (rate, e) ↦ (span / 60000 / 60 * rate, ground arith)
]
Offered-base_for settings unit nightly span h = elim (Option-cases unit.base_nightly_rate_minor) [
  | inl missing ↦ absurd (h.1 missing)
  | inr (rate, e) ↦ (span / 60000 / 1440 * rate, ground arith)
]

Offered-whole :
    (settings : PlatformSettings) (unit : BookableUnit) (type : BookingType) (span : ℕ)
    → Offered settings unit type span
    → span % 60000 ≡ 0
Offered-whole settings unit hourly span h = omega arith
Offered-whole settings unit nightly span h = omega arith

module _ (settings : PlatformSettings) (unit : BookableUnit) (type : BookingType)
    (check_in check_out : ℕ) (option_pct : Option ℕ) where
  abbrev IsPriced : Type 0
  IsPriced =
      (check_in < check_out)
      × Offered settings unit type (check_out - check_in)
      × (or_else option_pct 0 ≤ 10000)

  IsPriced_of_ok :
      (q : PriceQuote) → quote settings unit type check_in check_out option_pct ≡ ok q → IsPriced
  IsPriced_of_ok q e =
      let o = quote-Origin settings unit type check_in check_out option_pct q e in
      let (lt, whole, minutes) = duration_minutes_inv check_in check_out o.duration in
      (
        lt,
        base_for-Offered settings unit type (check_out - check_in) whole (rw minutes at o.priced),
        o.discount_capped,
      )

  ok_of_IsPriced :
      IsPriced → (q : PriceQuote) × (quote settings unit type check_in check_out option_pct ≡ ok q)
  unfolding quote
  ok_of_IsPriced (lt, offered, capped) =
      let span : ℕ = check_out - check_in in
      let whole = Offered-whole settings unit type span offered in
      let (base, priced) = Offered-base_for settings unit type span offered in
      (
        breakdown unit.currency base (or_else option_pct 0) (commission_for settings unit),
        rw (duration_minutes_returns check_in check_out lt whole, priced) (ground arith),
      )

  -- A quote returns exactly when the check-out is after the check-in, the stay is one that the
  -- unit's hourly or nightly rules admit, and the discount is at most a hundred percent.
  pub quote-Returns : Returns (quote settings unit type check_in check_out option_pct) ↔ (
      (check_in < check_out)
      × Offered settings unit type (check_out - check_in)
      × (or_else option_pct 0 ≤ 10000))
  quote-Returns = (
    λ h.
        let (q, e) = Returns-value (quote settings unit type check_in check_out option_pct) h in
        IsPriced_of_ok q e,
    λ h. let (q, e) = ok_of_IsPriced h in Returns-of_eq _ q e,
  )
