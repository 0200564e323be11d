-- ===== src/Booking/Pricing/Discount.antt =====
-- What a deal does to the price of the same stay.
use last_chance_platform.Prelude.{
  ℕ, String, ◌+◌, ◌-◌, ◌≤◌, ◌<◌, ◌^◌, ◌≡◌, refl, sym, ◌∙◌, some, arith,
}
use native.Mathlib.Nat.{le_refl}
use last_chance_platform.Prelude.Result.{ok, ok-injective}
use last_chance_platform.Domain.Booking.{BookingType, BookableUnit}
use last_chance_platform.Booking.Pricing.{
  PlatformSettings, PriceQuote, percent_of, service_fee_pct, vat_pct, breakdown, commission_for,
  quote,
}
use last_chance_platform.Booking.Pricing.Rounding.{percent_of-le, percent_of_mono}
use last_chance_platform.Booking.Pricing.Split.{quote-Origin}

-- A larger discount lowers the total by at least what the discount grows.
abbrev Saves : PriceQuote → PriceQuote → Type 0
Saves full deal =
    (full.discount_minor ≤ deal.discount_minor)
    × (deal.total_amount_minor + deal.discount_minor
        ≤ full.total_amount_minor + full.discount_minor)

breakdown-Saves :
    (currency : String) (base p q commission_pct : ℕ)
    → p ≤ q
    → q ≤ 10000
    → base < 2 ^ 46
    → Saves (breakdown currency base p commission_pct) (breakdown currency base q commission_pct)
unfolding breakdown
breakdown-Saves currency base p q commission_pct le cap small =
    let less : percent_of p base ≤ percent_of q base =
      percent_of_mono p q base base le (le_refl _) in
    let within : percent_of q base ≤ base = percent_of-le q base cap small in
    let net_p : ℕ = base - percent_of p base in
    let net_q : ℕ = base - percent_of q base in
    let net_le : net_q ≤ net_p = omega arith in
    let fee : percent_of service_fee_pct net_q ≤ percent_of service_fee_pct net_p =
      percent_of_mono service_fee_pct service_fee_pct net_q net_p (le_refl _) net_le in
    let tax =
      percent_of_mono vat_pct vat_pct (net_q + percent_of service_fee_pct net_q)
        (net_p + percent_of service_fee_pct net_p) (le_refl _) (omega arith) in
    (less, omega arith)

breakdown-base :
    (currency : String) (base p commission_pct : ℕ)
    → (breakdown currency base p commission_pct).base_amount_minor ≡ base
unfolding breakdown
breakdown-base currency base p commission_pct = refl

-- Of two quotes of one stay, whose base is below 2 ^ 46, the one with the larger discount has the
-- same base, no smaller a discount in money, and no larger a sum of total and discount: what is
-- charged on top of the struck-through base does not grow.
pub quote_discount_lowers :
    (settings : PlatformSettings) (unit : BookableUnit) (type : BookingType)
    (check_in check_out p q : ℕ) (full deal : PriceQuote)
    → p ≤ q
    → quote settings unit type check_in check_out (some p) ≡ ok full
    → quote settings unit type check_in check_out (some q) ≡ ok deal
    → full.base_amount_minor < 2 ^ 46
    → (deal.base_amount_minor ≡ full.base_amount_minor)
      × (full.discount_minor ≤ deal.discount_minor)
      × (deal.total_amount_minor + deal.discount_minor
          ≤ full.total_amount_minor + full.discount_minor)
quote_discount_lowers settings unit type check_in check_out p q full deal le hf hd small =
    let f = quote-Origin settings unit type check_in check_out (some p) full hf in
    let d = quote-Origin settings unit type check_in check_out (some q) deal hd in
    let same_minutes : d.minutes ≡ f.minutes = ok-injective (sym d.duration ∙ f.duration) in
    let same_base : d.base ≡ f.base = ok-injective (sym (rw same_minutes at d.priced) ∙ f.priced) in
    let small_base : f.base < 2 ^ 46 =
      rw (f.computed, breakdown-base unit.currency f.base p (commission_for settings unit)) at
        small in
    let commission = commission_for settings unit in
    let saves =
      breakdown-Saves unit.currency f.base p q commission le d.discount_capped small_base in
    rw (d.computed, f.computed, same_base)
      (
        breakdown-base unit.currency f.base q commission
            ∙ sym (breakdown-base unit.currency f.base p commission),
        saves.0,
        saves.1,
      )
