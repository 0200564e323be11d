-- ===== src/Booking/Pricing/Tests.antt =====
-- Runs of the pricing rules, and the theorems at concrete stays.
use last_chance_platform.Samples.{settings}
use last_chance_platform.Prelude.{◌+◌, ◌-◌, ◌≤◌, ◌<◌, ◌≡◌, refl, true, none, some, arith}
use last_chance_platform.Prelude.Double.{
  of_hundredths, times_double, over_100, math_round, to_53_bits, half_even,
}
use last_chance_platform.Prelude.Int.{pos}
use last_chance_platform.Prelude.Result.{ok, Returns-of_eq}
use last_chance_platform.Domain.Booking.{hourly, BookableUnit}
use last_chance_platform.Booking.Pricing.{
  PriceQuote, percent_of, breakdown, duration_minutes, hourly_base, nightly_base, quote,
}
use last_chance_platform.Booking.Pricing.Split.{IsBalanced, quote-IsBalanced}
use last_chance_platform.Booking.Pricing.Accepts.{Offered, quote-Returns}
use last_chance_platform.Booking.Pricing.Discount.{quote_discount_lowers}

abbrev pub unit : BookableUnit
unit = record {
  id = 7;
  property_id = 3;
  supports_hourly = true;
  supports_nightly = true;
  max_guests = 4;
  currency = "SAR";
  base_nightly_rate_minor = some 50000;
  base_hourly_rate_minor = some 7999;
  min_hourly_duration_minutes = 120;
  turnaround_minutes = 30;
  host_id = 9;
  commission_pct_override = none;
}

-- Three hours at 79.99, at 12.5 % off.
abbrev deal_quote : PriceQuote
deal_quote = breakdown "SAR" 23997 1250 1500

abbrev full_quote : PriceQuote
full_quote = breakdown "SAR" 23997 0 1500

quote_three_hours :
    quote settings unit hourly 1000 10801000 (some 1250)
    ≡ ok (record {
      currency = "SAR";
      base_amount_minor = 23997;
      cleaning_fee_minor = 0;
      service_fee_minor = 630;
      taxes_minor = 3244;
      discount_minor = 3000;
      total_amount_minor = 24871;
      commission_pct = 1500;
      commission_minor = 3150;
      host_payout_minor = pos 17847;
    })
unfolding quote duration_minutes hourly_base nightly_base breakdown percent_of of_hundredths
    times_double over_100 math_round to_53_bits half_even
quote_three_hours = refl

three_hours : quote settings unit hourly 1000 10801000 (some 1250) ≡ ok deal_quote
unfolding quote duration_minutes hourly_base nightly_base breakdown
three_hours = refl

three_hours_full : quote settings unit hourly 1000 10801000 (some 0) ≡ ok full_quote
unfolding quote duration_minutes hourly_base nightly_base breakdown
three_hours_full = refl

quote-IsBalanced_example : IsBalanced deal_quote
quote-IsBalanced_example =
    quote-IsBalanced settings unit hourly 1000 10801000 (some 1250) deal_quote (omega arith)
      three_hours (unfold breakdown in omega arith)

quote-Returns_example :
    (1000 < 10801000) × Offered settings unit hourly (10801000 - 1000) × (1250 ≤ 10000)
quote-Returns_example =
    (quote-Returns settings unit hourly 1000 10801000 (some 1250)).0
      (Returns-of_eq _ deal_quote three_hours)

quote_discount_lowers_example :
    (deal_quote.base_amount_minor ≡ full_quote.base_amount_minor)
    × (full_quote.discount_minor ≤ deal_quote.discount_minor)
    × (deal_quote.total_amount_minor + deal_quote.discount_minor
        ≤ full_quote.total_amount_minor + full_quote.discount_minor)
quote_discount_lowers_example =
    quote_discount_lowers settings unit hourly 1000 10801000 0 1250 full_quote deal_quote
      (omega arith) three_hours_full three_hours (unfold breakdown in omega arith)

-- Half a minor unit above a whole number, and the product of the doubles below it.
five_and_a_bit : percent_of 502 2500 ≡ 125
unfolding percent_of of_hundredths times_double over_100 math_round to_53_bits half_even
five_and_a_bit = refl
