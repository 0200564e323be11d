-- ===== src/Booking/Pricing/Rounding.antt =====
-- The one rounding step of the pricing rules, `percent_of`.
use last_chance_platform.Prelude.{ℕ, ◌≤◌, ◌<◌, ◌^◌}
use native.Mathlib.Nat.{le_refl}
use last_chance_platform.Prelude.Double.Rounding.{
  of_hundredths_mono, times_double_mono, over_100_mono, math_round_mono, hundred_percent,
}
use last_chance_platform.Booking.Pricing.{percent_of}

pub percent_of_mono : (p q a b : ℕ) → p ≤ q → a ≤ b → percent_of p a ≤ percent_of q b
unfolding percent_of
percent_of_mono p q a b hp ha =
    math_round_mono _ _
      (over_100_mono _ _ (times_double_mono a b _ _ ha (of_hundredths_mono p q hp)))

-- Of an amount below 2 ^ 46 no share exceeds the amount.
pub percent_of-le :
    (pct amount : ℕ) → pct ≤ 10000 → amount < 2 ^ 46 → percent_of pct amount ≤ amount
unfolding percent_of
percent_of-le pct amount h small =
    rw (hundred_percent amount small) at (percent_of_mono pct 10000 amount amount h (le_refl _))
