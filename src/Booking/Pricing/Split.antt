-- ===== src/Booking/Pricing/Split.antt =====
-- The amounts of a quote satisfy the checks of `bookings`: `bookings_price_consistency` and
-- `bookings_split_exact`.
use last_chance_platform.Prelude.{
  ℕ, String, ◌+◌, ◌-◌, ◌≤◌, ◌<◌, ◌^◌, ◌≡◌, Option, arith, ltb, or_else,
}
use last_chance_platform.Prelude.Int.{pos, sub_ℕ-eq_pos}
use last_chance_platform.Prelude.Result.{ok, >>=-eq-ok, fail_if-eq-ok}
use last_chance_platform.Domain.Booking.{BookingType, BookableUnit}
use last_chance_platform.Booking.Pricing.{
  PlatformSettings, PriceQuote, percent_of, breakdown, commission_for, base_for, duration_minutes,
  quote,
}
use last_chance_platform.Booking.Pricing.Rounding.{percent_of-le}

-- What the checks of the table say of a quote, and that no amount exceeds what it is part of.
pub record IsBalanced (q : PriceQuote) : Type 0 where
  pub payout : ℕ
  pub payout_eq : q.host_payout_minor ≡ pos payout
  pub total_exact :
      q.total_amount_minor + q.discount_minor
      ≡ q.base_amount_minor + q.cleaning_fee_minor + q.service_fee_minor + q.taxes_minor
  pub split_exact : q.commission_minor + payout + q.discount_minor ≡ q.base_amount_minor
  pub payout_within : q.commission_minor + payout ≤ q.total_amount_minor

pub breakdown-IsBalanced :
    (currency : String) (base discount_pct commission_pct : ℕ)
    → discount_pct ≤ 10000
    → commission_pct ≤ 10000
    → base < 2 ^ 46
    → IsBalanced (breakdown currency base discount_pct commission_pct)
unfolding breakdown
breakdown-IsBalanced currency base discount_pct commission_pct hd hc small =
    let discount : ℕ = percent_of discount_pct base in
    let net : ℕ = base - discount in
    let disc_le : discount ≤ base = percent_of-le discount_pct base hd small in
    let com_le : percent_of commission_pct net ≤ net =
      percent_of-le commission_pct net hc (omega arith) in
    record {
      payout = net - percent_of commission_pct net;
      payout_eq = sub_ℕ-eq_pos net (percent_of commission_pct net) com_le;
      total_exact = omega arith;
      split_exact = omega arith;
      payout_within = omega arith;
    }

-- What an accepted quote was computed from.
pub record Origin (settings : PlatformSettings) (unit : BookableUnit) (type : BookingType)
    (check_in check_out : ℕ) (option_pct : Option ℕ) (q : PriceQuote) : Type 0 where
  pub minutes : ℕ
  pub base : ℕ
  pub duration : duration_minutes check_in check_out ≡ ok minutes
  pub priced : base_for settings unit type minutes ≡ ok base
  pub discount_capped : or_else option_pct 0 ≤ 10000
  pub computed :
      q ≡ breakdown unit.currency base (or_else option_pct 0) (commission_for settings unit)

pub quote-Origin :
    (settings : PlatformSettings) (unit : BookableUnit) (type : BookingType)
    (check_in check_out : ℕ) (option_pct : Option ℕ) (q : PriceQuote)
    → quote settings unit type check_in check_out option_pct ≡ ok q
    → Origin settings unit type check_in check_out option_pct q
unfolding quote
quote-Origin settings unit type check_in check_out option_pct q h =
    let (minutes, timed, priced) = >>=-eq-ok (duration_minutes check_in check_out) _ h in
    let (base, has_base, capped) = >>=-eq-ok (base_for settings unit type minutes) _ priced in
    let (within, returned) = fail_if-eq-ok (ltb 10000 (or_else option_pct 0)) _ _ capped in
    record {
      minutes = minutes;
      base = base;
      duration = timed;
      priced = has_base;
      discount_capped = ground arith;
      computed = cc;
    }

-- A quote that returns, of a base below 2 ^ 46 and at a commission of at most a hundred percent, is
-- one that the schema's checks accept: total and discount make up base, cleaning fee, service fee
-- and taxes, and commission, payout and discount make up the base, the payout being no negative
-- amount.
pub quote-IsBalanced :
    (settings : PlatformSettings) (unit : BookableUnit) (type : BookingType)
    (check_in check_out : ℕ) (option_pct : Option ℕ) (q : PriceQuote)
    → commission_for settings unit ≤ 10000
    → quote settings unit type check_in check_out option_pct ≡ ok q
    → q.base_amount_minor < 2 ^ 46
    → IsBalanced q
unfolding breakdown
quote-IsBalanced settings unit type check_in check_out option_pct q commission_capped h small =
    let o = quote-Origin settings unit type check_in check_out option_pct q h in
    rw o.computed (
      breakdown-IsBalanced unit.currency o.base (or_else option_pct 0)
        (commission_for settings unit) o.discount_capped commission_capped (rw o.computed at small))
