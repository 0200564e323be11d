-- ===== src/Booking/Service/Keeps.antt =====
-- What the two writes of the table keep, and the other requests keep at the awaits, each method of
-- the service keeps, whether it returns or throws.
use last_chance_platform.Prelude.{ℕ, ◌≡◌, refl, String, Option, none, some}
use last_chance_platform.Domain.Booking.{BookingStatus, ActorType, Booking, BookableUnit}
use last_chance_platform.World.Store.{Db}
use last_chance_platform.World.Effects.{Env}
use last_chance_platform.World.Keeps.{Preserves, EnvPreserves, Preserves-pure, preserves_rules}
use last_chance_platform.Lock.Preserves.{with_lock-Preserves}
use last_chance_platform.Booking.Pricing.{PlatformSettings, PriceQuote}
use last_chance_platform.Booking.Lifecycle.{assert_transition}
use last_chance_platform.Booking.Repository.Preserves.{Writes, booking_rules}
use last_chance_platform.Booking.Service.{
  FlashDealContext, CreateHoldCommand, find_bookable, run_claim, hold_section, schedule_expiry,
  place_hold, create_hold, must_find, cancel_scheduled_expiry, after_confirm, confirm, or_stale,
  cancel, simple_transition, complete, after_expiry, expire_booking,
}

module _ {P : Db → Type 0} where
  pub must_find-Preserves : (id : ℕ) → Preserves P (must_find id)
  unfolding must_find
  must_find-Preserves id = search preserves_rules

  assert_transition-Preserves : (from to : BookingStatus) → Preserves P (assert_transition from to)
  unfolding assert_transition
  assert_transition-Preserves from to = search preserves_rules

  cancel_scheduled_expiry-Preserves :
      (env : Env) (id : ℕ) → Preserves P (cancel_scheduled_expiry env id)
  unfolding cancel_scheduled_expiry
  cancel_scheduled_expiry-Preserves env id = record { after = λ w h. h }

ruleset service_rules = (
  preserves_rules, booking_rules, must_find-Preserves, assert_transition-Preserves,
  cancel_scheduled_expiry-Preserves,
)

module _ {P : Db → Type 0} (writes : Writes P) (env : Env) (others : EnvPreserves P env) where
  or_stale-Preserves : (id : ℕ) (o : Option Booking) → Preserves P (or_stale env id o)
  unfolding or_stale
  or_stale-Preserves id none = search service_rules
  or_stale-Preserves id (some b) = search service_rules

  after_confirm-Preserves : (id : ℕ) (o : Option Booking) → Preserves P (after_confirm env id o)
  unfolding after_confirm
  after_confirm-Preserves id none = search service_rules
  after_confirm-Preserves id (some b) = search service_rules

  pub confirm-Preserves : (id : ℕ) → Preserves P (confirm env id)
  unfolding confirm
  confirm-Preserves id = search (service_rules, after_confirm-Preserves) depth 9

  pub cancel-Preserves :
      (id : ℕ) (by : ActorType) (reason : Option String) → Preserves P (cancel env id by reason)
  unfolding cancel
  cancel-Preserves id by reason = search (service_rules, or_stale-Preserves) depth 14

  pub simple_transition-Preserves :
      (id : ℕ) (to : BookingStatus) → Preserves P (simple_transition env id to)
  unfolding simple_transition
  simple_transition-Preserves id to = search (service_rules, or_stale-Preserves) depth 9

  pub complete-Preserves : (id : ℕ) → Preserves P (complete env id)
  unfolding complete
  complete-Preserves id = search (service_rules, simple_transition-Preserves) depth 9

  after_expiry-Preserves : (o : Option Booking) → Preserves P (after_expiry o)
  unfolding after_expiry
  after_expiry-Preserves none = search service_rules
  after_expiry-Preserves (some b) = search service_rules

  pub expire_booking-Preserves : (id : ℕ) → Preserves P (expire_booking env id)
  unfolding expire_booking
  expire_booking-Preserves id = search (service_rules, after_expiry-Preserves) depth 9

  find_bookable-Preserves : (id : ℕ) → Preserves P (find_bookable id)
  unfolding find_bookable
  find_bookable-Preserves id = search service_rules depth 9

  schedule_expiry-Preserves : (id expires : ℕ) → Preserves P (schedule_expiry env id expires)
  unfolding schedule_expiry
  schedule_expiry-Preserves id expires = search service_rules

  pub run_claim-Preserves :
      (o : Option FlashDealContext)
      → ((ctx : FlashDealContext) → o ≡ some ctx → Preserves P ctx.claim)
      → Preserves P (run_claim o)
  unfolding run_claim
  run_claim-Preserves none kept = Preserves-pure 0
  run_claim-Preserves (some ctx) kept = kept ctx refl

  hold_section-Preserves :
      (cmd : CreateHoldCommand) (unit : BookableUnit) (q : PriceQuote) (expires : ℕ)
      → Preserves P (run_claim cmd.flash_deal)
      → Preserves P (hold_section env cmd unit q expires)
  unfolding hold_section
  hold_section-Preserves cmd unit q expires claimed = search service_rules depth 12

  pub place_hold-Preserves :
      (settings : PlatformSettings) (cmd : CreateHoldCommand)
      → Preserves P (run_claim cmd.flash_deal)
      → Preserves P (place_hold env settings cmd)
  unfolding place_hold
  place_hold-Preserves settings cmd claimed =
      search
        (
          service_rules, find_bookable-Preserves, with_lock-Preserves, hold_section-Preserves,
          schedule_expiry-Preserves,
        )
        depth 16

  pub create_hold-Preserves :
      (settings : PlatformSettings) (cmd : CreateHoldCommand)
      → ((ctx : FlashDealContext) → cmd.flash_deal ≡ some ctx → Preserves P ctx.claim)
      → Preserves P (create_hold env settings cmd)
  unfolding create_hold
  create_hold-Preserves settings cmd kept =
      let placed = place_hold-Preserves settings cmd (run_claim-Preserves cmd.flash_deal kept) in
      search service_rules depth 5
