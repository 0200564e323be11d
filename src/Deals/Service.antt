-- ===== src/Deals/Service.antt =====
-- backend/src/modules/deals/application/deal.service.ts.
pub mod Keeps
pub mod History
use last_chance_platform.Prelude.{
  ℕ, ◌-◌, ◌*◌, Bool, true, false, not, ◌&&◌, ◌||◌, Option, none, some, List, [], ◌∷◌, ltb, leb,
  if◌then◌else◌,
}
use last_chance_platform.Prelude.Action.{pure, throw, or_throw, throw_if, ◌>>=◌, ◌>>◌}
use last_chance_platform.Errors.{DomainError, domain}
use last_chance_platform.Domain.Booking.{BookingType, BookingSource, Booking}
use last_chance_platform.Domain.Deal.{FlashDealStatus, FlashDeal, CreateDealInput}
use last_chance_platform.World.Store.{
  PlatformEvent, deal_activated, deal_claimed, deal_sold_out, deal_ended,
}
use last_chance_platform.World.Effects.{M, Env, exec, query, select, pause, publish}
use last_chance_platform.Booking.Pricing.{PlatformSettings}
use last_chance_platform.Booking.Service.{FlashDealContext, CreateHoldCommand, place_hold}
use last_chance_platform.Deals.Repository.{
  is_active, is_sold_out, insert_deal, find_deal, try_claim, activate_due, end_expired,
}

pub record ClaimDealCommand : Type 0 where
  pub deal_id : ℕ
  pub guest_id : ℕ
  pub booking_type : BookingType
  pub check_in_utc : ℕ
  pub check_out_utc : ℕ
  pub guests_count : ℕ

unfoldable pub remaining : FlashDeal → ℕ
remaining d = d.quantity_total - d.quantity_claimed

unfoldable pub announce_new : FlashDeal → M FlashDeal
announce_new d =
    if is_active d.status then publish (deal_activated d.id (remaining d)) >> pure d else pure d

-- `create`
unfoldable pub create_deal : Env → CreateDealInput → M FlashDeal
create_deal env input = do
  throw_if (leb input.ends_at input.starts_at) (domain DomainError.validation_failed)
  throw_if (ltb (72 * 3600000) (input.ends_at - input.starts_at))
      (domain DomainError.validation_failed)
  throw_if (ltb input.discount_pct 500 || ltb 9000 input.discount_pct)
      (domain DomainError.validation_failed)
  throw_if (ltb input.quantity_total 1) (domain DomainError.validation_failed)
  deal ← query (insert_deal env.new_id (env.now 0) input)
  announce_new deal

-- the restriction on the stay
unfoldable pub outside_stay : FlashDeal → ClaimDealCommand → Bool
outside_stay d cmd = elim d.applicable_stay_from [
  | none ↦ false
  | some from ↦ elim d.applicable_stay_to [
    | none ↦ false
    | some to ↦ ltb cmd.check_in_utc from || ltb to cmd.check_out_utc
  ]
]

-- The checks before the hold, by the clock of the process.
unfoldable pub check_claimable : ℕ → FlashDeal → ClaimDealCommand → M (Unit {0})
check_claimable now d cmd = do
  throw_if (is_sold_out d.status || leb d.quantity_total d.quantity_claimed)
      (domain DomainError.flash_deal_sold_out)
  throw_if (not (is_active d.status)) (domain DomainError.flash_deal_not_claimable)
  throw_if (ltb now d.starts_at || leb d.ends_at now) (domain DomainError.flash_deal_not_claimable)
  throw_if (outside_stay d cmd) (domain DomainError.flash_deal_not_claimable)

-- The closure that runs in the transaction of the hold.
unfoldable pub claim_one : ℕ → M ℕ
claim_one id = do
  claimed ← exec (try_claim id)
  or_throw claimed (domain DomainError.flash_deal_sold_out)

unfoldable pub hold_command : FlashDeal → ClaimDealCommand → CreateHoldCommand
hold_command d cmd = record {
  guest_id = cmd.guest_id;
  unit_id = d.unit_id;
  booking_type = cmd.booking_type;
  check_in_utc = cmd.check_in_utc;
  check_out_utc = cmd.check_out_utc;
  guests_count = cmd.guests_count;
  source = some BookingSource.api;
  flash_deal =
      some (record { deal_id = d.id; discount_pct = d.discount_pct; claim = claim_one d.id });
}

-- What is published after a claim.
unfoldable pub claim_event : FlashDeal → ℕ → PlatformEvent
claim_event d claimed =
    if leb d.quantity_total claimed
    then deal_sold_out d.id (d.quantity_total - claimed)
    else deal_claimed d.id (d.quantity_total - claimed)

-- `claim`
unfoldable pub claim_deal : Env → PlatformSettings → ClaimDealCommand → M Booking
claim_deal env settings cmd = do
  found ← select (find_deal cmd.deal_id)
  deal ← or_throw found (domain DomainError.flash_deal_not_found)
  check_claimable (env.now 4) deal cmd
  pause env 20
  placed ← place_hold env settings (hold_command deal cmd)
  publish (claim_event deal placed.1)
  pure placed.0

unfoldable pub announce_found : (ℕ → ℕ → PlatformEvent) → ℕ → Option FlashDeal → M (Unit {0})
announce_found event id none = pure tt
announce_found event id (some d) = publish (event id (remaining d))

-- The two loops of `runLifecycle`.
unfoldable pub announce : Env → (ℕ → ℕ → PlatformEvent) → List ℕ → M (Unit {0})
announce env event [] = pure tt
announce env event (id ∷ ids) = do
  found ← select (find_deal id)
  pause env 23
  announce_found event id found
  announce env event ids

-- `runLifecycle`
unfoldable pub run_lifecycle : Env → M (List ℕ × List ℕ)
run_lifecycle env = do
  activated ← query (activate_due env.db_now)
  pause env 21
  ended ← query (end_expired env.db_now)
  pause env 22
  announce env deal_activated activated
  announce env deal_ended ended
  pure (activated, ended)
