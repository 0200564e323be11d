-- ===== src/Deals/Tests.antt =====
-- The deals on sample rows.
use last_chance_platform.Prelude.{◌≡◌, refl, some, none, List, [], ◌∷◌}
use last_chance_platform.Prelude.Result.{ok}
use last_chance_platform.Domain.Booking.{BookingType}
use last_chance_platform.Domain.Deal.{FlashDealStatus, FlashDeal, CreateDealInput}
use last_chance_platform.World.Store.{Db}
use last_chance_platform.World.Keeps.{EnvPreserves}
use last_chance_platform.World.Effects.{Env}
use last_chance_platform.Deals.Repository.{try_claim, claimed_once}
use last_chance_platform.Deals.Repository.Stock.{IsStocked}
use last_chance_platform.Deals.Service.{ClaimDealCommand}
use last_chance_platform.Deals.Service.History.{DealCall, run_deal_calls, run_deal_calls-IsStocked}
use last_chance_platform.Samples.{settings, tables, world_of, alone}

alone-EnvPreserves : EnvPreserves IsStocked alone
alone-EnvPreserves = record { after = λ k w h. h }

abbrev tonight : CreateDealInput
tonight = record {
  unit_id = 7;
  created_by = none;
  discount_pct = 3000;
  starts_at = 900;
  ends_at = 90000;
  quantity_total = 2;
  applicable_stay_from = none;
  applicable_stay_to = none;
}

abbrev last_one : FlashDeal
last_one = record {
  id = 80;
  unit_id = 7;
  created_by = 33;
  discount_pct = 3000;
  status = FlashDealStatus.active;
  starts_at = 900;
  ends_at = 90000;
  applicable_stay_from = none;
  applicable_stay_to = none;
  quantity_total = 2;
  quantity_claimed = 1;
}

abbrev with_deal : Db
with_deal = record (tables [] []) { deals = last_one ∷ [] }

abbrev claim_command : ClaimDealCommand
claim_command = record {
  deal_id = 80;
  guest_id = 50;
  booking_type = BookingType.nightly;
  check_in_utc = 100000;
  check_out_utc = 86500000;
  guests_count = 2;
}

-- The last claim sells the deal out, and no claim follows it.
sold_out :
    try_claim 80 with_deal
    ≡ ok (
      some 2,
      record with_deal {
        deals = record last_one { quantity_claimed = 2; status = FlashDealStatus.sold_out } ∷ [];
      },
    )
unfolding try_claim claimed_once
sold_out = refl

abbrev deal_calls : List (Env × DealCall)
deal_calls =
    (alone, DealCall.claimed settings claim_command)
    ∷ (alone, DealCall.created tonight)
    ∷ (alone, DealCall.swept)
    ∷ []

with_deal-IsStocked : IsStocked with_deal
with_deal-IsStocked = record { deals = refl }

run_deal_calls-IsStocked_example : IsStocked (run_deal_calls deal_calls (world_of with_deal)).db
run_deal_calls-IsStocked_example =
    run_deal_calls-IsStocked deal_calls (world_of with_deal)
      (alone-EnvPreserves, (alone-EnvPreserves, (alone-EnvPreserves, tt))) with_deal-IsStocked
