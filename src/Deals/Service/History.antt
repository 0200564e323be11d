-- ===== src/Deals/Service/History.antt =====
-- Any sequence of calls of the deals service, each in its own process.
use last_chance_platform.Prelude.{List, [], ◌∷◌, All}
use last_chance_platform.Domain.Deal.{CreateDealInput}
use last_chance_platform.World.Store.{World}
use last_chance_platform.World.Effects.{Env}
use last_chance_platform.World.Keeps.{EnvPreserves}
use last_chance_platform.Booking.Pricing.{PlatformSettings}
use last_chance_platform.Deals.Repository.Stock.{IsStocked}
use last_chance_platform.Deals.Service.{ClaimDealCommand, create_deal, claim_deal, run_lifecycle}
use last_chance_platform.Deals.Service.Keeps.{
  create_deal-Preserves, claim_deal-Preserves, run_lifecycle-Preserves,
}

pub data DealCall : Type 0 where
  created : CreateDealInput → DealCall
  claimed : PlatformSettings → ClaimDealCommand → DealCall
  swept : DealCall

-- The world after a call, whether it returned or threw.
unfoldable pub run_deal_call : Env → DealCall → World → World
run_deal_call env (DealCall.created input) w = (create_deal env input w).1
run_deal_call env (DealCall.claimed settings cmd) w = (claim_deal env settings cmd w).1
run_deal_call env DealCall.swept w = (run_lifecycle env w).1

unfoldable pub run_deal_calls : List (Env × DealCall) → World → World
run_deal_calls [] w = w
run_deal_calls ((env, call) ∷ rest) w = run_deal_calls rest (run_deal_call env call w)

call-IsStocked :
    (env : Env) (call : DealCall) (w : World)
    → EnvPreserves IsStocked env
    → IsStocked w.db
    → IsStocked (run_deal_call env call w).db
unfolding run_deal_call
call-IsStocked env (DealCall.created input) w k = (create_deal-Preserves env k input).after w
call-IsStocked env (DealCall.claimed settings cmd) w k =
    (claim_deal-Preserves env k settings cmd).after w
call-IsStocked env DealCall.swept w k = (run_lifecycle-Preserves env k).after w

-- When no deal is claimed beyond its quantity and something is left of every deal that is scheduled
-- or active, this holds after any sequence of calls of the deals service (creations, claims with
-- the discounted hold around them, sweeps of the lifecycle), each returning or throwing, provided
-- that whatever runs at their awaits keeps it.
pub run_deal_calls-IsStocked :
    (calls : List (Env × DealCall)) (w : World)
    → All (λ c. EnvPreserves IsStocked c.0) calls
    → IsStocked w.db
    → IsStocked (run_deal_calls calls w).db
unfolding run_deal_calls
run_deal_calls-IsStocked [] w k h = h
run_deal_calls-IsStocked ((env, call) ∷ rest) w k h =
    run_deal_calls-IsStocked rest (run_deal_call env call w) k.1 (call-IsStocked env call w k.0 h)
