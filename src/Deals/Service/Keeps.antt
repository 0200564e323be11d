-- ===== src/Deals/Service/Keeps.antt =====
-- About the operations of the deals service (backend/src/modules/deals) and the stock of each deal.
use mathlib.Core.Option.{some-injective}
use mathlib.Core.Path.{subst}
use last_chance_platform.Prelude.{ℕ, Option, none, some, List, [], ◌∷◌}
use last_chance_platform.Domain.Deal.{FlashDeal, CreateDealInput}
use last_chance_platform.World.Store.{PlatformEvent}
use last_chance_platform.World.Effects.{Env}
use last_chance_platform.World.Keeps.{
  Preserves, EnvPreserves, Preserves-bind, Preserves-select, Preserves-pause, preserves_rules,
}
use last_chance_platform.Booking.Pricing.{PlatformSettings}
use last_chance_platform.Booking.Service.{FlashDealContext, place_hold}
use last_chance_platform.Booking.Service.Keeps.{run_claim-Preserves, place_hold-Preserves}
use last_chance_platform.Deals.Repository.Stock.{
  IsStocked, IsStocked-Writes, try_claim-preserves, insert_deal-preserves, activate_due-preserves,
  end_expired-preserves,
}
use last_chance_platform.Deals.Repository.{find_deal}
use last_chance_platform.Deals.Service.{
  ClaimDealCommand, announce_new, create_deal, check_claimable, claim_one, hold_command, claim_deal,
  announce_found, announce, run_lifecycle,
}

ruleset deal_rules = (
  preserves_rules, try_claim-preserves, insert_deal-preserves, activate_due-preserves,
  end_expired-preserves,
)

announce_new-Preserves : (d : FlashDeal) → Preserves IsStocked (announce_new d)
unfolding announce_new
announce_new-Preserves d = search deal_rules depth 9

check_claimable-Preserves :
    (now : ℕ) (d : FlashDeal) (cmd : ClaimDealCommand)
    → Preserves IsStocked (check_claimable now d cmd)
unfolding check_claimable
check_claimable-Preserves now d cmd = search deal_rules depth 12

claim_one-Preserves : (id : ℕ) → Preserves IsStocked (claim_one id)
unfolding claim_one
claim_one-Preserves id = search deal_rules depth 9

announce_found-Preserves :
    (event : ℕ → ℕ → PlatformEvent) (id : ℕ) (o : Option FlashDeal)
    → Preserves IsStocked (announce_found event id o)
unfolding announce_found
announce_found-Preserves event id none = search deal_rules
announce_found-Preserves event id (some d) = search deal_rules

module _ (env : Env) (others : EnvPreserves IsStocked env) where
  pub create_deal-Preserves :
      (input : CreateDealInput) → Preserves IsStocked (create_deal env input)
  unfolding create_deal
  create_deal-Preserves input = search (deal_rules, announce_new-Preserves) depth 16

  held_claim-Preserves :
      (settings : PlatformSettings) (d : FlashDeal) (cmd : ClaimDealCommand)
      → Preserves IsStocked (place_hold env settings (hold_command d cmd))
  unfolding hold_command
  held_claim-Preserves settings d cmd =
      place_hold-Preserves IsStocked-Writes env others settings (hold_command d cmd) (
        run_claim-Preserves IsStocked-Writes env others (hold_command d cmd).flash_deal (λ ctx e.
          subst (λ (c : FlashDealContext). Preserves IsStocked c.claim) (some-injective _ ctx e)
            (claim_one-Preserves d.id)))

  pub claim_deal-Preserves :
      (settings : PlatformSettings) (cmd : ClaimDealCommand)
      → Preserves IsStocked (claim_deal env settings cmd)
  unfolding claim_deal
  claim_deal-Preserves settings cmd =
      search (deal_rules, check_claimable-Preserves, held_claim-Preserves) depth 16

  announce-Preserves :
      (event : ℕ → ℕ → PlatformEvent) (ids : List ℕ) → Preserves IsStocked (announce env event ids)
  unfolding announce
  announce-Preserves event [] = search deal_rules
  announce-Preserves event (id ∷ ids) =
      Preserves-bind _ _ (Preserves-select (find_deal id)) (λ found.
        Preserves-bind _ _ (Preserves-pause env 23 others) (λ _.
          Preserves-bind _ _ (announce_found-Preserves event id found)
            (λ _. announce-Preserves event ids)))

  pub run_lifecycle-Preserves : Preserves IsStocked (run_lifecycle env)
  unfolding run_lifecycle
  run_lifecycle-Preserves = search (deal_rules, announce-Preserves) depth 16
