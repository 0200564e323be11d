-- ===== src/Payment/Admin/Keeps.antt =====
-- About what an operator does by hand and the groups of the ledger.
use last_chance_platform.Prelude.{ℕ, String, Bool, arith}
use last_chance_platform.Domain.Payment.{PayoutStatus}
use last_chance_platform.World.Effects.{Env}
use last_chance_platform.World.Keeps.{StatementPreserves, Preserves, EnvPreserves}
use last_chance_platform.Payment.Ledger.Balance.{IsBalanced}
use last_chance_platform.Payment.Ledger.Keeps.{IsBalanced-ledger, ledger_rules}
use last_chance_platform.Payment.Admin.{
  EscrowAdjustment, adjust, move_payout, transition_payout, hold, requeue, release_payout,
  retry_payout,
}

move_payout-keeps :
    (id : ℕ) (from : PayoutStatus → Bool) (to : PayoutStatus)
    → StatementPreserves IsBalanced (move_payout id from to)
unfolding move_payout
move_payout-keeps id from to = record {
  after = λ d {a} {d'} e b. IsBalanced-ledger d d' (ground arith) b;
}

pub adjust-Preserves : (env : Env) (a : EscrowAdjustment) → Preserves IsBalanced (adjust env a)
unfolding adjust
adjust-Preserves env a = search ledger_rules depth 12

module _ (env : Env) (others : EnvPreserves IsBalanced env) where
  transition_payout-Preserves :
      (id : ℕ) (from : PayoutStatus → Bool) (to : PayoutStatus) (reason : String)
      → Preserves IsBalanced (transition_payout env id from to reason)
  unfolding transition_payout
  transition_payout-Preserves id from to reason = search (ledger_rules, move_payout-keeps) depth 16

  pub hold-Preserves : (id : ℕ) (reason : String) → Preserves IsBalanced (hold env id reason)
  unfolding hold
  hold-Preserves id reason = transition_payout-Preserves id _ _ reason

  requeue-Preserves :
      (id : ℕ) (from : PayoutStatus → Bool) (reason : String)
      → Preserves IsBalanced (requeue env id from reason)
  unfolding requeue
  requeue-Preserves id from reason = search (ledger_rules, transition_payout-Preserves) depth 12

  pub release_payout-Preserves :
      (id : ℕ) (reason : String) → Preserves IsBalanced (release_payout env id reason)
  unfolding release_payout
  release_payout-Preserves id reason = requeue-Preserves id _ reason

  pub retry_payout-Preserves :
      (id : ℕ) (reason : String) → Preserves IsBalanced (retry_payout env id reason)
  unfolding retry_payout
  retry_payout-Preserves id reason = requeue-Preserves id _ reason
