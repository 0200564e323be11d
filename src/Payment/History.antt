-- ===== src/Payment/History.antt =====
-- Any sequence of the calls of the payment module, each in its own process: starts of payments,
-- webhook events, the creation and the execution of payouts, refunds, and what operators do by hand.
use last_chance_platform.Prelude.{ℕ, String, List, [], ◌∷◌, All}
use last_chance_platform.Domain.Payment.{PaymentProviderName, RefundReason}
use last_chance_platform.World.Store.{World}
use last_chance_platform.World.Effects.{Env}
use last_chance_platform.World.Keeps.{EnvPreserves}
use last_chance_platform.Payment.Ledger.Balance.{IsBalanced}
use last_chance_platform.Payment.Provider.{Providers}
use last_chance_platform.Payment.Webhook.{process}
use last_chance_platform.Payment.Webhook.Balanced.{process-IsBalanced}
use last_chance_platform.Payment.Payout.{
  create_payout_for_booking, execute_payout_job, create_refund_for_booking,
}
use last_chance_platform.Payment.Payout.Keeps.{
  create_payout_for_booking-Preserves, execute_payout_job-Preserves,
  create_refund_for_booking-Preserves,
}
use last_chance_platform.Payment.Initiate.{InitiateCommand, initiate}
use last_chance_platform.Payment.Initiate.Keeps.{initiate-Preserves}
use last_chance_platform.Payment.Admin.{
  EscrowAdjustment, adjust, hold, release_payout, retry_payout,
}
use last_chance_platform.Payment.Admin.Keeps.{
  adjust-Preserves, hold-Preserves, release_payout-Preserves, retry_payout-Preserves,
}

pub data PaymentJob : Type 0 where
  event_received : String → ℕ → PaymentJob
  stay_completed : ℕ → ℕ → PaymentJob
  payout_due : ℕ → PaymentJob
  refund_asked : ℕ → RefundReason → PaymentJob
  payment_started : InitiateCommand → PaymentJob
  adjusted : EscrowAdjustment → PaymentJob
  held released retried : ℕ → String → PaymentJob

-- The providers, and the key of a request that brings none.
pub record Setting : Type 0 where
  pub providers : Providers
  pub default_key : ℕ → PaymentProviderName → String

-- The world after a job, whether it returned or threw.
unfoldable pub run_job : Env → Setting → PaymentJob → World → World
run_job env s (PaymentJob.event_received fresh id) w = (process env s.providers fresh id w).1
run_job env s (PaymentJob.stay_completed delay id) w = (create_payout_for_booking env delay id w).1
run_job env s (PaymentJob.payout_due id) w = (execute_payout_job env s.providers id w).1
run_job env s (PaymentJob.refund_asked id reason) w =
    (create_refund_for_booking env s.providers id reason w).1
run_job env s (PaymentJob.payment_started cmd) w = (initiate s.default_key env s.providers cmd w).1
run_job env s (PaymentJob.adjusted a) w = (adjust env a w).1
run_job env s (PaymentJob.held id reason) w = (hold env id reason w).1
run_job env s (PaymentJob.released id reason) w = (release_payout env id reason w).1
run_job env s (PaymentJob.retried id reason) w = (retry_payout env id reason w).1

unfoldable pub run_jobs : Setting → List (Env × PaymentJob) → World → World
run_jobs s [] w = w
run_jobs s ((env, job) ∷ rest) w = run_jobs s rest (run_job env s job w)

job-IsBalanced :
    (env : Env) (s : Setting) (job : PaymentJob) (w : World)
    → EnvPreserves IsBalanced env
    → IsBalanced w.db
    → IsBalanced (run_job env s job w).db
unfolding run_job
job-IsBalanced env s (PaymentJob.event_received fresh id) w k =
    (process-IsBalanced env s.providers fresh id k).after w
job-IsBalanced env s (PaymentJob.stay_completed delay id) w k =
    (create_payout_for_booking-Preserves env k delay id).after w
job-IsBalanced env s (PaymentJob.payout_due id) w k =
    (execute_payout_job-Preserves env k s.providers id).after w
job-IsBalanced env s (PaymentJob.refund_asked id reason) w k =
    (create_refund_for_booking-Preserves env k s.providers id reason).after w
job-IsBalanced env s (PaymentJob.payment_started cmd) w k =
    (initiate-Preserves env k s.default_key s.providers cmd).after w
job-IsBalanced env s (PaymentJob.adjusted a) w k = (adjust-Preserves env a).after w
job-IsBalanced env s (PaymentJob.held id reason) w k = (hold-Preserves env k id reason).after w
job-IsBalanced env s (PaymentJob.released id reason) w k =
    (release_payout-Preserves env k id reason).after w
job-IsBalanced env s (PaymentJob.retried id reason) w k =
    (retry_payout-Preserves env k id reason).after w

-- From a balanced ledger, any sequence of the calls of the payment module (starts of payments,
-- webhook events, payouts of completed stays, executions of payouts, refunds, and the adjustments,
-- holds, releases and retries of operators), each returning or throwing, leaves every group of the
-- ledger with equal debits and credits in each currency, provided that whatever runs at their
-- awaits does.
pub run_jobs-IsBalanced :
    (s : Setting) (jobs : List (Env × PaymentJob)) (w : World)
    → All (λ j. EnvPreserves IsBalanced j.0) jobs
    → IsBalanced w.db
    → IsBalanced (run_jobs s jobs w).db
unfolding run_jobs
run_jobs-IsBalanced s [] w k h = h
run_jobs-IsBalanced s ((env, job) ∷ rest) w k h =
    run_jobs-IsBalanced s rest (run_job env s job w) k.1 (job-IsBalanced env s job w k.0 h)
