-- ===== src/Payment/Webhook/Balanced.antt =====
-- About the processing of an event (`WebhookService.process` of
-- backend/src/modules/payment) and the groups of the ledger.
use last_chance_platform.Prelude.{ℕ, String, Option, none, some}
use last_chance_platform.Prelude.Action.{pure, ◌>>◌}
use last_chance_platform.Domain.Payment.{
  PaymentProviderName, NormalizedWebhookEvent, Payment, Refund,
}
use last_chance_platform.World.Effects.{Env, exec}
use last_chance_platform.World.Keeps.{Preserves, EnvPreserves, Preserves-transaction}
use last_chance_platform.Payment.Ledger.Balance.{IsBalanced}
use last_chance_platform.Payment.Ledger.Keeps.{
  IsBalanced-Writes, claim_for_processing-keeps, mark_event-keeps, ledger_rules,
}
use last_chance_platform.Payment.Repository.{add_refunded}
use last_chance_platform.Payment.Provider.{Providers}
use last_chance_platform.Payment.Webhook.{
  account_capture, capture_section, fail_payment, settle_refund, account_refund, refund_section,
  process,
}
use last_chance_platform.Payment.Webhook.Keeps.{EventWrites, process-Preserves}

module _ (env : Env) where
  account_capture-Preserves :
      (p : Payment) (o : Option Payment) → Preserves IsBalanced (account_capture env p o)
  unfolding account_capture
  account_capture-Preserves p none = search ledger_rules
  account_capture-Preserves p (some _) = search ledger_rules

  capture_section-Preserves :
      (provider : PaymentProviderName) (ref : String) (amount : Option ℕ)
      → Preserves IsBalanced (capture_section env provider ref amount)
  unfolding capture_section
  capture_section-Preserves provider ref amount =
      search (ledger_rules, account_capture-Preserves) depth 14

  fail_payment-Preserves :
      (event : NormalizedWebhookEvent) (o : Option Payment)
      → Preserves IsBalanced (fail_payment event o)
  unfolding fail_payment
  fail_payment-Preserves event none = search ledger_rules
  fail_payment-Preserves event (some p) = search ledger_rules

  settled-Preserves :
      (id : ℕ) (o : Option Refund)
      → Preserves {A = Option ℕ} IsBalanced (elim o [
        | none ↦ pure none
        | some refund ↦
            exec (add_refunded id refund.amount_minor) >> pure (some refund.amount_minor)
      ])
  settled-Preserves id none = search ledger_rules
  settled-Preserves id (some refund) = search ledger_rules

  settle_refund-Preserves : (id : ℕ) (ref : String) → Preserves IsBalanced (settle_refund id ref)
  unfolding settle_refund
  settle_refund-Preserves id ref = search (ledger_rules, settled-Preserves) depth 9

  account_refund-Preserves :
      (p : Payment) (o : Option ℕ) → Preserves IsBalanced (account_refund env p o)
  unfolding account_refund
  account_refund-Preserves p none = search ledger_rules
  account_refund-Preserves p (some _) = search ledger_rules

  refund_section-Preserves :
      (provider : PaymentProviderName) (ref refund_ref : String)
      → Preserves IsBalanced (refund_section env provider ref refund_ref)
  unfolding refund_section
  refund_section-Preserves provider ref refund_ref =
      search (ledger_rules, settle_refund-Preserves, account_refund-Preserves) depth 14

  IsBalanced-EventWrites : EventWrites env IsBalanced
  IsBalanced-EventWrites = record {
    bookings = IsBalanced-Writes;
    captures = λ provider ref amount.
        Preserves-transaction _ (capture_section-Preserves provider ref amount);
    refunds = λ provider ref refund_ref.
        Preserves-transaction _ (refund_section-Preserves provider ref refund_ref);
    failures = fail_payment-Preserves;
    claims = claim_for_processing-keeps;
    marks = mark_event-keeps;
  }

  pub process-IsBalanced :
      (ps : Providers) (fresh : String) (id : ℕ)
      → EnvPreserves IsBalanced env
      → Preserves IsBalanced (process env ps fresh id)
  process-IsBalanced ps fresh id others =
      process-Preserves env IsBalanced-EventWrites others ps fresh id
