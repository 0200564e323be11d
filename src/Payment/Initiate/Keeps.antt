-- ===== src/Payment/Initiate/Keeps.antt =====
-- About the start of a payment and the groups of the ledger.
use last_chance_platform.Prelude.{ℕ, String, Bool, Option, none, some, arith}
use last_chance_platform.Domain.Booking.{Booking}
use last_chance_platform.Domain.Payment.{PaymentProviderName, PaymentMethod, Payment}
use last_chance_platform.World.Effects.{Env}
use last_chance_platform.World.Keeps.{StatementPreserves, Preserves, EnvPreserves}
use last_chance_platform.Booking.Service.Keeps.{must_find-Preserves}
use last_chance_platform.Payment.Ledger.Balance.{IsBalanced}
use last_chance_platform.Payment.Ledger.Keeps.{IsBalanced-ledger, ledger_rules}
use last_chance_platform.Payment.Provider.{ProviderPort, Providers}
use last_chance_platform.Payment.Repository.{updated, insert_payment, attach_provider_intent}
use last_chance_platform.Payment.Initiate.{
  InitiateCommand, existing_or, create_idempotent, attach_intent, continue_payment, initiate,
}

insert_payment-keeps :
    (id b : ℕ) (p : PaymentProviderName) (m : PaymentMethod) (key : String) (n : ℕ) (c : String)
    → StatementPreserves IsBalanced (insert_payment id b p m key n c)
unfolding insert_payment
insert_payment-keeps id b p m key n c = record {
  after = λ d {a} {d'} e k. IsBalanced-ledger d d' (ground arith) k;
}

attach_provider_intent-keeps :
    (id : ℕ) (ref : String) → StatementPreserves IsBalanced (attach_provider_intent id ref)
unfolding attach_provider_intent updated
attach_provider_intent-keeps id ref = record {
  after = λ d {a} {d'} e k. IsBalanced-ledger d d' (ground arith) k;
}

module _ (env : Env) (others : EnvPreserves IsBalanced env) where
  existing_or-Preserves :
      (key : String) (o : Option Payment) → Preserves IsBalanced (existing_or env key o)
  unfolding existing_or
  existing_or-Preserves key none = search ledger_rules depth 12
  existing_or-Preserves key (some p) = search ledger_rules

  create_idempotent-Preserves :
      (cmd : InitiateCommand) (b : Booking) (key : String)
      → Preserves IsBalanced (create_idempotent env cmd b key)
  unfolding create_idempotent
  create_idempotent-Preserves cmd b key =
      search (ledger_rules, insert_payment-keeps, existing_or-Preserves) depth 9

  attach_intent-Preserves :
      (port : ProviderPort) (p : Payment) (key : String)
      → Preserves IsBalanced (attach_intent env port p key)
  unfolding attach_intent
  attach_intent-Preserves port p key = search (ledger_rules, attach_provider_intent-keeps) depth 14

  continue_payment-Preserves :
      (port : ProviderPort) (key : String) (x : Payment × Bool)
      → Preserves IsBalanced (continue_payment env port key x)
  unfolding continue_payment
  continue_payment-Preserves port key (p, created) =
      search (ledger_rules, attach_intent-Preserves) depth 9

  pub initiate-Preserves :
      (default_key : ℕ → PaymentProviderName → String) (ps : Providers) (cmd : InitiateCommand)
      → Preserves IsBalanced (initiate default_key env ps cmd)
  unfolding initiate
  initiate-Preserves default_key ps cmd =
      search
        (ledger_rules, must_find-Preserves, create_idempotent-Preserves, continue_payment-Preserves)
        depth 20
