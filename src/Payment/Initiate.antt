-- ===== src/Payment/Initiate.antt =====
-- backend/src/modules/payment/application/payment.service.ts. The key that a request without one
-- gets (`init-…` with the booking and the provider) is an argument; of what the client does at the
-- provider, only whether it gets something to do is kept.
pub mod Replay
pub mod Keeps
use last_chance_platform.Prelude.{
  ℕ, String, Bool, true, false, not, ◌&&◌, ◌||◌, Option, none, some, or_else, leb, is_some,
  if◌then◌else◌, filled,
}
use last_chance_platform.Prelude.Action.{pure, or_throw, throw_if, lift, ◌>>=◌, ◌>>◌}
use last_chance_platform.Errors.{DomainError, domain, plain}
use last_chance_platform.Domain.Booking.{BookingStatus, same_status, Booking}
use last_chance_platform.Domain.Payment.{PaymentProviderName, PaymentMethod, Payment}
use last_chance_platform.World.Effects.{M, Env, select, query, pause}
use last_chance_platform.Booking.Service.{must_find}
use last_chance_platform.Payment.Provider.{ProviderPort, Providers, get_provider}
use last_chance_platform.Payment.Repository.{
  is_initiated, insert_payment, find_by_key, attach_provider_intent, find_payment,
}

pub record InitiateCommand : Type 0 where
  pub booking_id : ℕ
  pub provider : PaymentProviderName
  pub method : PaymentMethod
  pub idempotency_key : Option String

-- `holdExpiresAt === null || holdExpiresAt.getTime() <= Date.now()`
abbrev pub hold_is_over : ℕ → Option ℕ → Bool
hold_is_over now none = true
hold_is_over now (some t) = leb t now

-- The row that `createIdempotent` inserted, or the one that has the key.
unfoldable pub existing_or : Env → String → Option Payment → M (Payment × Bool)
existing_or env key (some created) = pure (created, true)
existing_or env key none = do
  pause env 41
  found ← select (find_by_key key)
  payment ← or_throw found plain
  pure (payment, false)

unfoldable pub create_idempotent : Env → InitiateCommand → Booking → String → M (Payment × Bool)
create_idempotent env cmd b key = do
  inserted ←
      query
        (insert_payment env.new_id b.id cmd.provider cmd.method key b.total_amount_minor b.currency)
  existing_or env key inserted

unfoldable pub attach_intent : Env → ProviderPort → Payment → String → M (Payment × Bool)
attach_intent env provider payment key = do
  ref ← lift (provider.create_intent payment.id payment.amount_minor key)
  pause env 43
  attached ← query (attach_provider_intent payment.id ref)
  pure (or_else attached payment, true)

-- `created || (payment.status === 'INITIATED' && !payment.providerPaymentId)`
abbrev pub needs_intent : Payment → Bool → Bool
needs_intent payment created =
    created || (is_initiated payment.status && not (is_some (filled payment.provider_payment_id)))

unfoldable pub continue_payment : Env → ProviderPort → String → Payment × Bool → M (Payment × Bool)
continue_payment env provider key (payment, created) =
    if needs_intent payment created
    then attach_intent env provider payment key
    else pure (payment, false)

module _ (default_key : ℕ → PaymentProviderName → String) (env : Env) (ps : Providers) where
  abbrev pub key_of : InitiateCommand → String
  key_of cmd = or_else cmd.idempotency_key (default_key cmd.booking_id cmd.provider)

  -- `initiate`
  unfoldable pub initiate : InitiateCommand → M (Payment × Bool)
  initiate cmd = do
    booking ← must_find cmd.booking_id
    throw_if (not (same_status booking.status BookingStatus.pending_payment))
        (domain DomainError.validation_failed)
    throw_if (hold_is_over (env.now 0) booking.hold_expires_at) (domain DomainError.hold_expired)
    provider ← lift (get_provider ps cmd.provider)
    pause env 40
    payment ← create_idempotent env cmd booking (key_of cmd)
    pause env 42
    continue_payment env provider (key_of cmd) payment

-- `getById`
unfoldable pub payment_by_id : ℕ → M Payment
payment_by_id id = do
  found ← select (find_payment id)
  or_throw found (domain DomainError.validation_failed)
