-- ===== src/Payment/Provider.antt =====
-- backend/src/modules/payment/providers: the port, the registry, and the adapters' `parseEvent`
-- (mock.provider.ts, stripe.provider.ts). The calls that a provider answers over the network, and
-- the check of a signature, are functions of the port.
use Prim.Native.String
use last_chance_platform.Prelude.{
  ℕ, String, Bool, true, false, not, Option, none, some, or_else, if◌then◌else◌, same_text, is_text,
}
use last_chance_platform.Prelude.Result.{Result, ok, err}
use last_chance_platform.Errors.{DomainError, Failure, domain}
use last_chance_platform.Domain.Payment.{
  PaymentProviderName, NormalizedEventType, NormalizedWebhookEvent, Payload,
}

-- `PaymentProviderPort`; `parse_event` is given the text that a fresh event id would be.
pub record ProviderPort : Type 0 where
  pub name : PaymentProviderName
  -- the raw body and the headers
  pub verify_signature : String → String → Bool
  pub parse_event : String → Payload → NormalizedWebhookEvent
  -- our payment's id, the amount and the idempotency key
  pub create_intent : ℕ → ℕ → String → Result Failure String
  -- the provider's payment, the amount, and our refund's id, of which the idempotency key is made
  pub create_refund : String → ℕ → ℕ → Result Failure String
  -- our payout's id and the amount
  pub create_transfer : ℕ → ℕ → Result Failure String

-- `MockPaymentProvider.parseEvent`
unfoldable pub mock_event_type : Option String → NormalizedEventType
mock_event_type kind =
    if is_text kind "payment.captured"
    then NormalizedEventType.payment_captured
    else if is_text kind "payment.failed"
    then NormalizedEventType.payment_failed
    else if is_text kind "refund.succeeded"
    then NormalizedEventType.refund_succeeded
    else if is_text kind "refund.failed"
    then NormalizedEventType.refund_failed
    else NormalizedEventType.ignored

unfoldable pub mock_parse_event : String → Payload → NormalizedWebhookEvent
mock_parse_event fresh p = record {
  event_id = or_else p.id fresh;
  type = mock_event_type p.kind;
  provider_payment_id = p.provider_payment_id;
  provider_refund_id = p.provider_refund_id;
  amount_minor = p.amount_minor;
  failure_code = p.failure_code;
  failure_message = p.failure_message;
}

-- `startsWith` of a prefix of three bytes
abbrev starts_with : String → String → Bool
starts_with s prefix = same_text (Prim.Native.String.slice s 0 3) prefix

abbrev keep_if_starts_with : String → Option String → Option String
keep_if_starts_with prefix none = none
keep_if_starts_with prefix (some s) = if starts_with s prefix then some s else none

-- `StripePaymentProvider.parseEvent`
unfoldable pub stripe_event_type : Option String → NormalizedEventType
stripe_event_type kind =
    if is_text kind "payment_intent.succeeded"
    then NormalizedEventType.payment_captured
    else if is_text kind "payment_intent.payment_failed"
    then NormalizedEventType.payment_failed
    else if is_text kind "refund.created"
    then NormalizedEventType.ignored
    else if is_text kind "refund.updated"
    then NormalizedEventType.refund_succeeded
    else if is_text kind "charge.refunded"
    then NormalizedEventType.refund_succeeded
    else NormalizedEventType.ignored

abbrev is_refund_success : NormalizedEventType → Bool
is_refund_success NormalizedEventType.refund_succeeded = true
is_refund_success _ = false

abbrev is_payment_failure : NormalizedEventType → Bool
is_payment_failure NormalizedEventType.payment_failed = true
is_payment_failure _ = false

unfoldable pub stripe_parse_event : String → Payload → NormalizedWebhookEvent
stripe_parse_event fresh p =
    let type = stripe_event_type p.kind in
    record {
      event_id = or_else p.id "unknown";
      type = type;
      provider_payment_id = elim p.payment_intent [
        | some ref ↦ some ref
        | none ↦ keep_if_starts_with "pi_" p.object_id
      ];
      provider_refund_id =
          if is_refund_success type then keep_if_starts_with "re_" p.object_id else none;
      amount_minor = p.amount;
      failure_code = if is_payment_failure type then p.failure_code else none;
      failure_message = none;
    }

-- `PaymentProviderRegistry`: what its constructor reads of the configuration
pub record Providers : Type 0 where
  pub is_production : Bool
  pub stripe_enabled : Bool
  pub mock : ProviderPort
  pub stripe : ProviderPort

-- `get`
unfoldable pub get_provider : Providers → PaymentProviderName → Result Failure ProviderPort
get_provider ps PaymentProviderName.mock =
    if not ps.is_production then ok ps.mock else err (domain DomainError.validation_failed)
get_provider ps PaymentProviderName.stripe =
    if ps.stripe_enabled then ok ps.stripe else err (domain DomainError.validation_failed)
get_provider ps _ = err (domain DomainError.validation_failed)
