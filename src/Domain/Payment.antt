-- ===== src/Domain/Payment.antt =====
-- backend/src/modules/payment/domain/types.ts, and the shapes of
-- backend/src/modules/payment/providers/payment-provider.interface.ts.
use last_chance_platform.Domain.Booking.{ActorType}
use last_chance_platform.Prelude.{ℕ, String, Bool, true, false, Option}

pub data PaymentProviderName : Type 0 where
  stripe hyperpay moyasar tap mock : PaymentProviderName

pub data PaymentMethod : Type 0 where
  visa mastercard mada amex apple_pay stc_pay other_method : PaymentMethod

pub data PaymentStatus : Type 0 where
  initiated requires_action authorized captured failed voided : PaymentStatus
  partially_refunded refunded : PaymentStatus

pub data RefundStatus : Type 0 where
  pending succeeded failed cancelled : RefundStatus

pub data WebhookStatus : Type 0 where
  received processing processed failed skipped : WebhookStatus

pub data PayoutStatus : Type 0 where
  pending on_hold scheduled in_transit paid failed reversed : PayoutStatus

pub data LedgerAccount : Type 0 where
  provider_clearing platform_escrow platform_revenue : LedgerAccount
  host_payable tax_payable guest_refund_clearing : LedgerAccount

pub data LedgerDirection : Type 0 where
  debit credit : LedgerDirection

abbrev pub same_provider : PaymentProviderName → PaymentProviderName → Bool
same_provider PaymentProviderName.stripe PaymentProviderName.stripe = true
same_provider PaymentProviderName.hyperpay PaymentProviderName.hyperpay = true
same_provider PaymentProviderName.moyasar PaymentProviderName.moyasar = true
same_provider PaymentProviderName.tap PaymentProviderName.tap = true
same_provider PaymentProviderName.mock PaymentProviderName.mock = true
same_provider _ _ = false

abbrev pub same_account : LedgerAccount → LedgerAccount → Bool
same_account LedgerAccount.provider_clearing LedgerAccount.provider_clearing = true
same_account LedgerAccount.platform_escrow LedgerAccount.platform_escrow = true
same_account LedgerAccount.platform_revenue LedgerAccount.platform_revenue = true
same_account LedgerAccount.host_payable LedgerAccount.host_payable = true
same_account LedgerAccount.tax_payable LedgerAccount.tax_payable = true
same_account LedgerAccount.guest_refund_clearing LedgerAccount.guest_refund_clearing = true
same_account _ _ = false

pub record Payment : Type 0 where
  pub id : ℕ
  pub booking_id : ℕ
  pub provider : PaymentProviderName
  pub method : PaymentMethod
  pub status : PaymentStatus
  pub idempotency_key : String
  pub provider_payment_id : Option String
  pub amount_minor : ℕ
  pub currency : String
  pub refunded_amount_minor : ℕ
  pub captured_at : Option ℕ
  pub failure_code : Option String
  pub failure_message : Option String

-- Why a refund job was added: `cancelled_by_…`, or `hold_expired_after_capture`.
pub data RefundReason : Type 0 where
  by_cancellation : ActorType → RefundReason
  hold_expired_after_capture : RefundReason

pub record Refund : Type 0 where
  pub id : ℕ
  pub payment_id : ℕ
  pub provider_refund_id : Option String
  pub status : RefundStatus
  pub amount_minor : ℕ
  pub currency : String
  pub reason : RefundReason

pub record Payout : Type 0 where
  pub id : ℕ
  pub host_id : ℕ
  pub booking_id : ℕ
  pub status : PayoutStatus
  pub amount_minor : ℕ
  pub currency : String
  pub provider : Option PaymentProviderName
  pub provider_transfer_id : Option String
  pub paid_at : Option ℕ
  pub has_failure_message : Bool

pub data NormalizedEventType : Type 0 where
  payment_captured payment_failed refund_succeeded refund_failed ignored : NormalizedEventType

pub record NormalizedWebhookEvent : Type 0 where
  pub event_id : String
  pub type : NormalizedEventType
  pub provider_payment_id : Option String
  pub provider_refund_id : Option String
  pub amount_minor : Option ℕ
  pub failure_code : Option String
  pub failure_message : Option String

-- What a provider posts, as the fields that the adapters read of the parsed body; for a body that
-- is no JSON each is absent, as in `{ unparseable: … }`. `object_id`, `payment_intent` and
-- `amount` are those of Stripe's `data.object`.
pub record Payload : Type 0 where
  pub id : Option String
  pub kind : Option String
  pub provider_payment_id : Option String
  pub provider_refund_id : Option String
  pub amount_minor : Option ℕ
  pub failure_code : Option String
  pub failure_message : Option String
  pub object_id : Option String
  pub payment_intent : Option String
  pub amount : Option ℕ

pub record WebhookEventRecord : Type 0 where
  pub id : ℕ
  pub provider : PaymentProviderName
  pub event_id : String
  pub payload : Payload
  pub signature_valid : Bool
  pub processing_status : WebhookStatus
  pub attempts : ℕ

pub record LedgerLeg : Type 0 where
  pub account : LedgerAccount
  pub direction : LedgerDirection
  pub amount_minor : ℕ
  pub booking_id : Option ℕ
  pub payment_id : Option ℕ
  pub payout_id : Option ℕ
  pub host_id : Option ℕ

-- A row of `ledger_entries`: a leg with its group and currency.
pub record LedgerEntry : Type 0 where
  pub entry_group_id : ℕ
  pub leg : LedgerLeg
  pub currency : String
