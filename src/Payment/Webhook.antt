-- ===== src/Payment/Webhook.antt =====
-- backend/src/modules/payment/application/webhook.service.ts.
pub mod Keeps
pub mod Balanced
pub mod Intake
use last_chance_platform.Prelude.{
  ℕ, String, Bool, true, false, not, ◌&&◌, Option, none, some, List, [], ◌∷◌, is_some, ◌==◌,
  if◌then◌else◌, filled,
}
use last_chance_platform.Prelude.Result.{Result, ok, err}
use last_chance_platform.Prelude.Action.{pure, throw, or_throw, throw_if, lift, ◌>>=◌, ◌>>◌}
use last_chance_platform.Errors.{DomainError, Failure, domain, plain}
use last_chance_platform.Domain.Booking.{BookingStatus, same_status, Booking}
use last_chance_platform.Domain.Payment.{
  PaymentProviderName, NormalizedEventType, WebhookStatus, LedgerAccount, LedgerDirection, Payment,
  Refund, NormalizedWebhookEvent, Payload, WebhookEventRecord, LedgerLeg,
  hold_expired_after_capture,
}
use last_chance_platform.World.Store.{Job, process_webhook, create_refund, World}
use last_chance_platform.World.Effects.{
  M, Env, exec, query, transaction, select, pause, add_job, recover,
}
use last_chance_platform.Booking.Service.{must_find, confirm, mark_refunded}
use last_chance_platform.Payment.Ledger.{post_group}
use last_chance_platform.Payment.Repository.{
  find_by_provider_ref, mark_captured, mark_payment_failed, add_refunded, settle_refund_row,
}
use last_chance_platform.Payment.Inbox.{record_event, claim_for_processing, mark_event}
use last_chance_platform.Payment.Provider.{ProviderPort, Providers, get_provider}

pub record WebhookIntakeResult : Type 0 where
  pub accepted : Bool
  pub duplicate : Bool

abbrev pub answer_intake : Env → Bool → Option WebhookEventRecord → M WebhookIntakeResult
answer_intake env false _ = pure (record { accepted = false; duplicate = false })
answer_intake env true none = pure (record { accepted = true; duplicate = true })
answer_intake env true (some r) = do
  add_job env (process_webhook r.id)
  pure (record { accepted = true; duplicate = false })

-- `intake`: `raw` and `headers` are what the signature is checked on, `payload` what the body says
unfoldable pub intake :
    Env
    → Providers
    → String
    → PaymentProviderName
    → String
    → String
    → Payload
    → M WebhookIntakeResult
intake env ps fresh name raw headers payload = do
  provider ← lift (get_provider ps name)
  let valid = provider.verify_signature raw headers
  let normalized = provider.parse_event fresh payload
  recorded ← query (
      record_event env.new_id name normalized.event_id payload valid
        (if valid then WebhookStatus.received else WebhookStatus.skipped))
  answer_intake env valid recorded

-- A leg of a payment's group.
unfoldable pub payment_leg : LedgerAccount → LedgerDirection → ℕ → Payment → LedgerLeg
payment_leg account direction amount p = record {
  account = account;
  direction = direction;
  amount_minor = amount;
  booking_id = some p.booking_id;
  payment_id = some p.id;
  payout_id = none;
  host_id = none;
}

abbrev amounts_differ : Option ℕ → ℕ → Bool
amounts_differ none expected = false
amounts_differ (some a) expected = not (a == expected)

-- `if (captured) …`
unfoldable pub account_capture : Env → Payment → Option Payment → M (Unit {0})
account_capture env p none = pure tt
account_capture env p (some _) = post_group env.new_group p.currency (
    payment_leg LedgerAccount.provider_clearing LedgerDirection.debit p.amount_minor p
    ∷ payment_leg LedgerAccount.platform_escrow LedgerDirection.credit p.amount_minor p
    ∷ [])

-- The transaction of `applyCapture`.
unfoldable pub capture_section : Env → PaymentProviderName → String → Option ℕ → M ℕ
capture_section env provider ref amount = do
  found ← select (find_by_provider_ref provider ref)
  p ← or_throw found plain
  throw_if (amounts_differ amount p.amount_minor) plain
  captured ← exec (mark_captured env.db_now p.id)
  account_capture env p captured
  pure p.booking_id

-- the `catch` of `confirmBookingIdempotent`
unfoldable pub on_lost_confirmation : Env → ℕ → Failure → M (Unit {0})
on_lost_confirmation env id (domain DomainError.hold_expired) =
    add_job env (create_refund id hold_expired_after_capture)
on_lost_confirmation env id (domain DomainError.invalid_transition) = pure tt
on_lost_confirmation env id e = throw e

unfoldable pub confirm_unless_reconciled : Env → Booking → M (Unit {0})
confirm_unless_reconciled env b =
    if not (same_status b.status BookingStatus.pending_payment)
    then pure tt
    else recover (confirm env b.id >> pure tt) (on_lost_confirmation env b.id)

-- `confirmBookingIdempotent`
unfoldable pub confirm_booking_idempotent : Env → ℕ → M (Unit {0})
confirm_booking_idempotent env id = do
  booking ← must_find id
  pause env 3
  confirm_unless_reconciled env booking

-- `applyCapture`
unfoldable pub apply_capture : Env → WebhookEventRecord → NormalizedWebhookEvent → M (Unit {0})
apply_capture env r event = do
  ref ← or_throw (filled event.provider_payment_id) plain
  booking_id ← transaction (capture_section env r.provider ref event.amount_minor)
  pause env 4
  confirm_booking_idempotent env booking_id
  query (mark_event r.id WebhookStatus.processed)

unfoldable pub fail_payment : NormalizedWebhookEvent → Option Payment → M (Unit {0})
fail_payment event none = pure tt
fail_payment event (some p) =
    exec (mark_payment_failed p.id event.failure_code event.failure_message)

-- `applyFailure`
unfoldable pub apply_failure : WebhookEventRecord → NormalizedWebhookEvent → M (Unit {0})
apply_failure r event = do
  ref ← or_throw (filled event.provider_payment_id) plain
  transaction (do found ← select (find_by_provider_ref r.provider ref); fail_payment event found)
  query (mark_event r.id WebhookStatus.processed)

-- `settleRefund`: the refund's row, then the payment's counters
unfoldable pub settle_refund : ℕ → String → M (Option ℕ)
settle_refund payment_id refund_ref = do
  settled ← exec (settle_refund_row payment_id refund_ref)
  elim settled [
    | none ↦ pure none
    | some refund ↦
        exec (add_refunded payment_id refund.amount_minor) >> pure (some refund.amount_minor)
  ]

unfoldable pub account_refund : Env → Payment → Option ℕ → M (Unit {0})
account_refund env p none = pure tt
account_refund env p (some amount) = post_group env.new_group p.currency (
    payment_leg LedgerAccount.platform_escrow LedgerDirection.debit amount p
    ∷ payment_leg LedgerAccount.guest_refund_clearing LedgerDirection.credit amount p
    ∷ [])

-- The transaction of `applyRefund`.
unfoldable pub refund_section : Env → PaymentProviderName → String → String → M ℕ
refund_section env provider ref refund_ref = do
  found ← select (find_by_provider_ref provider ref)
  p ← or_throw found plain
  settled ← settle_refund p.id refund_ref
  account_refund env p settled
  pure p.booking_id

unfoldable pub refund_if_cancelled : Env → Booking → M (Unit {0})
refund_if_cancelled env b =
    if same_status b.status BookingStatus.cancelled
    then mark_refunded env b.id >> pure tt
    else pure tt

-- `applyRefund`
unfoldable pub apply_refund : Env → WebhookEventRecord → NormalizedWebhookEvent → M (Unit {0})
apply_refund env r event = do
  ref ← or_throw (filled event.provider_payment_id) plain
  refund_ref ← or_throw (filled event.provider_refund_id) plain
  booking_id ← transaction (refund_section env r.provider ref refund_ref)
  pause env 4
  booking ← must_find booking_id
  pause env 5
  refund_if_cancelled env booking
  query (mark_event r.id WebhookStatus.processed)

-- the `switch` of `process`
unfoldable pub apply_event :
    Env → WebhookEventRecord → NormalizedEventType → NormalizedWebhookEvent → M (Unit {0})
apply_event env r NormalizedEventType.payment_captured event = apply_capture env r event
apply_event env r NormalizedEventType.payment_failed event = apply_failure r event
apply_event env r NormalizedEventType.refund_succeeded event = apply_refund env r event
apply_event env r NormalizedEventType.refund_failed event =
    query (mark_event r.id WebhookStatus.processed)
apply_event env r NormalizedEventType.ignored event = query (mark_event r.id WebhookStatus.skipped)

-- the `try` of `process`
unfoldable pub handle_event : Env → Providers → String → WebhookEventRecord → M (Unit {0})
handle_event env ps fresh r = do
  provider ← lift (get_provider ps r.provider)
  let event = provider.parse_event fresh r.payload
  apply_event env r event.type event

unfoldable pub process_claimed : Env → Providers → String → Option WebhookEventRecord → M (Unit {0})
process_claimed env ps fresh none = pure tt
process_claimed env ps fresh (some r) =
    recover (handle_event env ps fresh r)
      (λ e. query (mark_event r.id WebhookStatus.failed) >> throw e)

-- `process`
unfoldable pub process : Env → Providers → String → ℕ → M (Unit {0})
process env ps fresh id = do
  claimed ← query (claim_for_processing id)
  pause env 6
  process_claimed env ps fresh claimed
