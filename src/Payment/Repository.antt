-- ===== src/Payment/Repository.antt =====
-- The statements of backend/src/modules/payment/infrastructure/payment.repository.ts,
-- with the unique keys and checks of
-- db/migrations/0007_payments.sql that they meet. The newest row stands first.
use last_chance_platform.Prelude.{
  ℕ, ◌+◌, String, Bool, true, false, not, ◌&&◌, Option, none, some, List, ◌∷◌, any, find?, leb, ltb,
  ◌==◌, if◌then◌else◌, same_text, is_text,
}
use last_chance_platform.Prelude.Sql.{update_where}
use last_chance_platform.Prelude.Result.{ok, fail_if, ◌>>◌}
use last_chance_platform.Errors.{SqlState}
use last_chance_platform.Domain.Payment.{
  PaymentProviderName, PaymentMethod, PaymentStatus, RefundStatus, same_provider, Payment,
  RefundReason, Refund,
}
use last_chance_platform.World.Store.{Db}
use last_chance_platform.World.Effects.{Statement}

-- `RETURNING` of an UPDATE that meets one row at most
unfoldable pub updated : {R : Type 0} → (R → Bool) → (R → R) → List R → Option R
updated p set rows = elim (find? p rows) [ none ↦ none | some r ↦ some (set r) ]

-- ('INITIATED', 'REQUIRES_ACTION', 'AUTHORIZED')
abbrev pub is_open : PaymentStatus → Bool
is_open PaymentStatus.initiated = true
is_open PaymentStatus.requires_action = true
is_open PaymentStatus.authorized = true
is_open _ = false

-- ('CAPTURED', 'PARTIALLY_REFUNDED')
abbrev pub is_refundable : PaymentStatus → Bool
is_refundable PaymentStatus.captured = true
is_refundable PaymentStatus.partially_refunded = true
is_refundable _ = false

abbrev pub is_initiated : PaymentStatus → Bool
is_initiated PaymentStatus.initiated = true
is_initiated _ = false

-- The INSERT of `createIdempotent`: no row when the key is taken.
unfoldable pub insert_payment :
    ℕ → ℕ → PaymentProviderName → PaymentMethod → String → ℕ → String → Statement (Option Payment)
insert_payment id booking_id provider method key amount currency db =
    if any (λ (p : Payment). same_text p.idempotency_key key) db.payments
    then ok (none, db)
    else (do
      fail_if (any (λ (p : Payment). id == p.id) db.payments) SqlState.unique_violation
      fail_if (leb amount 0) SqlState.check_violation
      let new : Payment = record {
        id = id;
        booking_id = booking_id;
        provider = provider;
        method = method;
        status = PaymentStatus.initiated;
        idempotency_key = key;
        provider_payment_id = none;
        amount_minor = amount;
        currency = currency;
        refunded_amount_minor = 0;
        captured_at = none;
        failure_code = none;
        failure_message = none;
      }
      ok (some new, record db { payments = new ∷ db.payments }))

-- The SELECT of `createIdempotent`.
unfoldable pub find_by_key : String → Db → Option Payment
find_by_key key db = find? (λ (p : Payment). same_text p.idempotency_key key) db.payments

-- `attachProviderIntent`; (provider, provider_payment_id) is unique
unfoldable pub attach_provider_intent : ℕ → String → Statement (Option Payment)
attach_provider_intent id ref db =
    let p = λ (r : Payment). (id == r.id) && is_initiated r.status in
    let set = λ (r : Payment). record r {
      provider_payment_id = some ref;
      status = PaymentStatus.requires_action;
    } in
    elim (updated p set db.payments) [
      | none ↦ ok (none, db)
      | some new ↦
          fail_if
            (any
              (λ (r : Payment).
                not (r.id == new.id)
                && (same_provider r.provider new.provider && is_text r.provider_payment_id ref))
              db.payments)
            SqlState.unique_violation
          >> ok (some new, record db { payments = update_where p set db.payments })
    ]

-- `findById`
unfoldable pub find_payment : ℕ → Db → Option Payment
find_payment id db = find? (λ (p : Payment). id == p.id) db.payments

-- `findByProviderRef`
unfoldable pub find_by_provider_ref : PaymentProviderName → String → Db → Option Payment
find_by_provider_ref provider ref db =
    find? (λ (p : Payment). same_provider p.provider provider && is_text p.provider_payment_id ref)
      db.payments

-- `findCapturedForBooking`
unfoldable pub find_captured_for_booking : ℕ → Db → Option Payment
find_captured_for_booking booking_id db =
    find? (λ (p : Payment). (booking_id == p.booking_id) && is_refundable p.status) db.payments

-- `markCaptured`
unfoldable pub mark_captured : ℕ → ℕ → Statement (Option Payment)
mark_captured now id db =
    let p = λ (r : Payment). (id == r.id) && is_open r.status in
    let set =
      λ (r : Payment). record r { status = PaymentStatus.captured; captured_at = some now } in
    ok (updated p set db.payments, record db { payments = update_where p set db.payments })

-- `markFailed`
unfoldable pub mark_payment_failed : ℕ → Option String → Option String → Statement (Unit {0})
mark_payment_failed id code message db =
    let p = λ (r : Payment). (id == r.id) && is_open r.status in
    let set = λ (r : Payment). record r {
      status = PaymentStatus.failed;
      failure_code = code;
      failure_message = message;
    } in
    ok (tt, record db { payments = update_where p set db.payments })

abbrev pub is_pending : RefundStatus → Bool
is_pending RefundStatus.pending = true
is_pending _ = false

abbrev pub is_pending_or_done : RefundStatus → Bool
is_pending_or_done RefundStatus.pending = true
is_pending_or_done RefundStatus.succeeded = true
is_pending_or_done _ = false

-- `createRefund`
unfoldable pub insert_refund : ℕ → ℕ → ℕ → String → RefundReason → Statement Refund
insert_refund id payment_id amount currency reason db = do
  fail_if (any (λ (r : Refund). id == r.id) db.refunds) SqlState.unique_violation
  fail_if (leb amount 0) SqlState.check_violation
  let new : Refund = record {
    id = id;
    payment_id = payment_id;
    provider_refund_id = none;
    status = RefundStatus.pending;
    amount_minor = amount;
    currency = currency;
    reason = reason;
  }
  ok (new, record db { refunds = new ∷ db.refunds })

-- `attachProviderRefund`; (payment_id, provider_refund_id) is unique
unfoldable pub attach_provider_refund : ℕ → String → Statement (Unit {0})
attach_provider_refund id ref db =
    let p = λ (r : Refund). id == r.id in
    let set = λ (r : Refund). record r { provider_refund_id = some ref } in
    elim (updated p set db.refunds) [
      | none ↦ ok (tt, db)
      | some new ↦
          fail_if
            (any
              (λ (r : Refund).
                not (r.id == new.id)
                && ((r.payment_id == new.payment_id) && is_text r.provider_refund_id ref))
              db.refunds)
            SqlState.unique_violation
          >> ok (tt, record db { refunds = update_where p set db.refunds })
    ]

-- `hasPendingOrDoneRefund`
unfoldable pub has_pending_or_done_refund : ℕ → Db → Bool
has_pending_or_done_refund payment_id db =
    any (λ (r : Refund). (payment_id == r.payment_id) && is_pending_or_done r.status) db.refunds

-- The second UPDATE of `settleRefund`, under `payments_refund_within_amount`.
abbrev pub refunded_by : ℕ → Payment → Payment
refunded_by amount r = record r {
  refunded_amount_minor = r.refunded_amount_minor + amount;
  status =
      if leb r.amount_minor (r.refunded_amount_minor + amount)
      then PaymentStatus.refunded
      else PaymentStatus.partially_refunded;
}

unfoldable pub add_refunded : ℕ → ℕ → Statement (Unit {0})
add_refunded id amount db = do
  fail_if
      (any (λ (r : Payment). (id == r.id) && ltb r.amount_minor (r.refunded_amount_minor + amount))
        db.payments)
      SqlState.check_violation
  ok (tt, record db { payments = update_where (λ r. id == r.id) (refunded_by amount) db.payments })

-- The first UPDATE of `settleRefund`.
unfoldable pub settle_refund_row : ℕ → String → Statement (Option Refund)
settle_refund_row payment_id ref db =
    let p = λ (r : Refund).
      (payment_id == r.payment_id) && (is_text r.provider_refund_id ref && is_pending r.status) in
    let set = λ (r : Refund). record r { status = RefundStatus.succeeded } in
    ok (updated p set db.refunds, record db { refunds = update_where p set db.refunds })
