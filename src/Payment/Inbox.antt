-- ===== src/Payment/Inbox.antt =====
-- The statements of backend/src/modules/payment/infrastructure/webhook.repository.ts and
-- payout.repository.ts.
use last_chance_platform.Prelude.{
  ℕ, suc, String, Bool, true, false, leb, ◌&&◌, ◌||◌, Option, none, some, ◌∷◌, any, find?, ◌==◌,
  if◌then◌else◌, same_text,
}
use last_chance_platform.Prelude.Sql.{update_where}
use last_chance_platform.Prelude.Result.{ok, fail_if, ◌>>◌}
use last_chance_platform.Errors.{SqlState}
use last_chance_platform.Domain.Payment.{
  PaymentProviderName, WebhookStatus, PayoutStatus, same_provider, Payout, Payload,
  WebhookEventRecord,
}
use last_chance_platform.World.Store.{Db}
use last_chance_platform.World.Effects.{Statement}
use last_chance_platform.Payment.Repository.{updated}

-- The unique key (provider, event_id).
abbrev pub same_event : PaymentProviderName → String → WebhookEventRecord → Bool
same_event provider event_id r = same_provider r.provider provider && same_text r.event_id event_id

-- `record`
unfoldable pub record_event :
    ℕ
    → PaymentProviderName
    → String
    → Payload
    → Bool
    → WebhookStatus
    → Statement (Option WebhookEventRecord)
record_event id provider event_id payload signature_valid initial_status db =
    if any (same_event provider event_id) db.webhook_events then ok (none, db) else (do
      fail_if (any (λ (r : WebhookEventRecord). id == r.id) db.webhook_events)
          SqlState.unique_violation
      let new : WebhookEventRecord = record {
        id = id;
        provider = provider;
        event_id = event_id;
        payload = payload;
        signature_valid = signature_valid;
        processing_status = initial_status;
        attempts = 0;
      }
      ok (some new, record db { webhook_events = new ∷ db.webhook_events }))

-- ('RECEIVED', 'FAILED')
abbrev pub is_claimable : WebhookStatus → Bool
is_claimable WebhookStatus.received = true
is_claimable WebhookStatus.failed = true
is_claimable _ = false

-- `claimForProcessing`
unfoldable pub claim_for_processing : ℕ → Statement (Option WebhookEventRecord)
claim_for_processing id db =
    let p = λ (r : WebhookEventRecord). (id == r.id) && is_claimable r.processing_status in
    let set = λ (r : WebhookEventRecord). record r {
      processing_status = WebhookStatus.processing;
      attempts = suc r.attempts;
    } in
    ok (
      updated p set db.webhook_events,
      record db { webhook_events = update_where p set db.webhook_events },
    )

-- `markProcessed`, `markFailed` and `markSkipped`
unfoldable pub mark_event : ℕ → WebhookStatus → Statement (Unit {0})
mark_event id status db = ok (
  tt,
  record db {
    webhook_events =
        update_where (λ (r : WebhookEventRecord). id == r.id)
          (λ (r : WebhookEventRecord). record r { processing_status = status }) db.webhook_events;
  },
)

-- `createIfAbsent`: one payout of a booking
unfoldable pub insert_payout :
    ℕ → ℕ → ℕ → ℕ → String → PaymentProviderName → Statement (Option Payout)
insert_payout id host_id booking_id amount currency provider db =
    if any (λ (r : Payout). booking_id == r.booking_id) db.payouts then ok (none, db) else (do
      fail_if (any (λ (r : Payout). id == r.id) db.payouts) SqlState.unique_violation
      fail_if (leb amount 0) SqlState.check_violation
      let new : Payout = record {
        id = id;
        host_id = host_id;
        booking_id = booking_id;
        status = PayoutStatus.pending;
        amount_minor = amount;
        currency = currency;
        provider = some provider;
        provider_transfer_id = none;
        paid_at = none;
        has_failure_message = false;
      }
      ok (some new, record db { payouts = new ∷ db.payouts }))

-- `findById` and `findByBooking`
unfoldable pub find_payout : ℕ → Db → Option Payout
find_payout id db = find? (λ (r : Payout). id == r.id) db.payouts

unfoldable pub find_payout_by_booking : ℕ → Db → Option Payout
find_payout_by_booking booking_id db = find? (λ (r : Payout). booking_id == r.booking_id) db.payouts

abbrev pub payout_is_pending : PayoutStatus → Bool
payout_is_pending PayoutStatus.pending = true
payout_is_pending _ = false

abbrev pub is_in_transit : PayoutStatus → Bool
is_in_transit PayoutStatus.in_transit = true
is_in_transit _ = false

-- `markInTransit`
unfoldable pub mark_in_transit : ℕ → PaymentProviderName → String → Statement (Option Payout)
mark_in_transit id provider transfer db =
    let p = λ (r : Payout). (id == r.id) && payout_is_pending r.status in
    let set = λ (r : Payout). record r {
      status = PayoutStatus.in_transit;
      provider = some provider;
      provider_transfer_id = some transfer;
    } in
    ok (updated p set db.payouts, record db { payouts = update_where p set db.payouts })

-- `markPaid`
unfoldable pub mark_paid : ℕ → ℕ → Statement (Option Payout)
mark_paid now id db =
    let p = λ (r : Payout). (id == r.id) && is_in_transit r.status in
    let set = λ (r : Payout). record r { status = PayoutStatus.paid; paid_at = some now } in
    ok (updated p set db.payouts, record db { payouts = update_where p set db.payouts })

-- `markFailed`
unfoldable pub mark_payout_failed : ℕ → Statement (Unit {0})
mark_payout_failed id db =
    let p =
      λ (r : Payout). (id == r.id) && (payout_is_pending r.status || is_in_transit r.status) in
    let set =
      λ (r : Payout). record r { status = PayoutStatus.failed; has_failure_message = true } in
    ok (tt, record db { payouts = update_where p set db.payouts })
