-- ===== src/Payment/Escrow/Events.antt =====
-- About the processing of an event, the rows of `payments` and the escrow account
-- (backend/src/modules/payment, the webhook service).
use last_chance_platform.Prelude.{
  ℕ, ◌≡◌, refl, String, Bool, ◌&&◌, Option, none, some, List, find?, ◌==◌, arith, Option-cases, inl,
  inr,
}
use last_chance_platform.Prelude.Sql.{update_where}
use last_chance_platform.Domain.Booking.{Booking}
use last_chance_platform.Domain.Payment.{
  PaymentStatus, WebhookStatus, NormalizedWebhookEvent, LedgerEntry, Payment,
}
use last_chance_platform.World.Store.{Db}
use last_chance_platform.World.Effects.{Env}
use last_chance_platform.World.Keeps.{
  Preserves, EnvPreserves, StatementPreserves, Preserves-pure, Preserves-exec,
}
use last_chance_platform.Booking.Table.{insert_row, write_row, write_found, update_row}
use last_chance_platform.Booking.Repository.Preserves.{Writes}
use last_chance_platform.Payment.Repository.{is_open, mark_payment_failed}
use last_chance_platform.Payment.Inbox.{claim_for_processing, mark_event}
use last_chance_platform.Payment.Provider.{Providers}
use last_chance_platform.Payment.Webhook.{fail_payment, process}
use last_chance_platform.Payment.Webhook.Keeps.{EventWrites, process-Preserves}
use last_chance_platform.Payment.Escrow.{AllAgree, IsReconciled}
use last_chance_platform.Payment.Escrow.Rows.{AllAgree-update, Agrees-found, update_where-none}
use last_chance_platform.Payment.Escrow.Capture.{capture-IsReconciled}
use last_chance_platform.Payment.Escrow.Refund.{refund-IsReconciled}

-- A change of the other tables.
IsReconciled-same :
    (d d' : Db) → d'.payments ≡ d.payments → d'.ledger ≡ d.ledger → IsReconciled d → IsReconciled d'
IsReconciled-same d d' p l v = record { rows = rw (p, l) v.rows }

insert_row-IsReconciled : (new : Booking) → StatementPreserves IsReconciled (insert_row new)
unfolding insert_row
insert_row-IsReconciled new = record {
  after = λ d {a} {d'} e v. IsReconciled-same d d' (ground arith) (ground arith) v;
}

update_row-IsReconciled :
    (id : ℕ) (where_also : Booking → Bool) (set : Booking → Booking)
    → StatementPreserves IsReconciled (update_row id where_also set)
unfolding update_row write_found write_row
update_row-IsReconciled id where_also set = record {
  after = λ d {a} {d'} e v. IsReconciled-same d d' (ground arith) (ground arith) v;
}

claim-IsReconciled : (id : ℕ) → StatementPreserves IsReconciled (claim_for_processing id)
unfolding claim_for_processing
claim-IsReconciled id = record {
  after = λ d {a} {d'} e v. IsReconciled-same d d' (ground arith) (ground arith) v;
}

mark-IsReconciled : (id : ℕ) (s : WebhookStatus) → StatementPreserves IsReconciled (mark_event id s)
unfolding mark_event
mark-IsReconciled id s = record {
  after = λ d {a} {d'} e v. IsReconciled-same d d' (ground arith) (ground arith) v;
}

abbrev failed_with : Option String → Option String → Payment → Payment
failed_with code message r = record r {
  status = PaymentStatus.failed;
  failure_code = code;
  failure_message = message;
}

AllAgree-failed :
    (id : ℕ) (code message : Option String) (ledger : List LedgerEntry) (rows : List Payment)
    → AllAgree ledger rows
    → AllAgree ledger (
        update_where
          (λ (r : Payment). (id == r.id) && is_open r.status)
          (failed_with code message)
          rows)
AllAgree-failed id code message ledger rows v =
    let q = λ (r : Payment). (id == r.id) && is_open r.status in
    elim (Option-cases (find? q rows)) [
      | inl n ↦ rw (update_where-none q (failed_with code message) rows n) v
      | inr (p, h) ↦
          let (i, b, o, w) = Agrees-found ledger q rows p v h in
          AllAgree-update ledger ledger id (λ k ne. refl) (λ k ne. refl) (λ r. is_open r.status)
            (failed_with code message) rows p (λ r. refl) h (i, b, refl, w) v
    ]

mark_payment_failed-IsReconciled :
    (id : ℕ) (code message : Option String)
    → StatementPreserves IsReconciled (mark_payment_failed id code message)
unfolding mark_payment_failed
mark_payment_failed-IsReconciled id code message = record {
  after = λ d e v. ground (arith, v.rows, AllAgree-failed id code message d.ledger d.payments);
}

fail_payment-IsReconciled :
    (event : NormalizedWebhookEvent) (o : Option Payment)
    → Preserves IsReconciled (fail_payment event o)
unfolding fail_payment
fail_payment-IsReconciled event none = Preserves-pure tt
fail_payment-IsReconciled event (some p) =
    Preserves-exec _
      (mark_payment_failed-IsReconciled p.id event.failure_code event.failure_message)

IsReconciled-Writes : Writes IsReconciled
IsReconciled-Writes = record {
  inserts = insert_row-IsReconciled;
  updates = λ id where_also set same. update_row-IsReconciled id where_also set;
}

IsReconciled-EventWrites : (env : Env) → EventWrites env IsReconciled
IsReconciled-EventWrites env = record {
  bookings = IsReconciled-Writes;
  captures = capture-IsReconciled env;
  refunds = refund-IsReconciled env;
  failures = fail_payment-IsReconciled;
  claims = claim-IsReconciled;
  marks = mark-IsReconciled;
}

-- The processing of any webhook event, from its claim to its last mark and with the confirmation or
-- refund of the booking between, keeps the rows of `payments` and the ledger in agreement however
-- it ends: by each payment its amount came into escrow if it was captured and nothing otherwise,
-- and what went back to the guest is the refunded amount, at most the amount; provided that
-- whatever runs at the awaits keeps it.
pub process-IsReconciled :
    (env : Env) (ps : Providers) (fresh : String) (id : ℕ)
    → EnvPreserves IsReconciled env
    → Preserves IsReconciled (process env ps fresh id)
process-IsReconciled env ps fresh id others =
    process-Preserves env (IsReconciled-EventWrites env) others ps fresh id
