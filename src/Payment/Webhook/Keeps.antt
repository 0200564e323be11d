-- ===== src/Payment/Webhook/Keeps.antt =====
-- What the transactions and statements of an event keep of the tables, its processing keeps.
use last_chance_platform.Prelude.{ℕ, ◌≡◌, sym, arith, String, Option, none, some}
use last_chance_platform.Prelude.Action.{pure, throw, ◌>>◌}
use last_chance_platform.Errors.{Failure}
use last_chance_platform.Domain.Booking.{Booking}
use last_chance_platform.Domain.Payment.{
  PaymentProviderName, NormalizedEventType, NormalizedWebhookEvent, Payment, WebhookStatus,
  WebhookEventRecord,
}
use last_chance_platform.World.Effects.{Env, add_job, transaction}
use last_chance_platform.World.Store.{Db, World}
use mathlib.Core.Path.{subst}
use last_chance_platform.World.Keeps.{
  Preserves, EnvPreserves, Preserves-pure, Preserves-if, Preserves-recover, StatementPreserves,
  preserves_rules,
}
use last_chance_platform.Booking.Service.{confirm, mark_refunded}
use last_chance_platform.Booking.Service.Keeps.{
  must_find-Preserves, confirm-Preserves, simple_transition-Preserves,
}
use last_chance_platform.Booking.Repository.Preserves.{Writes}
use last_chance_platform.Payment.Inbox.{claim_for_processing, mark_event}
use last_chance_platform.Payment.Provider.{Providers}
use last_chance_platform.Payment.Webhook.{
  capture_section, on_lost_confirmation, confirm_unless_reconciled, confirm_booking_idempotent,
  apply_capture, fail_payment, apply_failure, refund_section, refund_if_cancelled, apply_refund,
  apply_event, handle_event, process_claimed, process,
}

-- What a property of the tables needs so that the processing of events keeps it.
pub record EventWrites (env : Env) (P : Db → Type 0) : Type 0 where
  pub bookings : Writes P
  pub captures :
      (provider : PaymentProviderName) (ref : String) (amount : Option ℕ)
      → Preserves P (transaction (capture_section env provider ref amount))
  pub refunds :
      (provider : PaymentProviderName) (ref refund_ref : String)
      → Preserves P (transaction (refund_section env provider ref refund_ref))
  pub failures :
      (event : NormalizedWebhookEvent) (o : Option Payment) → Preserves P (fail_payment event o)
  pub claims : (id : ℕ) → StatementPreserves P (claim_for_processing id)
  pub marks : (id : ℕ) (s : WebhookStatus) → StatementPreserves P (mark_event id s)

module _ {P : Db → Type 0} (env : Env) (writes : EventWrites env P)
    (others : EnvPreserves P env) where
  on_lost_confirmation-db :
      (id : ℕ) (e : Failure) (w : World) → (on_lost_confirmation env id e w).1.db ≡ w.db
  unfolding on_lost_confirmation add_job pure throw
  on_lost_confirmation-db id e w = ground arith

  on_lost_confirmation-Preserves :
      (id : ℕ) (e : Failure) → Preserves P (on_lost_confirmation env id e)
  on_lost_confirmation-Preserves id e = record {
    after = λ w b. subst P (sym (on_lost_confirmation-db id e w)) b;
  }

  confirm_unless_reconciled-Preserves :
      (b : Booking) → Preserves P (confirm_unless_reconciled env b)
  unfolding confirm_unless_reconciled
  confirm_unless_reconciled-Preserves b =
      let confirms = confirm-Preserves writes.bookings env others b.id in
      let confirmed : Preserves P (confirm env b.id >> pure tt) =
        search (preserves_rules, confirms) depth 9 in
      Preserves-if _ _ _ (Preserves-pure tt)
        (Preserves-recover _ _ confirmed (on_lost_confirmation-Preserves b.id))

  apply_capture-Preserves :
      (r : WebhookEventRecord) (event : NormalizedWebhookEvent)
      → Preserves P (apply_capture env r event)
  unfolding apply_capture confirm_booking_idempotent
  apply_capture-Preserves r event =
      search
        (
          preserves_rules, writes.marks, must_find-Preserves, writes.captures,
          confirm_unless_reconciled-Preserves,
        )
        depth 16

  apply_failure-Preserves :
      (r : WebhookEventRecord) (event : NormalizedWebhookEvent)
      → Preserves P (apply_failure r event)
  unfolding apply_failure
  apply_failure-Preserves r event = search (preserves_rules, writes.marks, writes.failures) depth 12

  refund_if_cancelled-Preserves : (b : Booking) → Preserves P (refund_if_cancelled env b)
  unfolding refund_if_cancelled mark_refunded
  refund_if_cancelled-Preserves b =
      let moves = simple_transition-Preserves writes.bookings env others in
      search (preserves_rules, moves) depth 9

  apply_refund-Preserves :
      (r : WebhookEventRecord) (event : NormalizedWebhookEvent)
      → Preserves P (apply_refund env r event)
  unfolding apply_refund
  apply_refund-Preserves r event =
      search
        (
          preserves_rules, writes.marks, must_find-Preserves, writes.refunds,
          refund_if_cancelled-Preserves,
        )
        depth 20

  apply_event-Preserves :
      (r : WebhookEventRecord) (type : NormalizedEventType) (event : NormalizedWebhookEvent)
      → Preserves P (apply_event env r type event)
  unfolding apply_event
  apply_event-Preserves r NormalizedEventType.payment_captured event =
      apply_capture-Preserves r event
  apply_event-Preserves r NormalizedEventType.payment_failed event = apply_failure-Preserves r event
  apply_event-Preserves r NormalizedEventType.refund_succeeded event =
      apply_refund-Preserves r event
  apply_event-Preserves r NormalizedEventType.refund_failed event =
      search (preserves_rules, writes.marks)
  apply_event-Preserves r NormalizedEventType.ignored event = search (preserves_rules, writes.marks)

  process_claimed-Preserves :
      (ps : Providers) (fresh : String) (o : Option WebhookEventRecord)
      → Preserves P (process_claimed env ps fresh o)
  unfolding process_claimed handle_event
  process_claimed-Preserves ps fresh none = search preserves_rules
  process_claimed-Preserves ps fresh (some r) =
      search (preserves_rules, writes.marks, apply_event-Preserves) depth 12

  -- From the claim of the event to its last mark.
  pub process-Preserves :
      (ps : Providers) (fresh : String) (id : ℕ) → Preserves P (process env ps fresh id)
  unfolding process
  process-Preserves ps fresh id =
      search (preserves_rules, writes.claims, process_claimed-Preserves) depth 9
