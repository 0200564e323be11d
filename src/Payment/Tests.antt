-- ===== src/Payment/Tests.antt =====
-- The payments on sample rows.
use last_chance_platform.Prelude.{◌≡◌, refl, some, List, [], ◌∷◌}
use last_chance_platform.Prelude.Result.{ok}
use last_chance_platform.Domain.Payment.{PaymentProviderName, LedgerAccount}
use last_chance_platform.World.Keeps.{Preserves, EnvPreserves}
use last_chance_platform.Booking.Table.{row_checks}
use last_chance_platform.Payment.Ledger.{insert_legs, post_group, side_total}
use last_chance_platform.Payment.Ledger.Balance.{IsBalanced}
use last_chance_platform.Payment.Webhook.{process}
use last_chance_platform.Payment.Escrow.{IsReconciled}
use last_chance_platform.Payment.Escrow.Events.{process-IsReconciled}
use last_chance_platform.Payment.Payout.{split_legs}
use last_chance_platform.World.Effects.{Env}
use last_chance_platform.Domain.Payment.{RefundReason}
use last_chance_platform.Payment.History.{PaymentJob, Setting, run_jobs, run_jobs-IsBalanced}
use last_chance_platform.Payment.Payout.Split.{split_legs_post}
use last_chance_platform.Prelude.{true, false, none, same_text}
use last_chance_platform.Prelude.Action.{◌>>=◌}
use last_chance_platform.Domain.Payment.{Payload}
use last_chance_platform.World.Store.{World}
use last_chance_platform.World.Effects.{query}
use last_chance_platform.Payment.Inbox.{record_event}
use last_chance_platform.Payment.Provider.{ProviderPort, Providers, get_provider, mock_parse_event}
use last_chance_platform.Payment.Webhook.{intake}
use last_chance_platform.Payment.Webhook.Intake.{
  is_recorded, intake_redelivered, intake_forged_first,
}
use last_chance_platform.Prelude.{◌≤◌, arith}
use last_chance_platform.Domain.Payment.{
  PayoutStatus, Payout, PaymentMethod, PaymentStatus, Payment,
}
use last_chance_platform.Booking.Repository.{find_by_id}
use last_chance_platform.Payment.Inbox.{find_payout}
use last_chance_platform.Payment.Repository.{find_by_key}
use last_chance_platform.Payment.Payout.{execute_payout_job}
use last_chance_platform.Payment.Admin.{
  EscrowAdjustment, is_blank_text, length_to_last, trimmed_length, is_currency, may_adjust,
  payout_moved, hold,
}
use last_chance_platform.Payment.Admin.Held.{hold_stops_payout}
use last_chance_platform.Payment.Initiate.{InitiateCommand, initiate}
use last_chance_platform.Payment.Initiate.Replay.{Payable, initiate_replayed}
use last_chance_platform.Samples.{mock_port, held_night, one_payment, two_nights, alone, providers}

alone-EnvPreserves : EnvPreserves IsBalanced alone
alone-EnvPreserves = record { after = λ k w h. h }

abbrev correction : EscrowAdjustment
correction = record {
  from_account = LedgerAccount.platform_revenue;
  to_account = LedgerAccount.host_payable;
  amount_minor = 700;
  currency = "SAR";
  reason = "Cleaning fee was charged twice";
  booking_id = some 1;
  host_id = none;
}

abbrev jobs : List (Env × PaymentJob)
jobs =
    (alone, PaymentJob.event_received "evt_1" 60)
    ∷ (alone, PaymentJob.stay_completed 500 1)
    ∷ (alone, PaymentJob.payout_due 70)
    ∷ (alone, PaymentJob.refund_asked 1 RefundReason.hold_expired_after_capture)
    ∷ (alone, PaymentJob.adjusted correction)
    ∷ []

abbrev setting : Setting
setting = record { providers = providers; default_key = λ id name. "init" }

two_nights-IsBalanced : IsBalanced two_nights.db
unfolding side_total
two_nights-IsBalanced = record { groups = λ g c. refl }

run_jobs-IsBalanced_example : IsBalanced (run_jobs setting jobs two_nights).db
run_jobs-IsBalanced_example =
    run_jobs-IsBalanced setting jobs two_nights
      (
        alone-EnvPreserves,
        (alone-EnvPreserves, (alone-EnvPreserves, (alone-EnvPreserves, (alone-EnvPreserves, tt)))),
      )
      two_nights-IsBalanced

alone-reconciles : EnvPreserves IsReconciled alone
alone-reconciles = record { after = λ k w h. h }

process-IsReconciled_example : Preserves IsReconciled (process alone providers "evt_1" 60)
process-IsReconciled_example = process-IsReconciled alone providers "evt_1" 60 alone-reconciles

split_legs_post_example : post_group 91 "SAR" (split_legs held_night 40 70 33) two_nights ≡ (
  ok tt,
  record two_nights {
    db = record two_nights.db {
      ledger = insert_legs 91 "SAR" (split_legs held_night 40 70 33) two_nights.db.ledger;
    };
  },
)
split_legs_post_example =
    split_legs_post held_night 91 40 70 33 two_nights (unfold row_checks in refl)

-- A provider whose signature is one text.
abbrev signed_port : ProviderPort
signed_port = record mock_port { verify_signature = λ raw headers. same_text headers "signed" }

abbrev signed_providers : Providers
signed_providers = record providers { mock = signed_port }

abbrev capture_body : Payload
capture_body = record {
  id = some "evt_1";
  kind = some "payment.captured";
  provider_payment_id = some "mock_pi_1";
  provider_refund_id = none;
  amount_minor = some 12500;
  failure_code = none;
  failure_message = none;
  object_id = none;
  payment_intent = none;
  amount = none;
}

abbrev forged : World
forged =
    (intake alone signed_providers "f" PaymentProviderName.mock "{}" "guessed" capture_body
      two_nights).1

found : get_provider signed_providers PaymentProviderName.mock ≡ ok signed_port
unfolding get_provider
found = refl

recorded :
    is_recorded PaymentProviderName.mock (signed_port.parse_event "f" capture_body).event_id forged
    ≡ true
unfolding intake ◌>>=◌ query record_event get_provider mock_parse_event
recorded = refl

same_id :
    (signed_port.parse_event "f" capture_body).event_id
    ≡ (signed_port.parse_event "g" capture_body).event_id
unfolding mock_parse_event
same_id = refl

rejected :
    (intake alone signed_providers "f" PaymentProviderName.mock "{}" "guessed" capture_body
      two_nights).0
    ≡ ok (record { accepted = false; duplicate = false })
unfolding intake ◌>>=◌ query record_event get_provider mock_parse_event
rejected = refl

intake_redelivered_example :
    intake alone signed_providers "f" PaymentProviderName.mock "{}" "guessed" capture_body forged
    ≡ (ok (record { accepted = false; duplicate = false }), forged)
intake_redelivered_example =
    intake_redelivered alone signed_providers "f" PaymentProviderName.mock "{}" "guessed"
      capture_body forged signed_port found recorded

intake_forged_first_example :
    intake alone signed_providers "g" PaymentProviderName.mock "{}" "signed" capture_body forged
    ≡ (ok (record { accepted = true; duplicate = true }), forged)
intake_forged_first_example =
    intake_forged_first alone alone signed_providers PaymentProviderName.mock "f" "{}" "guessed" "g"
      "{}" "signed" capture_body capture_body two_nights signed_port
      (record { accepted = false; duplicate = false }) found refl refl same_id rejected

correction_allowed : may_adjust correction ≡ true
unfolding may_adjust is_currency trimmed_length length_to_last is_blank_text
correction_allowed = refl

abbrev due : Payout
due = record {
  id = 70;
  host_id = 33;
  booking_id = 1;
  status = PayoutStatus.pending;
  amount_minor = 9000;
  currency = "SAR";
  provider = some PaymentProviderName.mock;
  provider_transfer_id = none;
  paid_at = none;
  has_failure_message = false;
}

abbrev due_world : World
due_world = record two_nights { db = record two_nights.db { payouts = due ∷ [] } }

reason_length : 10 ≤ trimmed_length "  Chargeback suspected "
unfolding trimmed_length length_to_last is_blank_text
reason_length = omega arith

hold_stops_payout_example :
    (w' : World) × (hold alone 70 "  Chargeback suspected " due_world
      ≡ (ok (payout_moved PayoutStatus.on_hold due), w'))
    × (find_payout 70 w'.db ≡ some (payout_moved PayoutStatus.on_hold due))
    × (execute_payout_job alone providers 70 w' ≡ (ok tt, w'))
unfolding find_payout
hold_stops_payout_example =
    hold_stops_payout alone refl 70 "  Chargeback suspected " due due_world alone providers
      reason_length refl refl

-- The key of a payment that has failed, on a booking that could still be paid.
abbrev failed_payment : Payment
failed_payment = record one_payment { status = PaymentStatus.failed }

abbrev declined : World
declined = record two_nights { db = record two_nights.db { payments = failed_payment ∷ [] } }

abbrev again : InitiateCommand
again = record {
  booking_id = 1;
  provider = PaymentProviderName.mock;
  method = PaymentMethod.mada;
  idempotency_key = some "init-1";
}

again-Payable : Payable alone providers again declined
unfolding find_by_id get_provider
again-Payable = record {
  booking = held_night;
  port = mock_port;
  found = refl;
  awaits = refl;
  held = refl;
  registered = refl;
}

initiate_replayed_example :
    initiate (λ id name. "init-1") alone providers again declined
    ≡ (ok (failed_payment, false), declined)
unfolding find_by_key
initiate_replayed_example =
    initiate_replayed (λ id name. "init-1") alone providers refl again failed_payment declined
      again-Payable refl refl
