-- ===== src/Payment/Payout/Keeps.antt =====
-- About the payout and refund jobs of backend/src/modules/payment and the groups of the ledger.
use last_chance_platform.Prelude.{ℕ, String, Option, none, some, filled}
use last_chance_platform.Prelude.Action.{pure, throw, ◌>>◌}
use last_chance_platform.Errors.{Failure}
use last_chance_platform.Domain.Booking.{Booking}
use last_chance_platform.Domain.Payment.{PaymentProviderName, Payment, RefundReason, Payout}
use last_chance_platform.World.Effects.{M, Env, query}
use last_chance_platform.World.Keeps.{Preserves, EnvPreserves, Preserves-recover}
use last_chance_platform.Booking.Service.Keeps.{must_find-Preserves}
use last_chance_platform.Payment.Ledger.Balance.{IsBalanced}
use last_chance_platform.Payment.Ledger.Keeps.{ledger_rules}
use last_chance_platform.Payment.Inbox.{mark_payout_failed}
use last_chance_platform.Payment.Provider.{ProviderPort, Providers}
use last_chance_platform.Payment.Payout.{
  account_split, split_section, schedule_payout, pay_host, pay_completed, create_payout_for_booking,
  account_settlement, settle, settle_if_mock, transfer_payout, execute_pending, execute_found,
  execute_payout_job, refund_remaining, refund_captured, refund_found, create_refund_for_booking,
}

module _ (env : Env) (others : EnvPreserves IsBalanced env) where
  account_split-Preserves :
      (b : Booking) (pid h : ℕ) (o : Option Payout)
      → Preserves IsBalanced (account_split env b pid h o)
  unfolding account_split
  account_split-Preserves b pid h none = search ledger_rules
  account_split-Preserves b pid h (some p) = search ledger_rules

  split_section-Preserves :
      (b : Booking) (p : Payment) (h : ℕ) → Preserves IsBalanced (split_section env b p h)
  unfolding split_section
  split_section-Preserves b p h = search (ledger_rules, account_split-Preserves) depth 9

  schedule_payout-Preserves :
      (delay id : ℕ) (o : Option Payout) → Preserves IsBalanced (schedule_payout env delay id o)
  unfolding schedule_payout
  schedule_payout-Preserves delay id none = search ledger_rules
  schedule_payout-Preserves delay id (some p) = search ledger_rules

  pay_host-Preserves :
      (delay : ℕ) (b : Booking) (p : Option Payment) (h : Option ℕ)
      → Preserves IsBalanced (pay_host env delay b p h)
  unfolding pay_host
  pay_host-Preserves delay b none h = search ledger_rules
  pay_host-Preserves delay b (some p) none = search ledger_rules
  pay_host-Preserves delay b (some p) (some h) =
      search (ledger_rules, split_section-Preserves, schedule_payout-Preserves) depth 9

  pub create_payout_for_booking-Preserves :
      (delay id : ℕ) → Preserves IsBalanced (create_payout_for_booking env delay id)
  unfolding create_payout_for_booking pay_completed
  create_payout_for_booking-Preserves delay id =
      search (ledger_rules, must_find-Preserves, pay_host-Preserves) depth 16

  account_settlement-Preserves :
      (o : Option Payout) → Preserves IsBalanced (account_settlement env o)
  unfolding account_settlement
  account_settlement-Preserves none = search ledger_rules
  account_settlement-Preserves (some p) = search ledger_rules

  settle-Preserves : (id : ℕ) → Preserves IsBalanced (settle env id)
  unfolding settle
  settle-Preserves id = search (ledger_rules, account_settlement-Preserves) depth 9

  settle_if_mock-Preserves :
      (name : PaymentProviderName) (id : ℕ) (o : Option Payout)
      → Preserves IsBalanced (settle_if_mock env name id o)
  unfolding settle_if_mock
  settle_if_mock-Preserves name id none = search ledger_rules
  settle_if_mock-Preserves name id (some p) = search (ledger_rules, settle-Preserves) depth 9

  transfer_payout-Preserves :
      (provider : ProviderPort) (p : Payout) → Preserves IsBalanced (transfer_payout env provider p)
  unfolding transfer_payout
  transfer_payout-Preserves provider p = search (ledger_rules, settle_if_mock-Preserves) depth 12

  marks_failed :
      (id : ℕ) (e : Failure)
      → Preserves IsBalanced (query (mark_payout_failed id) >> throw {A = Unit {0}} e)
  marks_failed id e = search ledger_rules depth 9

  execute_pending-Preserves :
      (ps : Providers) (p : Payout) → Preserves IsBalanced (execute_pending env ps p)
  unfolding execute_pending
  execute_pending-Preserves ps p =
      let tried = λ (provider : ProviderPort).
        Preserves-recover _ _ (transfer_payout-Preserves provider p) (marks_failed p.id) in
      search (ledger_rules, tried) depth 9

  execute_found-Preserves :
      (ps : Providers) (o : Option Payout) → Preserves IsBalanced (execute_found env ps o)
  unfolding execute_found
  execute_found-Preserves ps none = search ledger_rules
  execute_found-Preserves ps (some p) = search (ledger_rules, execute_pending-Preserves) depth 9

  pub execute_payout_job-Preserves :
      (ps : Providers) (id : ℕ) → Preserves IsBalanced (execute_payout_job env ps id)
  unfolding execute_payout_job
  execute_payout_job-Preserves ps id = search (ledger_rules, execute_found-Preserves) depth 9

  refund_remaining-Preserves :
      (ps : Providers) (p : Payment) (ref : String) (reason : RefundReason)
      → Preserves IsBalanced (refund_remaining env ps p ref reason)
  unfolding refund_remaining
  refund_remaining-Preserves ps p ref reason = search ledger_rules depth 16

  refund_captured-Preserves :
      (ps : Providers) (p : Payment) (ref : String) (reason : RefundReason)
      → Preserves IsBalanced (refund_captured env ps p ref reason)
  unfolding refund_captured
  refund_captured-Preserves ps p ref reason =
      search (ledger_rules, refund_remaining-Preserves) depth 12

  refund_ref-Preserves :
      (ps : Providers) (p : Payment) (reason : RefundReason) (ref : Option String)
      → Preserves IsBalanced (elim ref as (λ _. M (Unit {0})) [
        | none ↦ pure tt
        | some found ↦ refund_captured env ps p found reason
      ])
  refund_ref-Preserves ps p reason none = search ledger_rules
  refund_ref-Preserves ps p reason (some ref) = refund_captured-Preserves ps p ref reason

  refund_found-Preserves :
      (ps : Providers) (o : Option Payment) (reason : RefundReason)
      → Preserves IsBalanced (refund_found env ps o reason)
  unfolding refund_found
  refund_found-Preserves ps none reason = search ledger_rules
  refund_found-Preserves ps (some p) reason =
      refund_ref-Preserves ps p reason (filled p.provider_payment_id)

  pub create_refund_for_booking-Preserves :
      (ps : Providers) (id : ℕ) (reason : RefundReason)
      → Preserves IsBalanced (create_refund_for_booking env ps id reason)
  unfolding create_refund_for_booking
  create_refund_for_booking-Preserves ps id reason =
      search (ledger_rules, refund_found-Preserves) depth 9
