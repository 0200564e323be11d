-- ===== src/Payment/Payout.antt =====
-- backend/src/modules/payment/application/payout.service.ts and refund.service.ts.
pub mod Keeps
pub mod Split
use last_chance_platform.Prelude.{
  ℕ, ◌+◌, ◌-◌, String, Bool, true, false, not, ◌&&◌, Option, none, some, List, [], ◌∷◌, find?,
  or_else, leb, ◌==◌, is_some, if◌then◌else◌, filled,
}
use last_chance_platform.Prelude.Result.{Result, ok, err}
use last_chance_platform.Prelude.Action.{pure, throw, or_throw, lift, ◌>>=◌, ◌>>◌}
use last_chance_platform.Errors.{Failure}
use last_chance_platform.Domain.Booking.{BookingStatus, same_status, Booking}
use last_chance_platform.Domain.Inventory.{Property}
use last_chance_platform.Domain.Payment.{
  PaymentProviderName, PayoutStatus, LedgerAccount, LedgerDirection, Payment, RefundReason, Refund,
  Payout, LedgerLeg,
}
use last_chance_platform.World.Store.{Db, execute_payout}
use last_chance_platform.World.Effects.{
  M, Env, exec, query, transaction, select, pause, add_job, recover,
}
use last_chance_platform.Booking.Service.{must_find}
use last_chance_platform.Payment.Ledger.{post_group}
use last_chance_platform.Payment.Repository.{
  find_captured_for_booking, has_pending_or_done_refund, insert_refund, attach_provider_refund,
}
use last_chance_platform.Payment.Inbox.{
  insert_payout, find_payout, find_payout_by_booking, payout_is_pending, mark_in_transit, mark_paid,
  mark_payout_failed,
}
use last_chance_platform.Payment.Provider.{ProviderPort, Providers, get_provider}

abbrev pub host_share_minor : Booking → ℕ
host_share_minor b = b.host_payout_minor + b.cleaning_fee_minor

abbrev pub revenue_minor : Booking → ℕ
revenue_minor b = b.commission_minor + b.service_fee_minor

abbrev split_leg :
    LedgerAccount → LedgerDirection → ℕ → ℕ → Option ℕ → Option ℕ → Option ℕ → LedgerLeg
split_leg account direction amount booking_id payment_id payout_id host_id = record {
  account = account;
  direction = direction;
  amount_minor = amount;
  booking_id = some booking_id;
  payment_id = payment_id;
  payout_id = payout_id;
  host_id = host_id;
}

-- The four legs of the split.
unfoldable pub split_legs : Booking → ℕ → ℕ → ℕ → List LedgerLeg
split_legs b payment_id payout_id host_id =
    split_leg LedgerAccount.platform_escrow LedgerDirection.debit b.total_amount_minor b.id
      (some payment_id) none none
    ∷ split_leg LedgerAccount.host_payable LedgerDirection.credit (host_share_minor b) b.id none
        (some payout_id) (some host_id)
    ∷ split_leg LedgerAccount.platform_revenue LedgerDirection.credit (revenue_minor b) b.id none
        none none
    ∷ split_leg LedgerAccount.tax_payable LedgerDirection.credit b.taxes_minor b.id none none none
    ∷ []

unfoldable pub account_split : Env → Booking → ℕ → ℕ → Option Payout → M (Option Payout)
account_split env b payment_id host_id none = pure none
account_split env b payment_id host_id (some created) =
    post_group env.new_group b.currency (split_legs b payment_id created.id host_id)
    >> pure (some created)

-- The transaction of `createForBooking`.
unfoldable pub split_section : Env → Booking → Payment → ℕ → M (Option Payout)
split_section env b payment host_id = do
  created ←
      exec (insert_payout env.new_id host_id b.id (host_share_minor b) b.currency payment.provider)
  account_split env b payment.id host_id created

unfoldable pub schedule_payout : Env → ℕ → ℕ → Option Payout → M (Option Payout)
schedule_payout env delay booking_id none = select (find_payout_by_booking booking_id)
schedule_payout env delay booking_id (some payout) =
    add_job env (execute_payout payout.id delay) >> pure (some payout)

-- The property's host, as `createForBooking` selects it.
unfoldable pub host_of_property : ℕ → Db → Option ℕ
host_of_property property_id db =
    elim (find? (λ (p : Property). p.id == property_id) db.properties) [
      | none ↦ none
      | some p ↦ some p.host_id
    ]

unfoldable pub pay_host : Env → ℕ → Booking → Option Payment → Option ℕ → M (Option Payout)
pay_host env delay b none host = pure none
pay_host env delay b (some payment) none = pure none
pay_host env delay b (some payment) (some host_id) = do
  payout ← transaction (split_section env b payment host_id)
  pause env 5
  schedule_payout env delay b.id payout

unfoldable pub pay_completed : Env → ℕ → Booking → M (Option Payout)
pay_completed env delay b =
    if not (same_status b.status BookingStatus.completed) then pure none else (do
      payment ← select (find_captured_for_booking b.id)
      host ← select (host_of_property b.property_id)
      pause env 4
      pay_host env delay b payment host)

-- `createForBooking` of the payouts; `delay` is `payoutExecuteDelayMs`
unfoldable pub create_payout_for_booking : Env → ℕ → ℕ → M (Option Payout)
create_payout_for_booking env delay booking_id = do
  booking ← must_find booking_id
  pause env 3
  pay_completed env delay booking

-- `if (!paid) return; …`
unfoldable pub account_settlement : Env → Option Payout → M (Unit {0})
account_settlement env none = pure tt
account_settlement env (some paid) = post_group env.new_group paid.currency (
    split_leg LedgerAccount.host_payable LedgerDirection.debit paid.amount_minor paid.booking_id
      none (some paid.id) (some paid.host_id)
    ∷ split_leg LedgerAccount.provider_clearing LedgerDirection.credit paid.amount_minor
        paid.booking_id none (some paid.id) none
    ∷ [])

-- `settle`
unfoldable pub settle : Env → ℕ → M (Unit {0})
settle env id = transaction (do paid ← exec (mark_paid env.db_now id); account_settlement env paid)

abbrev is_mock : PaymentProviderName → Bool
is_mock PaymentProviderName.mock = true
is_mock _ = false

unfoldable pub settle_if_mock : Env → PaymentProviderName → ℕ → Option Payout → M (Unit {0})
settle_if_mock env name id none = pure tt
settle_if_mock env name id (some moving) =
    if is_mock name then pause env 8 >> settle env id else pure tt

-- the `try` of `executePayout`
unfoldable pub transfer_payout : Env → ProviderPort → Payout → M (Unit {0})
transfer_payout env provider payout = do
  transfer ← lift (provider.create_transfer payout.id payout.amount_minor)
  pause env 7
  moving ← query (mark_in_transit payout.id provider.name transfer)
  settle_if_mock env provider.name payout.id moving

unfoldable pub execute_pending : Env → Providers → Payout → M (Unit {0})
execute_pending env ps payout = do
  provider ← lift (get_provider ps (or_else payout.provider PaymentProviderName.mock))
  recover (transfer_payout env provider payout)
      (λ e. query (mark_payout_failed payout.id) >> throw e)

unfoldable pub execute_found : Env → Providers → Option Payout → M (Unit {0})
execute_found env ps none = pure tt
execute_found env ps (some payout) =
    if not (payout_is_pending payout.status) then pure tt else execute_pending env ps payout

-- `executePayout`
unfoldable pub execute_payout_job : Env → Providers → ℕ → M (Unit {0})
execute_payout_job env ps id = do
  found ← select (find_payout id)
  pause env 6
  execute_found env ps found

unfoldable pub refund_remaining : Env → Providers → Payment → String → RefundReason → M (Unit {0})
refund_remaining env ps p ref reason =
    let remaining = p.amount_minor - p.refunded_amount_minor in
    if leb remaining 0 then pure tt else (do
      refund ← query (insert_refund env.new_id p.id remaining p.currency reason)
      provider ← lift (get_provider ps p.provider)
      created ← lift (provider.create_refund ref remaining refund.id)
      pause env 5
      query (attach_provider_refund refund.id created))

unfoldable pub refund_captured : Env → Providers → Payment → String → RefundReason → M (Unit {0})
refund_captured env ps p ref reason = do
  exists ← select (has_pending_or_done_refund p.id)
  pause env 4
  if exists then pure tt else refund_remaining env ps p ref reason

unfoldable pub refund_found : Env → Providers → Option Payment → RefundReason → M (Unit {0})
refund_found env ps none reason = pure tt
refund_found env ps (some p) reason = elim (filled p.provider_payment_id) [
  | none ↦ pure tt
  | some ref ↦ refund_captured env ps p ref reason
]

-- `createForBooking` of the refunds
unfoldable pub create_refund_for_booking : Env → Providers → ℕ → RefundReason → M (Unit {0})
create_refund_for_booking env ps booking_id reason = do
  found ← select (find_captured_for_booking booking_id)
  pause env 3
  refund_found env ps found reason
