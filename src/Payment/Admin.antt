-- ===== src/Payment/Admin.antt =====
-- backend/src/modules/payment/application/escrow-admin.service.ts: what an operator may do by hand.
-- An amount is a natural number here, so of its check what is left is that it is not 0.
pub mod Held
pub mod Keeps
use Prim.Native.Char.{code}
use last_chance_platform.Prelude.{
  ℕ, ◌+◌, String, Bool, true, false, not, ◌&&◌, ◌||◌, Option, none, some, List, [], ◌∷◌, any, leb,
  ltb, ◌==◌, if◌then◌else◌, is_some, is_space, code_units,
}
use last_chance_platform.Prelude.Sql.{update_where}
use last_chance_platform.Prelude.Result.{ok}
use last_chance_platform.Prelude.Action.{pure, or_throw, throw_if, ◌>>=◌, ◌>>◌}
use last_chance_platform.Errors.{DomainError, domain}
use last_chance_platform.Domain.Payment.{
  PayoutStatus, LedgerAccount, LedgerDirection, same_account, Payout, LedgerLeg,
}
use last_chance_platform.World.Store.{execute_payout}
use last_chance_platform.World.Effects.{
  M, Env, Statement, select, query, transaction, pause, add_job,
}
use last_chance_platform.Payment.Ledger.{post_group}
use last_chance_platform.Payment.Repository.{updated}
use last_chance_platform.Payment.Inbox.{find_payout, payout_is_pending}

abbrev pub adjustable_accounts : List LedgerAccount
adjustable_accounts =
    LedgerAccount.platform_escrow ∷ LedgerAccount.platform_revenue ∷ LedgerAccount.host_payable
    ∷ LedgerAccount.tax_payable ∷ LedgerAccount.guest_refund_clearing
    ∷ LedgerAccount.provider_clearing ∷ []

pub record EscrowAdjustment : Type 0 where
  pub from_account : LedgerAccount
  pub to_account : LedgerAccount
  pub amount_minor : ℕ
  pub currency : String
  pub reason : String
  pub booking_id : Option ℕ
  pub host_id : Option ℕ

unfoldable pub is_blank_text : String → Bool
is_blank_text String.[] = true
is_blank_text (String.◌∷◌ c s) = is_space (code c) && is_blank_text s

-- The code units up to the last character that is no space.
unfoldable pub length_to_last : String → ℕ
length_to_last String.[] = 0
length_to_last (String.◌∷◌ c s) =
    let rest = length_to_last s in
    if is_blank_text (String.◌∷◌ c s) then 0 else code_units (code c) + rest

-- `reason.trim().length`
unfoldable pub trimmed_length : String → ℕ
trimmed_length String.[] = 0
trimmed_length (String.◌∷◌ c s) =
    let rest = trimmed_length s in
    if is_space (code c) then rest else length_to_last (String.◌∷◌ c s)

abbrev is_capital : ℕ → Bool
is_capital c = leb b'A' c && leb c b'Z'

-- `/^[A-Z]{3}$/`
unfoldable pub is_currency : String → Bool
is_currency (String.◌∷◌ a (String.◌∷◌ b (String.◌∷◌ c String.[]))) =
    is_capital (code a) && (is_capital (code b) && is_capital (code c))
is_currency _ = false

abbrev pub is_adjustable : LedgerAccount → Bool
is_adjustable account = any (same_account account) adjustable_accounts

-- The checks of `adjust`, each of which throws the same error.
unfoldable pub may_adjust : EscrowAdjustment → Bool
may_adjust a =
    (is_adjustable a.from_account && is_adjustable a.to_account)
    && (not (same_account a.from_account a.to_account)
        && (not (leb a.amount_minor 0)
            && (is_currency a.currency && not (ltb (trimmed_length a.reason) 10))))

abbrev adjustment_leg : EscrowAdjustment → LedgerAccount → LedgerDirection → LedgerLeg
adjustment_leg a account direction = record {
  account = account;
  direction = direction;
  amount_minor = a.amount_minor;
  booking_id = a.booking_id;
  payment_id = none;
  payout_id = none;
  host_id = a.host_id;
}

unfoldable pub adjustment_legs : EscrowAdjustment → List LedgerLeg
adjustment_legs a =
    adjustment_leg a a.from_account LedgerDirection.debit
    ∷ adjustment_leg a a.to_account LedgerDirection.credit
    ∷ []

unfoldable pub adjust : Env → EscrowAdjustment → M ℕ
adjust env a = do
  throw_if (not (may_adjust a)) (domain DomainError.validation_failed)
  transaction (post_group env.new_group a.currency (adjustment_legs a))
  pure env.new_group

-- The states that `hold`, `release` and `retry` start from.
abbrev pub may_hold : PayoutStatus → Bool
may_hold PayoutStatus.pending = true
may_hold PayoutStatus.scheduled = true
may_hold _ = false

abbrev pub is_on_hold : PayoutStatus → Bool
is_on_hold PayoutStatus.on_hold = true
is_on_hold _ = false

abbrev pub is_failed : PayoutStatus → Bool
is_failed PayoutStatus.failed = true
is_failed _ = false

abbrev pub payout_moved : PayoutStatus → Payout → Payout
payout_moved to r = record r {
  status = to;
  has_failure_message = if payout_is_pending to then false else r.has_failure_message;
}

-- The UPDATE of `transitionPayout`.
unfoldable pub move_payout : ℕ → (PayoutStatus → Bool) → PayoutStatus → Statement (Option Payout)
move_payout id from to db =
    let p = λ (r : Payout). (id == r.id) && from r.status in
    ok (
      updated p (payout_moved to) db.payouts,
      record db { payouts = update_where p (payout_moved to) db.payouts },
    )

unfoldable pub transition_payout :
    Env → ℕ → (PayoutStatus → Bool) → PayoutStatus → String → M Payout
transition_payout env id from to reason = do
  throw_if (ltb (trimmed_length reason) 10) (domain DomainError.validation_failed)
  moved ← query (move_payout id from to)
  throw_if (not (is_some moved)) (domain DomainError.validation_failed)
  pause env 40
  found ← select (find_payout id)
  or_throw found (domain DomainError.invariant_violation)

unfoldable pub hold : Env → ℕ → String → M Payout
hold env id reason = transition_payout env id may_hold PayoutStatus.on_hold reason

-- `release` and `retry`
unfoldable pub requeue : Env → ℕ → (PayoutStatus → Bool) → String → M Payout
requeue env id from reason = do
  payout ← transition_payout env id from PayoutStatus.pending reason
  add_job env (execute_payout id 0)
  pure payout

unfoldable pub release_payout : Env → ℕ → String → M Payout
release_payout env id reason = requeue env id is_on_hold reason

unfoldable pub retry_payout : Env → ℕ → String → M Payout
retry_payout env id reason = requeue env id is_failed reason
