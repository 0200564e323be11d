-- ===== src/Payment/Ledger.antt =====
-- backend/src/modules/payment/infrastructure/ledger.service.ts. The deferred trigger of
-- db/migrations/0007_payments.sql has no part: `post_group` refuses first.
pub mod Balance
pub mod Keeps
use last_chance_platform.Prelude.{
  ℕ, ◌+◌, String, Bool, true, false, not, ◌&&◌, ◌||◌, List, [], ◌∷◌, length, ltb, leb, ◌==◌,
  if◌then◌else◌, same_text,
}
use last_chance_platform.Prelude.Int.{ℤ, sub_ℕ}
use last_chance_platform.Prelude.Result.{ok}
use last_chance_platform.Prelude.Action.{throw_if, ◌>>◌}
use last_chance_platform.Errors.{DomainError, domain}
use last_chance_platform.Domain.Payment.{
  LedgerAccount, LedgerDirection, same_account, LedgerLeg, LedgerEntry,
}
use last_chance_platform.World.Store.{Db}
use last_chance_platform.World.Effects.{M, Statement, exec}

abbrev pub same_direction : LedgerDirection → LedgerDirection → Bool
same_direction LedgerDirection.debit LedgerDirection.debit = true
same_direction LedgerDirection.credit LedgerDirection.credit = true
same_direction _ _ = false

-- `legs.filter(…).reduce(…, 0)`
unfoldable pub leg_total : LedgerDirection → List LedgerLeg → ℕ
leg_total side [] = 0
leg_total side (l ∷ legs) =
    (if same_direction l.direction side then l.amount_minor else 0) + leg_total side legs

-- The loop of INSERTs; a leg of nothing is skipped.
unfoldable pub insert_legs : ℕ → String → List LedgerLeg → List LedgerEntry → List LedgerEntry
insert_legs group currency [] ledger = ledger
insert_legs group currency (l ∷ legs) ledger = insert_legs group currency legs (
    if leb l.amount_minor 0
    then ledger
    else record { entry_group_id = group; leg = l; currency = currency } ∷ ledger)

-- `postGroup`
unfoldable pub post_group : ℕ → String → List LedgerLeg → M (Unit {0})
post_group group currency legs = do
  throw_if
      (not (leg_total LedgerDirection.debit legs == leg_total LedgerDirection.credit legs)
        || ltb (length legs) 2)
      (domain DomainError.invariant_violation)
  exec (λ db. ok (tt, record db { ledger = insert_legs group currency legs db.ledger }))

-- The sum of one side of the entries that a test picks.
unfoldable pub side_total : (LedgerEntry → Bool) → LedgerDirection → List LedgerEntry → ℕ
side_total picks side [] = 0
side_total picks side (e ∷ ledger) =
    (if picks e && same_direction e.leg.direction side then e.leg.amount_minor else 0)
    + side_total picks side ledger

-- `accountBalance`: credits less debits
unfoldable pub account_balance : LedgerAccount → String → Db → ℤ
account_balance account currency db =
    let picks =
      λ (e : LedgerEntry). same_account e.leg.account account && same_text e.currency currency in
    sub_ℕ (side_total picks LedgerDirection.credit db.ledger)
      (side_total picks LedgerDirection.debit db.ledger)
