-- ===== src/Payment/Escrow.antt =====
-- The rows of `payments` beside the entries of the ledger.
pub mod Rows
pub mod Capture
pub mod Refund
pub mod Events
use last_chance_platform.Prelude.{
  ℕ, ◌≡◌, Bool, true, false, ◌&&◌, Option, none, some, List, [], ◌∷◌, any, leb, ◌==◌, is_some,
  if◌then◌else◌,
}
use last_chance_platform.Domain.Payment.{
  LedgerAccount, LedgerDirection, same_account, LedgerEntry, Payment,
}
use last_chance_platform.World.Store.{Db}
use last_chance_platform.Payment.Ledger.{side_total}
use last_chance_platform.Payment.Repository.{is_open}

abbrev pub is_of : ℕ → Option ℕ → Bool
is_of id none = false
is_of id (some k) = k == id

-- An entry of the account that names the payment.
abbrev pub entry_of : LedgerAccount → ℕ → LedgerEntry → Bool
entry_of account id e = same_account e.leg.account account && is_of id e.leg.payment_id

-- What the ledger says came into escrow by a payment, and what went back to its guest.
abbrev pub came_in : ℕ → List LedgerEntry → ℕ
came_in id ledger =
    side_total (entry_of LedgerAccount.platform_escrow id) LedgerDirection.credit ledger

abbrev pub went_back : ℕ → List LedgerEntry → ℕ
went_back id ledger =
    side_total (entry_of LedgerAccount.guest_refund_clearing id) LedgerDirection.credit ledger

-- The row and the ledger agree.
abbrev pub Agrees : List LedgerEntry → Payment → Type 0
Agrees ledger p =
    (came_in p.id ledger ≡ (if is_some p.captured_at then p.amount_minor else 0))
    × (went_back p.id ledger ≡ p.refunded_amount_minor)
    × ((is_open p.status && is_some p.captured_at) ≡ false)
    × (leb p.refunded_amount_minor p.amount_minor ≡ true)

abbrev pub AllAgree : List LedgerEntry → List Payment → Type 0
AllAgree ledger [] = Unit
AllAgree ledger (p ∷ rows) =
    (any (λ (q : Payment). p.id == q.id) rows ≡ false) × Agrees ledger p × AllAgree ledger rows

pub record IsReconciled (db : Db) : Type 0 where
  pub rows : AllAgree db.ledger db.payments
