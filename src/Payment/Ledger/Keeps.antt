-- ===== src/Payment/Ledger/Keeps.antt =====
-- About the statements that write no ledger entry and the groups of the ledger
-- (backend/src/modules/payment/infrastructure).
use last_chance_platform.Prelude.{ℕ, ◌≡◌, String, Bool, Option, arith}
use last_chance_platform.Prelude.Result.{ok}
use last_chance_platform.Domain.Booking.{Booking}
use last_chance_platform.Domain.Payment.{PaymentProviderName, WebhookStatus, Payload, RefundReason}
use last_chance_platform.World.Store.{Db}
use last_chance_platform.World.Effects.{Statement}
use last_chance_platform.World.Keeps.{StatementPreserves, preserves_rules}
use last_chance_platform.Booking.Table.{insert_row, write_row, write_found, update_row}
use last_chance_platform.Booking.Repository.Preserves.{Writes}
use last_chance_platform.Payment.Ledger.Balance.{IsBalanced, post_group-Preserves}
use last_chance_platform.Payment.Repository.{
  mark_captured, mark_payment_failed, insert_refund, attach_provider_refund, add_refunded,
  settle_refund_row,
}
use last_chance_platform.Payment.Inbox.{
  record_event, claim_for_processing, mark_event, insert_payout, mark_in_transit, mark_paid,
  mark_payout_failed,
}

-- What a statement that has taken effect left of the ledger.
record KeepsLedger {A : Type 0} (s : Statement A) : Type 0 where
  same : (d : Db) (a : A) (d' : Db) → s d ≡ ok (a, d') → d.ledger ≡ d'.ledger

pub IsBalanced-ledger : (d d' : Db) → d.ledger ≡ d'.ledger → IsBalanced d → IsBalanced d'
IsBalanced-ledger d d' e b = record { groups = λ g c. rw e at (b.groups g c) }

keeps-IsBalanced : {A : Type 0} (s : Statement A) → KeepsLedger s → StatementPreserves IsBalanced s
keeps-IsBalanced s k = record {
  after = λ d {a} {d'} e b. IsBalanced-ledger d d' (k.same d a d' e) b;
}

insert_row-KeepsLedger : (new : Booking) → KeepsLedger (insert_row new)
unfolding insert_row
insert_row-KeepsLedger new = record { same = λ d a d' e. ground arith }

update_row-KeepsLedger :
    (id : ℕ) (where_also : Booking → Bool) (set : Booking → Booking)
    → KeepsLedger (update_row id where_also set)
unfolding update_row write_found write_row
update_row-KeepsLedger id where_also set = record { same = λ d a d' e. ground arith }

pub IsBalanced-Writes : Writes IsBalanced
IsBalanced-Writes = record {
  inserts = λ new. keeps-IsBalanced (insert_row new) (insert_row-KeepsLedger new);
  updates = λ id where_also set same.
      keeps-IsBalanced (update_row id where_also set) (update_row-KeepsLedger id where_also set);
}

pub mark_captured-keeps : (now id : ℕ) → StatementPreserves IsBalanced (mark_captured now id)
unfolding mark_captured
mark_captured-keeps now id = record {
  after = λ d {a} {d'} e b. IsBalanced-ledger d d' (ground arith) b;
}

pub mark_payment_failed-keeps :
    (id : ℕ) (c m : Option String) → StatementPreserves IsBalanced (mark_payment_failed id c m)
unfolding mark_payment_failed
mark_payment_failed-keeps id c m = record {
  after = λ d {a} {d'} e b. IsBalanced-ledger d d' (ground arith) b;
}

pub insert_refund-keeps :
    (id pid n : ℕ) (c : String) (r : RefundReason)
    → StatementPreserves IsBalanced (insert_refund id pid n c r)
unfolding insert_refund
insert_refund-keeps id pid n c r = record {
  after = λ d {a} {d'} e b. IsBalanced-ledger d d' (ground arith) b;
}

pub attach_provider_refund-keeps :
    (id : ℕ) (ref : String) → StatementPreserves IsBalanced (attach_provider_refund id ref)
unfolding attach_provider_refund
attach_provider_refund-keeps id ref = record {
  after = λ d {a} {d'} e b. IsBalanced-ledger d d' (ground arith) b;
}

pub add_refunded-keeps : (id n : ℕ) → StatementPreserves IsBalanced (add_refunded id n)
unfolding add_refunded
add_refunded-keeps id n = record {
  after = λ d {a} {d'} e b. IsBalanced-ledger d d' (ground arith) b;
}

pub settle_refund_row-keeps :
    (id : ℕ) (ref : String) → StatementPreserves IsBalanced (settle_refund_row id ref)
unfolding settle_refund_row
settle_refund_row-keeps id ref = record {
  after = λ d {a} {d'} e b. IsBalanced-ledger d d' (ground arith) b;
}

pub record_event-keeps :
    (id : ℕ) (p : PaymentProviderName) (ref : String) (body : Payload) (v : Bool)
    (s : WebhookStatus)
    → StatementPreserves IsBalanced (record_event id p ref body v s)
unfolding record_event
record_event-keeps id p ref body v s = record {
  after = λ d {a} {d'} e b. IsBalanced-ledger d d' (ground arith) b;
}

pub claim_for_processing-keeps : (id : ℕ) → StatementPreserves IsBalanced (claim_for_processing id)
unfolding claim_for_processing
claim_for_processing-keeps id = record {
  after = λ d {a} {d'} e b. IsBalanced-ledger d d' (ground arith) b;
}

pub mark_event-keeps :
    (id : ℕ) (s : WebhookStatus) → StatementPreserves IsBalanced (mark_event id s)
unfolding mark_event
mark_event-keeps id s = record { after = λ d {a} {d'} e b. IsBalanced-ledger d d' (ground arith) b }

pub insert_payout-keeps :
    (id h k n : ℕ) (c : String) (p : PaymentProviderName)
    → StatementPreserves IsBalanced (insert_payout id h k n c p)
unfolding insert_payout
insert_payout-keeps id h k n c p = record {
  after = λ d {a} {d'} e b. IsBalanced-ledger d d' (ground arith) b;
}

pub mark_in_transit-keeps :
    (id : ℕ) (p : PaymentProviderName) (t : String)
    → StatementPreserves IsBalanced (mark_in_transit id p t)
unfolding mark_in_transit
mark_in_transit-keeps id p t = record {
  after = λ d {a} {d'} e b. IsBalanced-ledger d d' (ground arith) b;
}

pub mark_paid-keeps : (now id : ℕ) → StatementPreserves IsBalanced (mark_paid now id)
unfolding mark_paid
mark_paid-keeps now id = record {
  after = λ d {a} {d'} e b. IsBalanced-ledger d d' (ground arith) b;
}

pub mark_payout_failed-keeps : (id : ℕ) → StatementPreserves IsBalanced (mark_payout_failed id)
unfolding mark_payout_failed
mark_payout_failed-keeps id = record {
  after = λ d {a} {d'} e b. IsBalanced-ledger d d' (ground arith) b;
}

pub ruleset ledger_rules = (
  preserves_rules, post_group-Preserves, mark_captured-keeps, mark_payment_failed-keeps,
  insert_refund-keeps, attach_provider_refund-keeps, add_refunded-keeps, settle_refund_row-keeps,
  record_event-keeps, claim_for_processing-keeps, mark_event-keeps, insert_payout-keeps,
  mark_in_transit-keeps, mark_paid-keeps, mark_payout_failed-keeps,
)
