-- ===== src/Payment/Ledger/Balance.antt =====
-- Every group of the ledger has as much on one side as on the other.
use last_chance_platform.Prelude.{
  ℕ, ◌+◌, ◌≡◌, String, Bool, ◌&&◌, List, [], ◌∷◌, arith, ◌==◌, if◌then◌else◌, same_text,
}
use last_chance_platform.Prelude.Action.{◌>>=◌}
use last_chance_platform.Domain.Payment.{LedgerDirection, LedgerLeg, LedgerEntry}
use last_chance_platform.World.Store.{Db}
use last_chance_platform.World.Effects.{exec}
use last_chance_platform.World.Keeps.{Preserves}
use last_chance_platform.Payment.Ledger.{leg_total, insert_legs, post_group, side_total}

abbrev pub of_group : ℕ → String → LedgerEntry → Bool
of_group group currency e = (e.entry_group_id == group) && same_text e.currency currency

pub record IsBalanced (db : Db) : Type 0 where
  pub groups :
      (group : ℕ) (currency : String)
      → side_total (of_group group currency) LedgerDirection.debit db.ledger
        ≡ side_total (of_group group currency) LedgerDirection.credit db.ledger

-- What a group of legs adds to one side of a group of entries.
side_total-insert_legs :
    (g group : ℕ) (c currency : String) (side : LedgerDirection) (legs : List LedgerLeg)
    (ledger : List LedgerEntry)
    → side_total (of_group g c) side (insert_legs group currency legs ledger) ≡ (
        (if (group == g) && same_text currency c then leg_total side legs else 0)
        + side_total (of_group g c) side ledger)
unfolding insert_legs side_total leg_total
side_total-insert_legs g group c currency side [] ledger = ground arith
side_total-insert_legs g group c currency side (l ∷ legs) ledger = ground (
  arith,
  side_total-insert_legs g group c currency side legs ledger,
  side_total-insert_legs g group c currency side legs
      (record { entry_group_id = group; leg = l; currency = currency } ∷ ledger),
)

insert_legs-IsBalanced :
    (group : ℕ) (currency : String) (legs : List LedgerLeg) (d : Db)
    → leg_total LedgerDirection.debit legs ≡ leg_total LedgerDirection.credit legs
    → IsBalanced d
    → IsBalanced (record d { ledger = insert_legs group currency legs d.ledger })
insert_legs-IsBalanced group currency legs d even b = record {
  groups = λ g c. ground (
    arith,
    b.groups g c,
    side_total-insert_legs g group c currency LedgerDirection.debit legs d.ledger,
    side_total-insert_legs g group c currency LedgerDirection.credit legs d.ledger,
  );
}

pub post_group-Preserves :
    (group : ℕ) (currency : String) (legs : List LedgerLeg)
    → Preserves IsBalanced (post_group group currency legs)
unfolding post_group ◌>>=◌ exec
post_group-Preserves group currency legs = record {
  after = λ w b. ground (arith, b, insert_legs-IsBalanced group currency legs w.db);
}
