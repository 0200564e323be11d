-- ===== src/Deals/Repository/Stock.antt =====
-- What the statements keep true of the stock of every deal.
use last_chance_platform.Prelude.{
  ℕ, ◌≡◌, refl, Bool, true, false, not, ◌&&◌, ◌||◌, Option, none, some, List, [], ◌∷◌, ltb, leb,
  ◌==◌, arith, or_else,
}
use last_chance_platform.Prelude.Sql.{update_where}
use last_chance_platform.Prelude.Result.{Result, ok, err}
use last_chance_platform.Errors.{SqlState}
use last_chance_platform.Domain.Booking.{Booking}
use last_chance_platform.Domain.Deal.{FlashDealStatus, FlashDeal, CreateDealInput}
use last_chance_platform.World.Store.{Db}
use last_chance_platform.World.Keeps.{StatementPreserves}
use last_chance_platform.Booking.Table.{insert_row, write_row, write_found, update_row}
use last_chance_platform.Booking.Repository.Preserves.{Writes}
use last_chance_platform.Deals.Repository.{
  is_live, insert_deal_row, insert_deal_of, insert_deal, new_deal, claimed_once, claimable,
  try_claim, due, over, activate_due, end_expired, host_of_unit, stay_range,
}

-- Nothing is claimed beyond the total, and where a deal may still be claimed something is left.
abbrev pub in_stock : FlashDeal → Bool
in_stock d =
    leb d.quantity_claimed d.quantity_total
    && (not (is_live d.status) || ltb d.quantity_claimed d.quantity_total)

abbrev pub all_in_stock : List FlashDeal → Bool
all_in_stock [] = true
all_in_stock (d ∷ deals) = in_stock d && all_in_stock deals

pub record IsStocked (db : Db) : Type 0 where
  pub deals : all_in_stock db.deals ≡ true

update_where-in_stock :
    (p : FlashDeal → Bool) (set : FlashDeal → FlashDeal) (deals : List FlashDeal)
    → ((d : FlashDeal) → p d ≡ true → in_stock d ≡ true → in_stock (set d) ≡ true)
    → all_in_stock deals ≡ true
    → all_in_stock (update_where p set deals) ≡ true
update_where-in_stock p set [] kept h = refl
update_where-in_stock p set (d ∷ deals) kept h =
    ground (arith, kept d, update_where-in_stock p set deals kept)

claimed_once-in_stock :
    (id : ℕ) (d : FlashDeal)
    → claimable id d ≡ true
    → in_stock d ≡ true
    → in_stock (claimed_once d) ≡ true
unfolding claimed_once
claimed_once-in_stock id d c h = ground arith

pub try_claim-preserves : (id : ℕ) → StatementPreserves IsStocked (try_claim id)
unfolding try_claim
try_claim-preserves id = record {
  after = λ d e s. ground (
    arith,
    s.deals,
    update_where-in_stock (claimable id) claimed_once d.deals (claimed_once-in_stock id),
  );
}

pub insert_deal_row-preserves :
    (new : FlashDeal) → in_stock new ≡ true → StatementPreserves IsStocked (insert_deal_row new)
unfolding insert_deal_row
insert_deal_row-preserves new ok_new = record { after = λ d e s. ground (arith, s.deals) }

new_deal-in_stock :
    (id now : ℕ) (input : CreateDealInput) (creator : ℕ) (range : Option (ℕ × ℕ))
    → (input.quantity_total == 0) ≡ false
    → in_stock (new_deal id now input creator range) ≡ true
unfolding new_deal
new_deal-in_stock id now input creator range h = ground arith

insert_of_IsStocked :
    (new : FlashDeal)
    → ((new.quantity_total == 0) ≡ false → in_stock new ≡ true)
    → StatementPreserves IsStocked (insert_deal_row new)
unfolding insert_deal_row
insert_of_IsStocked new stocked = record { after = λ d e s. ground (arith, s.deals, stocked) }

insert_deal_of-preserves :
    (id now : ℕ) (input : CreateDealInput) (host : Option ℕ)
    (range : Result SqlState (Option (ℕ × ℕ)))
    → StatementPreserves IsStocked (insert_deal_of id now input host range)
unfolding insert_deal_of
insert_deal_of-preserves id now input none range = record { after = λ d e s. absurd (ground arith) }
insert_deal_of-preserves id now input (some host) (err x) = record {
  after = λ d e s. absurd (ground arith);
}
insert_deal_of-preserves id now input (some host) (ok range) =
    insert_of_IsStocked (new_deal id now input (or_else input.created_by host) range)
      (unfold new_deal in new_deal-in_stock id now input (or_else input.created_by host) range)

pub insert_deal-preserves :
    (id now : ℕ) (input : CreateDealInput) → StatementPreserves IsStocked (insert_deal id now input)
unfolding insert_deal
insert_deal-preserves id now input = record {
  after = λ d e s.
      (insert_deal_of-preserves id now input (host_of_unit input.unit_id d)
          (stay_range input.applicable_stay_from input.applicable_stay_to)).after
        d e s;
}

pub activate_due-preserves : (now : ℕ) → StatementPreserves IsStocked (activate_due now)
unfolding activate_due
activate_due-preserves now = record {
  after = λ d e s. ground (
    arith,
    s.deals,
    update_where-in_stock (due now)
        (λ (x : FlashDeal). record x { status = FlashDealStatus.active }) d.deals
        (λ x. activated x),
  );
}
  where
    activated :
        (x : FlashDeal)
        → due now x ≡ true
        → in_stock x ≡ true
        → in_stock (record x { status = FlashDealStatus.active }) ≡ true
    activated x hd hs = ground arith

pub end_expired-preserves : (now : ℕ) → StatementPreserves IsStocked (end_expired now)
unfolding end_expired
end_expired-preserves now = record {
  after = λ d e s. ground (
    arith,
    s.deals,
    update_where-in_stock (over now)
        (λ (x : FlashDeal). record x { status = FlashDealStatus.ended }) d.deals (λ x. finished x),
  );
}
  where
    finished :
        (x : FlashDeal)
        → over now x ≡ true
        → in_stock x ≡ true
        → in_stock (record x { status = FlashDealStatus.ended }) ≡ true
    finished x hd hs = ground arith

insert_row-IsStocked : (new : Booking) → StatementPreserves IsStocked (insert_row new)
unfolding insert_row
insert_row-IsStocked new = record { after = λ d e s. ground (arith, s.deals) }

update_row-IsStocked :
    (id : ℕ) (where_also : Booking → Bool) (set : Booking → Booking)
    → StatementPreserves IsStocked (update_row id where_also set)
unfolding update_row write_found write_row
update_row-IsStocked id where_also set = record { after = λ d e s. ground (arith, s.deals) }

pub IsStocked-Writes : Writes IsStocked
IsStocked-Writes = record {
  inserts = insert_row-IsStocked;
  updates = λ id where_also set same. update_row-IsStocked id where_also set;
}
