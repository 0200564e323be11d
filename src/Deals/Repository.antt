-- ===== src/Deals/Repository.antt =====
-- The statements of backend/src/modules/deals/infrastructure/deal.repository.ts, with the checks
-- and the trigger of db/migrations/0008_flash_deals.sql. The title of a deal, a text that is only
-- shown, is left out, and so is the listing.
pub mod Stock
use last_chance_platform.Prelude.{
  ℕ, suc, ◌+◌, ◌-◌, ◌*◌, Bool, true, false, not, ◌&&◌, ◌||◌, Option, none, some, List, [], ◌∷◌, any,
  find?, filter, map, ltb, leb, ◌==◌, or_else, if◌then◌else◌,
}
use last_chance_platform.Prelude.Sql.{update_where}
use last_chance_platform.Prelude.Result.{Result, ok, err, fail_if, ◌>>=◌, ◌>>◌}
use last_chance_platform.Errors.{SqlState}
use last_chance_platform.Domain.Inventory.{StayUnit, Property}
use last_chance_platform.Domain.Deal.{FlashDealStatus, FlashDeal, CreateDealInput}
use last_chance_platform.World.Store.{Db}
use last_chance_platform.World.Effects.{Statement}

abbrev pub is_active : FlashDealStatus → Bool
is_active FlashDealStatus.active = true
is_active _ = false

abbrev pub is_scheduled : FlashDealStatus → Bool
is_scheduled FlashDealStatus.scheduled = true
is_scheduled _ = false

abbrev pub is_sold_out : FlashDealStatus → Bool
is_sold_out FlashDealStatus.sold_out = true
is_sold_out _ = false

-- ('SCHEDULED', 'ACTIVE')
abbrev pub is_live : FlashDealStatus → Bool
is_live s = is_scheduled s || is_active s

-- The host whose property has the unit.
unfoldable pub host_of_unit : ℕ → Db → Option ℕ
host_of_unit unit_id db = elim (find? (λ (u : StayUnit). u.id == unit_id) db.units) [
  | none ↦ none
  | some u ↦ elim (find? (λ (p : Property). p.id == u.property_id) db.properties) [
    | none ↦ none
    | some p ↦ some p.host_id
  ]
]

-- `tstzrange(from, to, '[)')` as `lower` and `upper` read it back: none of an empty range, and an
-- error when the bounds are the wrong way round
unfoldable pub stay_range : Option ℕ → Option ℕ → Result SqlState (Option (ℕ × ℕ))
stay_range (some from) (some to) =
    if ltb to from
    then err SqlState.other_state
    else if from == to
    then ok none
    else ok (some (from, to))
stay_range _ _ = ok none

abbrev range_from : Option (ℕ × ℕ) → Option ℕ
range_from none = none
range_from (some (from, to)) = some from

abbrev range_to : Option (ℕ × ℕ) → Option ℕ
range_to none = none
range_to (some (from, to)) = some to

abbrev max_deal_ms : ℕ
max_deal_ms = 259200000

-- `deals_no_overlap_per_unit`
unfoldable pub deals_clash : FlashDeal → FlashDeal → Bool
deals_clash a b =
    (a.unit_id == b.unit_id)
    && ((is_live a.status && is_live b.status)
        && (ltb a.starts_at b.ends_at && ltb b.starts_at a.ends_at))

-- The row of `create`, by the clock of the process.
unfoldable pub new_deal : ℕ → ℕ → CreateDealInput → ℕ → Option (ℕ × ℕ) → FlashDeal
new_deal id now input creator range = record {
  id = id;
  unit_id = input.unit_id;
  created_by = creator;
  discount_pct = input.discount_pct;
  status = if leb input.starts_at now then FlashDealStatus.active else FlashDealStatus.scheduled;
  starts_at = input.starts_at;
  ends_at = input.ends_at;
  applicable_stay_from = range_from range;
  applicable_stay_to = range_to range;
  quantity_total = input.quantity_total;
  quantity_claimed = 0;
}

-- An INSERT under the checks of the table.
unfoldable pub insert_deal_row : FlashDeal → Statement FlashDeal
insert_deal_row new db = do
  fail_if (ltb new.discount_pct 500 || ltb 9000 new.discount_pct) SqlState.check_violation
  fail_if (leb new.ends_at new.starts_at) SqlState.check_violation
  fail_if (ltb max_deal_ms (new.ends_at - new.starts_at)) SqlState.check_violation
  fail_if (new.quantity_total == 0) SqlState.check_violation
  fail_if (any (λ (d : FlashDeal). new.id == d.id) db.deals) SqlState.unique_violation
  fail_if (any (deals_clash new) db.deals) SqlState.exclusion_violation
  ok (new, record db { deals = new ∷ db.deals })

unfoldable pub insert_deal_of :
    ℕ → ℕ → CreateDealInput → Option ℕ → Result SqlState (Option (ℕ × ℕ)) → Statement FlashDeal
insert_deal_of id now input none range db = err SqlState.other_state
insert_deal_of id now input (some host) (err e) db = err e
insert_deal_of id now input (some host) (ok range) db =
    insert_deal_row (new_deal id now input (or_else input.created_by host) range) db

-- `create`: a unit that is not there fails, by its key or for want of a creator
unfoldable pub insert_deal : ℕ → ℕ → CreateDealInput → Statement FlashDeal
insert_deal id now input db =
    insert_deal_of id now input (host_of_unit input.unit_id db)
      (stay_range input.applicable_stay_from input.applicable_stay_to) db

-- `findById`
unfoldable pub find_deal : ℕ → Db → Option FlashDeal
find_deal id db = find? (λ (d : FlashDeal). id == d.id) db.deals

-- One more claim, with `fn_flash_deal_sold_out`.
unfoldable pub claimed_once : FlashDeal → FlashDeal
claimed_once d = record d {
  quantity_claimed = suc d.quantity_claimed;
  status =
      if suc d.quantity_claimed == d.quantity_total then FlashDealStatus.sold_out else d.status;
}

abbrev pub claimable : ℕ → FlashDeal → Bool
claimable id d = (id == d.id) && (is_active d.status && ltb d.quantity_claimed d.quantity_total)

abbrev claimed_count : Option FlashDeal → Option ℕ
claimed_count none = none
claimed_count (some d) = some (suc d.quantity_claimed)

-- `tryClaim`
unfoldable pub try_claim : ℕ → Statement (Option ℕ)
try_claim id db = ok (
  claimed_count (find? (claimable id) db.deals),
  record db { deals = update_where (claimable id) claimed_once db.deals },
)

abbrev pub due : ℕ → FlashDeal → Bool
due now d = is_scheduled d.status && (leb d.starts_at now && ltb now d.ends_at)

abbrev pub over : ℕ → FlashDeal → Bool
over now d = is_live d.status && leb d.ends_at now

abbrev deal_ids : List FlashDeal → List ℕ
deal_ids deals = map (λ (d : FlashDeal). d.id) deals

-- `activateDue`
unfoldable pub activate_due : ℕ → Statement (List ℕ)
activate_due now db = ok (
  deal_ids (filter (due now) db.deals),
  record db {
    deals =
        update_where (due now) (λ (d : FlashDeal). record d { status = FlashDealStatus.active })
          db.deals;
  },
)

-- `endExpired`
unfoldable pub end_expired : ℕ → Statement (List ℕ)
end_expired now db = ok (
  deal_ids (filter (over now) db.deals),
  record db {
    deals =
        update_where (over now) (λ (d : FlashDeal). record d { status = FlashDealStatus.ended })
          db.deals;
  },
)
