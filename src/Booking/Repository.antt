-- ===== src/Booking/Repository.antt =====
-- The statements of backend/src/modules/booking/infrastructure/booking.repository.ts and
-- unit.repository.ts, over the table of `Booking.Table`.
pub mod Preserves
use last_chance_platform.Prelude.{
  ℕ, zero, suc, String, ◌+◌, Bool, true, false, not, ◌&&◌, ◌||◌, Option, none, some, List, [], ◌∷◌,
  any, find?, filter, map, ltb, leb, ◌==◌, if◌then◌else◌,
}
use last_chance_platform.Prelude.Int.{ℤ, pos, negsuc}
use last_chance_platform.Prelude.Result.{Result, ok, err, ◌>>=◌}
use last_chance_platform.Errors.{SqlState}
use last_chance_platform.Domain.Booking.{
  BookingStatus, same_status, is_blocking, BookingType, BookingSource, ActorType, Booking,
}
use last_chance_platform.Domain.Inventory.{
  UnitStatus, PropertyStatus, ModerationStatus, StayUnit, Property, HostProfile,
}
use last_chance_platform.World.Store.{Db}
use last_chance_platform.World.Effects.{Statement}
use last_chance_platform.Booking.Pricing.{PriceQuote}
use last_chance_platform.Booking.Table.{
  block_end, overlaps, calendar_blocked, insert_row, update_row,
}

-- `hasConflict`
unfoldable pub has_conflict : ℕ → ℕ → ℕ → ℕ → Db → Bool
has_conflict unit_id check_in check_out turnaround db =
    any
      (λ b.
        (b.unit_id == unit_id && is_blocking b.status)
        && overlaps b.check_in_utc (block_end b.check_out_utc b.turnaround_minutes) check_in
            (block_end check_out turnaround))
      db.bookings
    || calendar_blocked db.blocks unit_id check_in (block_end check_out turnaround)

pub record InsertHoldParams : Type 0 where
  pub guest_id : ℕ
  pub unit_id : ℕ
  pub property_id : ℕ
  pub booking_type : BookingType
  pub source : BookingSource
  pub check_in_utc : ℕ
  pub check_out_utc : ℕ
  pub turnaround_minutes : ℕ
  pub guests_count : ℕ
  pub hold_expires_at : ℕ
  pub quote : PriceQuote
  pub flash_deal_id : Option ℕ

-- The row of an INSERT, once the payout is known to fit its column.
unfoldable pub held : ℕ → InsertHoldParams → ℕ → Booking
held id p payout = record {
  id = id;
  guest_id = p.guest_id;
  unit_id = p.unit_id;
  property_id = p.property_id;
  booking_type = p.booking_type;
  status = BookingStatus.pending_payment;
  source = p.source;
  check_in_utc = p.check_in_utc;
  check_out_utc = p.check_out_utc;
  turnaround_minutes = p.turnaround_minutes;
  guests_count = p.guests_count;
  hold_expires_at = some p.hold_expires_at;
  currency = p.quote.currency;
  base_amount_minor = p.quote.base_amount_minor;
  cleaning_fee_minor = p.quote.cleaning_fee_minor;
  service_fee_minor = p.quote.service_fee_minor;
  taxes_minor = p.quote.taxes_minor;
  discount_minor = p.quote.discount_minor;
  total_amount_minor = p.quote.total_amount_minor;
  commission_pct = p.quote.commission_pct;
  commission_minor = p.quote.commission_minor;
  host_payout_minor = payout;
  flash_deal_id = p.flash_deal_id;
  cancelled_at = none;
  cancelled_by = none;
  cancellation_reason = none;
}

-- The column `host_payout_minor` takes no negative amount.
unfoldable pub insert_paying : ℕ → InsertHoldParams → ℤ → Statement Booking
insert_paying id p (pos payout) db = insert_row (held id p payout) db
insert_paying id p (negsuc _) db = err SqlState.check_violation

-- `insertHold`
unfoldable pub insert_hold : ℕ → InsertHoldParams → Statement Booking
insert_hold id p = insert_paying id p p.quote.host_payout_minor

-- `findById`
unfoldable pub find_by_id : ℕ → Db → Option Booking
find_by_id id db = find? (λ b. id == b.id) db.bookings

abbrev pub has_status : BookingStatus → Booking → Bool
has_status s b = same_status b.status s

-- `hold_expires_at > now()` and `hold_expires_at <= now()`, false of NULL
abbrev pub hold_alive : ℕ → Option ℕ → Bool
hold_alive now none = false
hold_alive now (some t) = ltb now t

abbrev pub hold_lapsed : ℕ → Option ℕ → Bool
hold_lapsed now none = false
hold_lapsed now (some t) = leb t now

-- `confirmHold`
unfoldable pub confirm_hold : ℕ → ℕ → Statement (Option Booking)
confirm_hold now id =
    update_row id
      (λ b. has_status BookingStatus.pending_payment b && hold_alive now b.hold_expires_at)
      (λ b. record b { status = BookingStatus.confirmed })

-- `transition`
unfoldable pub transition : ℕ → BookingStatus → BookingStatus → Statement (Option Booking)
transition id from to = update_row id (has_status from) (λ b. record b { status = to })

-- `cancel`
unfoldable pub cancel_row :
    ℕ → ℕ → BookingStatus → ActorType → Option String → Statement (Option Booking)
cancel_row now id from cancelled_by reason = update_row id (has_status from) (λ b. record b {
  status = BookingStatus.cancelled;
  cancelled_at = some now;
  cancelled_by = some cancelled_by;
  cancellation_reason = reason;
})

-- `expireIfLapsed`
unfoldable pub expire_if_lapsed : ℕ → ℕ → Statement (Option Booking)
expire_if_lapsed now id =
    update_row id
      (λ b. has_status BookingStatus.pending_payment b && hold_lapsed now b.hold_expires_at)
      (λ b. record b { status = BookingStatus.expired })

-- `findParties`: the guest and, through the property, the host
unfoldable pub find_parties : ℕ → Db → Option (ℕ × ℕ)
find_parties id db = elim (find? (λ b. id == b.id) db.bookings) [
  | none ↦ none
  | some b ↦ elim (find? (λ (p : Property). p.id == b.property_id) db.properties) [
    | none ↦ none
    | some p ↦ some (b.guest_id, p.host_id)
  ]
]

-- The join of `findBookable`: a unit that is not deleted, its property and its host.
unfoldable pub unit_row : ℕ → Db → Option (StayUnit × Property × HostProfile)
unit_row unit_id db =
    elim (find? (λ (u : StayUnit). u.id == unit_id && not u.is_deleted) db.units) [
      | none ↦ none
      | some u ↦ elim (find? (λ (p : Property). p.id == u.property_id) db.properties) [
        | none ↦ none
        | some p ↦ elim (find? (λ (h : HostProfile). h.user_id == p.host_id) db.hosts) [
          | none ↦ none
          | some h ↦ some (u, p, h)
        ]
      ]
    ]
