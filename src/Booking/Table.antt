-- ===== src/Booking/Table.antt =====
-- The table `bookings` as the database keeps it: the overlap guard, the checks and the triggers of
-- db/migrations/0006_bookings.sql, 0003_functions.sql and 0015_fsm_money_currency_integrity.sql.
-- Left out: foreign keys, the generated booking code, time stamps and the status history.
pub mod Invariant
pub mod Disjoint
pub mod Lookup
pub mod Evolution
pub mod Guard
use last_chance_platform.Prelude.{
  ℕ, zero, suc, ◌+◌, ◌*◌, Bool, true, false, not, ◌&&◌, ◌||◌, Option, none, some, List, [], ◌∷◌,
  any, find?, ltb, leb, ◌==◌, is_some, if◌then◌else◌,
}
use last_chance_platform.Prelude.Result.{Result, ok, err, fail_if, ◌>>=◌, ◌>>◌}
use last_chance_platform.Errors.{SqlState}
use last_chance_platform.Domain.Booking.{BookingStatus, same_status, is_blocking, Booking}
use last_chance_platform.Domain.Inventory.{AvailabilityBlock}
use last_chance_platform.World.Store.{Db}
use last_chance_platform.World.Effects.{Statement}
use last_chance_platform.Booking.Lifecycle.{booking_fsm_transitions}

-- The upper end of `fn_booking_block_range`: the stay and the cleaning buffer, half open.
abbrev pub block_end : ℕ → ℕ → ℕ
block_end check_out turnaround = check_out + turnaround * 60000

-- `&&` of two half-open ranges
abbrev pub overlaps : ℕ → ℕ → ℕ → ℕ → Bool
overlaps a_from a_until b_from b_until =
    (ltb a_from a_until && ltb b_from b_until) && (ltb a_from b_until && ltb b_from a_until)

abbrev pub ranges_overlap : Booking → Booking → Bool
ranges_overlap a b =
    overlaps a.check_in_utc (block_end a.check_out_utc a.turnaround_minutes) b.check_in_utc
      (block_end b.check_out_utc b.turnaround_minutes)

-- `bookings_no_double_booking`: two rows that may not both stand.
unfoldable pub clash : Booking → Booking → Bool
clash a b =
    (not (a.id == b.id) && (a.unit_id == b.unit_id))
    && ((is_blocking a.status && is_blocking b.status) && ranges_overlap a b)

-- An active block of the unit's calendar meets the window.
unfoldable pub calendar_blocked : List AvailabilityBlock → ℕ → ℕ → ℕ → Bool
calendar_blocked blocks unit_id from until =
    any (λ b. (b.unit_id == unit_id && b.is_active) && overlaps b.from_utc b.until_utc from until)
      blocks

-- `fn_booking_check_host_blocks`, with the WHEN of its trigger
abbrev pub host_blocked : List AvailabilityBlock → Booking → Bool
host_blocked blocks b =
    is_blocking b.status
    && calendar_blocked blocks b.unit_id b.check_in_utc
        (block_end b.check_out_utc b.turnaround_minutes)

-- `bookings_valid_window`, `bookings_price_consistency`, `bookings_split_exact`,
-- `bookings_hold_required` and the checks of two columns
unfoldable pub row_checks : Booking → Bool
row_checks b =
    (ltb b.check_in_utc b.check_out_utc
      && (b.total_amount_minor + b.discount_minor
          == b.base_amount_minor + b.cleaning_fee_minor + b.service_fee_minor + b.taxes_minor))
    && ((b.commission_minor + b.host_payout_minor + b.discount_minor == b.base_amount_minor)
        && ((not (same_status b.status BookingStatus.pending_payment) || is_some b.hold_expires_at)
            && (ltb 0 b.guests_count && leb b.turnaround_minutes 240)))

-- the test of `fn_booking_fsm_guard`
unfoldable pub fsm_allows : BookingStatus → BookingStatus → Bool
fsm_allows from to =
    same_status from to
    || any (λ row. same_status row.0 from && same_status row.1 to) booking_fsm_transitions

-- what `fn_booking_fsm_guard` locks, as `LC401`
unfoldable pub locked_fields_changed : Booking → Booking → Bool
locked_fields_changed old new =
    not (
      (new.unit_id == old.unit_id && new.guest_id == old.guest_id)
      && new.property_id == old.property_id)
    || (not (same_status old.status BookingStatus.draft)
        && not (
            (new.check_in_utc == old.check_in_utc && new.check_out_utc == old.check_out_utc)
            && (new.turnaround_minutes == old.turnaround_minutes
                && new.total_amount_minor == old.total_amount_minor)))

-- `fn_booking_insert_guard`
abbrev pub insertable : BookingStatus → Bool
insertable BookingStatus.draft = true
insertable BookingStatus.pending_payment = true
insertable _ = false

-- One INSERT: triggers, checks, the primary key, the overlap guard.
unfoldable pub insert_row : Booking → Statement Booking
insert_row new db = do
  fail_if (host_blocked db.blocks new) SqlState.lc409
  fail_if (not (insertable new.status)) SqlState.lc402
  fail_if (not (row_checks new)) SqlState.check_violation
  fail_if (any (λ b. new.id == b.id) db.bookings) SqlState.unique_violation
  fail_if (any (clash new) db.bookings) SqlState.exclusion_violation
  ok (new, record db { bookings = new ∷ db.bookings })

unfoldable pub replace : Booking → List Booking → List Booking
replace new [] = []
replace new (b ∷ rows) = (if new.id == b.id then new else b) ∷ replace new rows

-- What an UPDATE of one row to `new` does.
unfoldable pub write_row : Booking → Booking → Statement (Option Booking)
write_row old new db = do
  fail_if (host_blocked db.blocks new) SqlState.lc409
  fail_if (not (fsm_allows old.status new.status)) SqlState.lc400
  fail_if (locked_fields_changed old new) SqlState.lc401
  fail_if (not (row_checks new)) SqlState.check_violation
  fail_if (any (clash new) db.bookings) SqlState.exclusion_violation
  ok (some new, record db { bookings = replace new db.bookings })

-- The row that an UPDATE matched, if any.
unfoldable pub write_found : (Booking → Booking) → Option Booking → Statement (Option Booking)
write_found set none db = ok (none, db)
write_found set (some old) db = write_row old (set old) db

-- `UPDATE bookings SET … WHERE id = $1 AND …` with its RETURNING: no row, or the one with the id.
unfoldable pub update_row : ℕ → (Booking → Bool) → (Booking → Booking) → Statement (Option Booking)
update_row id where_also set db =
    write_found set (find? (λ b. id == b.id && where_also b) db.bookings) db
