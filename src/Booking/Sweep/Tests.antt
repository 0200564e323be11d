-- ===== src/Booking/Sweep/Tests.antt =====
-- Sweeps of the sample rows: one hold is over since 2000, and one lasts until 9000.
use last_chance_platform.Prelude.{
  ℕ, ◌≤◌, ◌≡◌, refl, Bool, false, some, List, [], ◌∷◌, length, any, All, arith,
}
use last_chance_platform.Prelude.Result.{ok}
use last_chance_platform.Domain.Booking.{BookingStatus, Booking}
use last_chance_platform.World.Store.{World}
use last_chance_platform.World.Effects.{query}
use last_chance_platform.Booking.Table.{
  clash, row_checks, calendar_blocked, fsm_allows, locked_fields_changed, replace, write_row,
  write_found, update_row,
}
use last_chance_platform.Booking.Table.Invariant.{IsValid}
use last_chance_platform.Booking.Sweep.{
  stale, insert_by_expiry, order_by_expiry, limited, to_expire, expire_each, fn_expire_stale_holds,
  sweep_stale_holds,
}
use last_chance_platform.Booking.Sweep.Outcome.{swept, WasStale, sweep_expires, sweep_complete}
use last_chance_platform.Samples.{night, held_night, next_night, tables, world_of}

abbrev late_hold : Booking
late_hold = record (night 3 BookingStatus.pending_payment 200000000) { hold_expires_at = some 9000 }

abbrev early_hold : Booking
early_hold = record (night 4 BookingStatus.pending_payment 300000000) {
  hold_expires_at = some 1500;
}

abbrev holds : World
holds = world_of (tables (late_hold ∷ held_night ∷ next_night ∷ early_hold ∷ []) [])

abbrev nobody : ℕ → Bool
nobody _ = false

-- The hold that ended first goes first; the instant of the end itself is not yet over.
in_order : to_expire 2001 nobody 500 holds.db.bookings ≡ 4 ∷ 1 ∷ []
unfolding to_expire order_by_expiry insert_by_expiry limited
in_order = refl

at_the_end : to_expire 2000 nobody 500 holds.db.bookings ≡ 4 ∷ []
unfolding to_expire order_by_expiry insert_by_expiry limited
at_the_end = refl

first_only : to_expire 2001 nobody 1 holds.db.bookings ≡ 4 ∷ []
unfolding to_expire order_by_expiry insert_by_expiry limited
first_only = refl

holds-IsValid : IsValid holds.db
unfolding clash row_checks calendar_blocked
holds-IsValid = record {
  rows = (
    refl,
    refl,
    refl,
    refl,
    (refl, refl, refl, refl, (refl, refl, refl, refl, (refl, refl, refl, refl, tt))),
  );
}

sweep_expires_example :
    (ids : List ℕ) × (sweep_stale_holds 2001 nobody holds ≡ (ok ids, swept ids holds))
    × (length ids ≤ 500)
    × All (WasStale 2001 nobody holds.db.bookings) ids
sweep_expires_example = sweep_expires 2001 nobody holds holds-IsValid

swept_two : sweep_stale_holds 2001 nobody holds ≡ (ok (4 ∷ 1 ∷ []), swept (4 ∷ 1 ∷ []) holds)
unfolding sweep_stale_holds fn_expire_stale_holds to_expire order_by_expiry insert_by_expiry limited
    expire_each update_row write_found write_row fsm_allows locked_fields_changed row_checks clash
    calendar_blocked replace query
swept_two = refl

sweep_complete_example : any (stale 2001 nobody) (swept (4 ∷ 1 ∷ []) holds).db.bookings ≡ false
sweep_complete_example =
    sweep_complete 2001 nobody holds (swept (4 ∷ 1 ∷ []) holds) (4 ∷ 1 ∷ []) holds-IsValid swept_two
      (omega arith)
