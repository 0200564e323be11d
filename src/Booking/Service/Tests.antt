-- ===== src/Booking/Service/Tests.antt =====
-- The booking calls and the table on sample rows.
use mathlib.Core.List.{Memᴰ}
use last_chance_platform.Prelude.{
  ◌≡◌, refl, sym, true, false, ◌&&◌, ◌||◌, none, some, List, [], ◌∷◌, arith,
}
use last_chance_platform.Prelude.Result.{ok}
use last_chance_platform.Domain.Booking.{BookingStatus, is_blocking, ActorType, Booking}
use last_chance_platform.World.Store.{Db, World, Job, create_refund}
use last_chance_platform.Domain.Payment.{by_cancellation}
use last_chance_platform.World.Effects.{Env}
use last_chance_platform.World.Keeps.{EnvPreserves}
use last_chance_platform.Booking.Lifecycle.{can_move}
use last_chance_platform.Booking.Table.{clash, row_checks, calendar_blocked, fsm_allows}
use last_chance_platform.Booking.Table.Invariant.{IsValid}
use last_chance_platform.Booking.Table.Disjoint.{DisjointStays, no_double_booking}
use last_chance_platform.Booking.Table.Guard.{fsm_allows-can_move}
use last_chance_platform.Booking.Table.Lookup.{row_by_id}
use last_chance_platform.Booking.Table.Evolution.{Continues}
use last_chance_platform.Booking.Repository.{find_by_id, has_status, hold_alive}
use last_chance_platform.Booking.Service.{confirm, cancel}
use last_chance_platform.Booking.Service.History.{Call, run_calls, run_calls-IsValid}
use last_chance_platform.Booking.Service.Progress.{run_calls-Continues, over_for_good, is_over}
use last_chance_platform.Booking.Service.Outcome.{Updated, confirm-Updated, cancel-Updated}
use last_chance_platform.Booking.Service.Succeeds.{confirm_succeeds, cancel_succeeds, moved_to}
use last_chance_platform.Samples.{
  night, held_night, next_night, tables, two_nights, world_of, alone,
}

two_nights-IsValid : IsValid two_nights.db
unfolding clash row_checks calendar_blocked
two_nights-IsValid = record { rows = (refl, refl, refl, refl, (refl, refl, refl, refl, tt)) }

alone-EnvPreserves : {P : Db → Type 0} → EnvPreserves P alone
alone-EnvPreserves = record { after = λ k w h. h }

abbrev pay_then_cancel : List (Env × Call)
pay_then_cancel =
    (alone, Call.confirm_booking 1) ∷ (alone, Call.cancel_booking 1 ActorType.guest none) ∷ []

no_double_booking_example : DisjointStays held_night next_night
no_double_booking_example =
    no_double_booking two_nights.db held_night next_night two_nights-IsValid (Memᴰ.head refl)
      (Memᴰ.tail (Memᴰ.head refl)) (λ e. absurd (omega arith)) refl refl refl

run_calls-IsValid_example : IsValid (run_calls pay_then_cancel two_nights).db
run_calls-IsValid_example =
    run_calls-IsValid pay_then_cancel two_nights (alone-EnvPreserves, (alone-EnvPreserves, tt))
      two_nights-IsValid

run_calls-Continues_example :
    (b : Booking) × (row_by_id 1 (run_calls pay_then_cancel two_nights).db.bookings ≡ some b)
    × Continues held_night b
run_calls-Continues_example =
    run_calls-Continues pay_then_cancel two_nights 1 held_night
      (alone-EnvPreserves, (alone-EnvPreserves, tt)) two_nights-IsValid refl

abbrev lapsed_night : World
lapsed_night = world_of (tables (night 1 BookingStatus.expired 100000 ∷ []) [])

lapsed_night-IsValid : IsValid lapsed_night.db
unfolding row_checks
lapsed_night-IsValid = record { rows = (refl, refl, refl, refl, tt) }

over_for_good_example :
    (b : Booking) × (row_by_id 1 (run_calls pay_then_cancel lapsed_night).db.bookings ≡ some b)
    × (is_over b.status ≡ true)
    × (is_blocking b.status ≡ false)
over_for_good_example =
    over_for_good pay_then_cancel lapsed_night 1 (night 1 BookingStatus.expired 100000)
      (alone-EnvPreserves, (alone-EnvPreserves, tt)) lapsed_night-IsValid refl refl

confirm_succeeds_example :
    (confirm alone 1 two_nights).0 ≡ ok (record held_night { status = BookingStatus.confirmed })
unfolding find_by_id
confirm_succeeds_example =
    confirm_succeeds alone 1 two_nights held_night held_night refl refl two_nights-IsValid refl refl
      refl

confirm-Updated_example :
    Updated 1
      (λ r. has_status BookingStatus.pending_payment r && hold_alive 1000 r.hold_expires_at)
      (λ r. record r { status = BookingStatus.confirmed })
      two_nights.db
      (confirm alone 1 two_nights).1.db
      (record held_night { status = BookingStatus.confirmed })
confirm-Updated_example =
    confirm-Updated alone 1 two_nights (record held_night { status = BookingStatus.confirmed })
      confirm_succeeds_example

may_cancel : can_move BookingStatus.pending_payment BookingStatus.cancelled ≡ true
may_cancel =
    sym (
      unfold fsm_allows in
      fsm_allows-can_move BookingStatus.pending_payment BookingStatus.cancelled)

cancel_succeeds_example :
    ((cancel alone 1 ActorType.guest none two_nights).0
      ≡ ok (moved_to BookingStatus.cancelled (some 1000) (some ActorType.guest) none held_night))
    × ((rest : List Job) × ((cancel alone 1 ActorType.guest none two_nights).1.jobs
          ≡ create_refund 1 (by_cancellation ActorType.guest) ∷ rest))
unfolding find_by_id
cancel_succeeds_example =
    cancel_succeeds alone 1 ActorType.guest none two_nights held_night held_night refl may_cancel
      two_nights-IsValid refl refl refl

cancel-Updated_example :
    (current : Booking) × (find_by_id 1 two_nights.db ≡ some current)
    × (can_move current.status BookingStatus.cancelled ≡ true)
    × Updated 1
        (has_status current.status)
        (λ r. record r {
          status = BookingStatus.cancelled;
          cancelled_at = some 1000;
          cancelled_by = some ActorType.guest;
          cancellation_reason = none;
        })
        two_nights.db
        (cancel alone 1 ActorType.guest none two_nights).1.db
        (moved_to BookingStatus.cancelled (some 1000) (some ActorType.guest) none held_night)
cancel-Updated_example =
    cancel-Updated alone 1 ActorType.guest none two_nights
      (moved_to BookingStatus.cancelled (some 1000) (some ActorType.guest) none held_night)
      cancel_succeeds_example.0

fsm_allows-can_move_example :
    fsm_allows BookingStatus.expired BookingStatus.confirmed
    ≡ (false || can_move BookingStatus.expired BookingStatus.confirmed)
fsm_allows-can_move_example = fsm_allows-can_move BookingStatus.expired BookingStatus.confirmed
