-- ===== src/Booking/Lifecycle.antt =====
-- The rows of `booking_fsm_transitions` (db/migrations/0006_bookings.sql and
-- 0015_fsm_money_currency_integrity.sql) and the engine that loads them
-- (backend/src/modules/booking/application/booking-fsm.engine.ts).
use last_chance_platform.Prelude.{Bool, not, List, [], ◌∷◌}
use last_chance_platform.Prelude.Action.{throw_if}
use last_chance_platform.Errors.{DomainError, domain}
use last_chance_platform.Domain.Booking.{BookingStatus, same_status}
use last_chance_platform.Fsm.{Transitions, load, can_transition}
use last_chance_platform.World.Effects.{M}

abbrev pub booking_fsm_transitions : List (BookingStatus × BookingStatus)
booking_fsm_transitions =
    (BookingStatus.draft, BookingStatus.pending_payment)
    ∷ (BookingStatus.draft, BookingStatus.cancelled)
    ∷ (BookingStatus.pending_payment, BookingStatus.confirmed)
    ∷ (BookingStatus.pending_payment, BookingStatus.expired)
    ∷ (BookingStatus.pending_payment, BookingStatus.cancelled)
    ∷ (BookingStatus.confirmed, BookingStatus.checked_in)
    ∷ (BookingStatus.confirmed, BookingStatus.cancelled)
    ∷ (BookingStatus.checked_in, BookingStatus.completed)
    ∷ (BookingStatus.cancelled, BookingStatus.refunded)
    ∷ (BookingStatus.completed, BookingStatus.refunded)
    ∷ (BookingStatus.confirmed, BookingStatus.completed)
    ∷ (BookingStatus.checked_in, BookingStatus.cancelled)
    ∷ []

-- `BookingFsmEngine.transitions`, after boot
unfoldable pub booking_fsm : Transitions same_status
booking_fsm = load same_status booking_fsm_transitions

-- `BookingFsmEngine.canTransition`
unfoldable pub can_move : BookingStatus → BookingStatus → Bool
can_move from to = can_transition same_status booking_fsm from to

-- `BookingFsmEngine.assertTransition`
unfoldable pub assert_transition : BookingStatus → BookingStatus → M (Unit {0})
assert_transition from to =
    throw_if (not (can_move from to)) (domain DomainError.invalid_transition)
