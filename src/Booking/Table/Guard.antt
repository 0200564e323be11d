-- ===== src/Booking/Table/Guard.antt =====
-- The database's trigger `fn_booking_fsm_guard` beside the service's `BookingFsmEngine`.
use last_chance_platform.Prelude.{◌≡◌, refl, ◌↔◌, true, ◌||◌, arith}
use last_chance_platform.Domain.Booking.{BookingStatus, same_status}
use last_chance_platform.Fsm.Loaded.{can_transition-load}
use last_chance_platform.Booking.Lifecycle.{booking_fsm_transitions, booking_fsm, can_move}
use last_chance_platform.Booking.Table.{fsm_allows}

pub same_status_iff : (a b : BookingStatus) → (same_status a b ≡ true) ↔ (a ≡ b)
same_status_iff a b = ground arith

-- The database's trigger and the service's engine agree: the trigger lets a status stay or move
-- exactly where the engine allows the move.
pub fsm_allows-can_move :
    (from to : BookingStatus) → fsm_allows from to ≡ (same_status from to || can_move from to)
unfolding fsm_allows can_move booking_fsm
fsm_allows-can_move from to =
    rw (can_transition-load same_status same_status_iff booking_fsm_transitions from to) refl

pub can_move-fsm_allows :
    (from to : BookingStatus) → can_move from to ≡ true → fsm_allows from to ≡ true
can_move-fsm_allows from to h = ground (arith, fsm_allows-can_move from to)
