-- ===== src/Booking/Service/Progress.antt =====
-- How far the calls of the booking service can take one booking.
use last_chance_platform.Prelude.{ℕ, ◌≡◌, Bool, true, false, some, List, All, arith}
use last_chance_platform.Domain.Booking.{BookingStatus, is_blocking, Booking}
use last_chance_platform.World.Store.{Db, World}
use last_chance_platform.World.Effects.{Env}
use last_chance_platform.Booking.Table.{fsm_allows}
use last_chance_platform.Booking.Table.Invariant.{IsValid}
use last_chance_platform.Booking.Table.Lookup.{row_by_id}
use last_chance_platform.Booking.Table.Evolution.{
  FsmPath, stay, step, Continues, Since, Since-refl, insert_row-Since, update_row-Since,
}
use last_chance_platform.Booking.Repository.Preserves.{Writes}
use last_chance_platform.Booking.Service.History.{Call, run_calls, CallKeeps, run_calls-keeps}

Since-Writes : (d0 : Db) → Writes (Since d0)
Since-Writes d0 = record { inserts = insert_row-Since d0; updates = update_row-Since d0 }

-- From a valid table, after any sequence of calls a booking that was there is still there: its
-- status was reached along rows of the transition table, its unit, guest and property are the same,
-- and, unless it was a draft, so are its window, buffer and total; provided that whatever runs at
-- the awaits, and the claims of the deals, keep the same.
pub run_calls-Continues :
    (calls : List (Env × Call)) (w : World) (id : ℕ) (a : Booking)
    → All (CallKeeps (Since w.db)) calls
    → IsValid w.db
    → row_by_id id w.db.bookings ≡ some a
    → (b : Booking) × (row_by_id id (run_calls calls w).db.bookings ≡ some b) × Continues a b
run_calls-Continues calls w id a kept valid h =
    (run_calls-keeps (Since-Writes w.db) calls w kept (Since-refl w.db valid)).moved id a h

-- Over: the stay is done, or it will not take place.
abbrev pub is_over : BookingStatus → Bool
is_over BookingStatus.completed = true
is_over BookingStatus.cancelled = true
is_over BookingStatus.expired = true
is_over BookingStatus.refunded = true
is_over _ = false

step-is_over : (a b : BookingStatus) → fsm_allows a b ≡ true → is_over a ≡ true → is_over b ≡ true
unfolding fsm_allows
step-is_over a b h o = ground arith

path-is_over : {a b : BookingStatus} → FsmPath a b → is_over a ≡ true → is_over b ≡ true
path-is_over stay o = o
path-is_over (step {b = b} {c = c} p h) o = step-is_over b c h (path-is_over p o)

is_over-frees : (s : BookingStatus) → is_over s ≡ true → is_blocking s ≡ false
is_over-frees s h = ground arith

-- From a valid table, a booking that is completed, cancelled, expired or refunded is in one of
-- these four statuses after any sequence of calls, so it never blocks inventory again; provided
-- that whatever runs at the awaits, and the claims of the deals, only move bookings on along the
-- transition table.
pub over_for_good :
    (calls : List (Env × Call)) (w : World) (id : ℕ) (a : Booking)
    → All (CallKeeps (Since w.db)) calls
    → IsValid w.db
    → row_by_id id w.db.bookings ≡ some a
    → is_over a.status ≡ true
    → (b : Booking) × (row_by_id id (run_calls calls w).db.bookings ≡ some b)
      × (is_over b.status ≡ true)
      × (is_blocking b.status ≡ false)
over_for_good calls w id a kept valid h over =
    let (b, hb, c) = run_calls-Continues calls w id a kept valid h in
    let over' = path-is_over c.path over in (b, hb, over', is_over-frees b.status over')
