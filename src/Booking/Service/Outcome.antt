-- ===== src/Booking/Service/Outcome.antt =====
-- What a call that returned did, and to which row: the compare-and-set of each method.
use last_chance_platform.Prelude.{
  ℕ, ◌≡◌, refl, String, Bool, true, ◌&&◌, Option, none, some, find?, ◌==◌, arith,
}
use last_chance_platform.Prelude.Result.{ok}
use last_chance_platform.Prelude.Action.{◌>>=◌}
use last_chance_platform.Domain.Booking.{BookingStatus, ActorType, Booking}
use last_chance_platform.World.Store.{Db, World}
use last_chance_platform.World.Effects.{Env, query, select, pause, add_job, publish}
use last_chance_platform.Booking.Lifecycle.{can_move, assert_transition}
use last_chance_platform.Booking.Table.{replace, write_row, write_found, update_row}
use last_chance_platform.Booking.Repository.{
  find_by_id, confirm_hold, cancel_row, hold_alive, has_status,
}
use last_chance_platform.Booking.Service.{
  must_find, cancel_scheduled_expiry, after_confirm, confirm, or_stale, cancel,
}

-- An UPDATE that gave a row: which row it matched, what it wrote, what the table is now.
pub record Updated (id : ℕ) (where_also : Booking → Bool) (set : Booking → Booking)
    (before after : Db) (b : Booking) : Type 0 where
  pub old : Booking
  pub matched : find? (λ r. id == r.id && where_also r) before.bookings ≡ some old
  pub written : b ≡ set old
  pub table : after ≡ record before { bookings = replace b before.bookings }

write_row-Updated :
    (old new : Booking) (d d' : Db) (b : Booking)
    → write_row old new d ≡ ok (some b, d')
    → (b ≡ new) × (d' ≡ record d { bookings = replace b d.bookings })
unfolding write_row
write_row-Updated old new d d' b e = ground arith

write_found-Updated :
    (id : ℕ) (where_also : Booking → Bool) (set : Booking → Booking) (d d' : Db) (b : Booking)
    (found : Option Booking)
    → find? (λ r. id == r.id && where_also r) d.bookings ≡ found
    → write_found set found d ≡ ok (some b, d')
    → Updated id where_also set d d' b
unfolding write_found
write_found-Updated id where_also set d d' b none f e = absurd (ground arith)
write_found-Updated id where_also set d d' b (some old) f e =
    let (written, table) = write_row-Updated old (set old) d d' b e in
    record { old = old; matched = f; written = written; table = table }

update_row-Updated :
    (id : ℕ) (where_also : Booking → Bool) (set : Booking → Booking) (d d' : Db) (b : Booking)
    → update_row id where_also set d ≡ ok (some b, d')
    → Updated id where_also set d d' b
unfolding update_row
update_row-Updated id where_also set d d' b e =
    write_found-Updated id where_also set d d' b _ refl e

confirm-confirm_hold :
    (env : Env) (id : ℕ) (w : World) (b : Booking)
    → (confirm env id w).0 ≡ ok b
    → confirm_hold env.db_now id (env.meanwhile 1 w).db ≡ ok (some b, (confirm env id w).1.db)
unfolding confirm must_find ◌>>=◌ select assert_transition pause query after_confirm
    cancel_scheduled_expiry publish
confirm-confirm_hold env id w b e = ground arith

-- When `confirm` returns a booking, the table as it was after the call's first await had a row of
-- that id that awaited payment and whose hold had not lapsed by the database's clock; the result is
-- that row with the status CONFIRMED, and the table at the end is that table with this row
-- replaced.
pub confirm-Updated :
    (env : Env) (id : ℕ) (w : World) (b : Booking)
    → (confirm env id w).0 ≡ ok b
    → Updated id
        (λ r. has_status BookingStatus.pending_payment r && hold_alive env.db_now r.hold_expires_at)
        (λ r. record r { status = BookingStatus.confirmed })
        (env.meanwhile 1 w).db
        (confirm env id w).1.db
        b
unfolding confirm_hold
confirm-Updated env id w b e =
    update_row-Updated id _ _ (env.meanwhile 1 w).db (confirm env id w).1.db b
      (confirm-confirm_hold env id w b e)

cancel-cancel_row :
    (env : Env) (id : ℕ) (by : ActorType) (reason : Option String) (w : World) (b : Booking)
    → (cancel env id by reason w).0 ≡ ok b
    → (current : Booking) × (find_by_id id w.db ≡ some current)
      × (can_move current.status BookingStatus.cancelled ≡ true)
      × (cancel_row env.db_now id current.status by reason (env.meanwhile 1 w).db
          ≡ ok (some b, (cancel env id by reason w).1.db))
unfolding cancel must_find ◌>>=◌ select assert_transition pause query or_stale
    cancel_scheduled_expiry add_job publish
cancel-cancel_row env id by reason w b e = ground arith

-- When `cancel` returns a booking, the status that it read may move to CANCELLED, the table after
-- the first await had a row of that id still in that status, the result is that row cancelled with
-- the time, the actor and the reason, and the table at the end is that table with this row
-- replaced.
pub cancel-Updated :
    (env : Env) (id : ℕ) (by : ActorType) (reason : Option String) (w : World) (b : Booking)
    → (cancel env id by reason w).0 ≡ ok b
    → (current : Booking) × (find_by_id id w.db ≡ some current)
      × (can_move current.status BookingStatus.cancelled ≡ true)
      × Updated id
          (has_status current.status)
          (λ r. record r {
            status = BookingStatus.cancelled;
            cancelled_at = some env.db_now;
            cancelled_by = some by;
            cancellation_reason = reason;
          })
          (env.meanwhile 1 w).db
          (cancel env id by reason w).1.db
          b
unfolding cancel_row
cancel-Updated env id by reason w b e =
    let (current, read, moves, done) = cancel-cancel_row env id by reason w b e in
    (current, read, moves, update_row-Updated id _ _ (env.meanwhile 1 w).db _ b done)
