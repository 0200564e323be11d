-- ===== src/Booking/Service/Succeeds.antt =====
-- When a call cannot fail: in a valid table no constraint stops the write of a status alone.
use last_chance_platform.Prelude.{
  ℕ, ◌≡◌, refl, sym, ap, ◌∙◌, String, Bool, true, false, not, ◌&&◌, Option, some, List, [], ◌∷◌,
  any, find?, filter, ◌==◌, ==_refl, arith,
}
use last_chance_platform.Prelude.Result.{ok}
use last_chance_platform.Prelude.Action.{◌>>=◌}
use last_chance_platform.Domain.Booking.{
  BookingStatus, same_status, is_blocking, ActorType, Booking,
}
use last_chance_platform.Domain.Inventory.{AvailabilityBlock}
use last_chance_platform.World.Store.{Db, World, Job, create_refund}
use last_chance_platform.Domain.Payment.{by_cancellation}
use last_chance_platform.World.Effects.{Env, query, select, pause, add_job, publish}
use last_chance_platform.Booking.Lifecycle.{can_move, assert_transition}
use last_chance_platform.Booking.Table.{
  clash, host_blocked, row_checks, fsm_allows, locked_fields_changed, replace, write_row,
  write_found, update_row,
}
use last_chance_platform.Booking.Table.Invariant.{AllValid, IsValid, clash_comm, clash_same_id}
use last_chance_platform.Booking.Table.Lookup.{row_by_id}
use last_chance_platform.Booking.Table.Guard.{fsm_allows-can_move, can_move-fsm_allows}
use last_chance_platform.Booking.Repository.{
  find_by_id, confirm_hold, cancel_row, has_status, hold_alive,
}
use last_chance_platform.Booking.Service.{
  is_expiry_of, must_find, cancel_scheduled_expiry, after_confirm, confirm, or_stale, cancel,
}

none_found :
    (p : Booking → Bool) (id : ℕ) (rows : List Booking) (old : Booking)
    → any p rows ≡ false
    → row_by_id id rows ≡ some old
    → p old ≡ false
none_found p id [] old n h = absurd (ground arith)
none_found p id (b ∷ rows) old n h = ground (arith, none_found p id rows old)

row-Valid :
    (blocks : List AvailabilityBlock) (id : ℕ) (rows : List Booking) (old : Booking)
    → AllValid blocks rows
    → row_by_id id rows ≡ some old
    → (any (clash old) rows ≡ false) × (row_checks old ≡ true) × (host_blocked blocks old ≡ false)
row-Valid blocks id [] old v h = absurd (ground arith)
row-Valid blocks id (b ∷ rows) old v h =
    let self = clash_same_id old old (==_refl old.id) in
    let (clear, ids, checked, unblocked, rest) = v in
    let apart = clash_comm old b in
    let other = none_found (clash b) id rows old clear in
    ground (arith, row-Valid blocks id rows old rest)

-- The row with another status, and with whatever a cancellation writes beside it.
abbrev pub moved_to :
    BookingStatus → Option ℕ → Option ActorType → Option String → Booking → Booking
moved_to s at by reason b = record b {
  status = s;
  cancelled_at = at;
  cancelled_by = by;
  cancellation_reason = reason;
}

clash-moved_to :
    (s : BookingStatus) (at : Option ℕ) (by : Option ActorType) (reason : Option String)
    (old : Booking) (rows : List Booking)
    → (is_blocking s ≡ true → is_blocking old.status ≡ true)
    → any (clash old) rows ≡ false
    → any (clash (moved_to s at by reason old)) rows ≡ false
unfolding clash
clash-moved_to s at by reason old [] narrows h = refl
clash-moved_to s at by reason old (b ∷ rows) narrows h =
    ground (arith, clash-moved_to s at by reason old rows narrows)

row_checks-moved_to :
    (s : BookingStatus) (at : Option ℕ) (by : Option ActorType) (reason : Option String)
    (old : Booking)
    → same_status s BookingStatus.pending_payment ≡ false
    → row_checks old ≡ true
    → row_checks (moved_to s at by reason old) ≡ true
unfolding row_checks
row_checks-moved_to s at by reason old not_held h = ground arith

host_blocked-moved_to :
    (s : BookingStatus) (at : Option ℕ) (by : Option ActorType) (reason : Option String)
    (old : Booking) (blocks : List AvailabilityBlock)
    → (is_blocking s ≡ true → is_blocking old.status ≡ true)
    → host_blocked blocks old ≡ false
    → host_blocked blocks (moved_to s at by reason old) ≡ false
host_blocked-moved_to s at by reason old blocks narrows h = ground arith

unlocked-moved_to :
    (s : BookingStatus) (at : Option ℕ) (by : Option ActorType) (reason : Option String)
    (old : Booking)
    → locked_fields_changed old (moved_to s at by reason old) ≡ false
unfolding locked_fields_changed
unlocked-moved_to s at by reason old = ground arith

pub write_row-moved_to :
    (s : BookingStatus) (at : Option ℕ) (by : Option ActorType) (reason : Option String) (d : Db)
    (id : ℕ) (old : Booking)
    → IsValid d
    → row_by_id id d.bookings ≡ some old
    → fsm_allows old.status s ≡ true
    → same_status s BookingStatus.pending_payment ≡ false
    → (is_blocking s ≡ true → is_blocking old.status ≡ true)
    → write_row old (moved_to s at by reason old) d
      ≡ ok (
        some (moved_to s at by reason old),
        record d { bookings = replace (moved_to s at by reason old) d.bookings },
      )
unfolding write_row
write_row-moved_to s at by reason d id old v h moves not_held narrows =
    let (clear, checked, unblocked) = row-Valid d.blocks id d.bookings old v.rows h in
    rw
      (
        host_blocked-moved_to s at by reason old d.blocks narrows unblocked,
        moves,
        unlocked-moved_to s at by reason old,
        row_checks-moved_to s at by reason old not_held checked,
        clash-moved_to s at by reason old d.bookings narrows clear,
      )
      refl

-- The match of an UPDATE whose row is the one with the id.
pub matched :
    (id : ℕ) (p : Booking → Bool) (rows : List Booking) (old : Booking)
    → row_by_id id rows ≡ some old
    → p old ≡ true
    → find? (λ b. id == b.id && p b) rows ≡ some old
matched id p [] old h hp = absurd (ground arith)
matched id p (b ∷ rows) old h hp = ground (arith, matched id p rows old)

confirm_hold-returns :
    (now id : ℕ) (d : Db) (old : Booking)
    → IsValid d
    → row_by_id id d.bookings ≡ some old
    → old.status ≡ BookingStatus.pending_payment
    → hold_alive now old.hold_expires_at ≡ true
    → confirm_hold now id d
      ≡ ok (
        some (record old { status = BookingStatus.confirmed }),
        record d {
          bookings = replace (record old { status = BookingStatus.confirmed }) d.bookings;
        },
      )
unfolding confirm_hold update_row write_found fsm_allows
confirm_hold-returns now id d old v h pending alive =
    let where_also = λ (b : Booking).
      has_status BookingStatus.pending_payment b && hold_alive now b.hold_expires_at in
    rw (matched id where_also d.bookings old h (rw (pending, alive) refl)) (
      write_row-moved_to BookingStatus.confirmed old.cancelled_at old.cancelled_by
        old.cancellation_reason d id old v h (rw pending refl) refl (λ _. rw pending refl))

may_confirm : can_move BookingStatus.pending_payment BookingStatus.confirmed ≡ true
unfolding fsm_allows
may_confirm = sym (fsm_allows-can_move BookingStatus.pending_payment BookingStatus.confirmed)

-- When the booking is read as awaiting payment and, after the first await, the table is valid and
-- the booking still awaits payment with a live hold, `confirm` returns it as CONFIRMED: no
-- constraint or trigger stops it.
pub confirm_succeeds :
    (env : Env) (id : ℕ) (w : World) (read old : Booking)
    → find_by_id id w.db ≡ some read
    → read.status ≡ BookingStatus.pending_payment
    → IsValid (env.meanwhile 1 w).db
    → find_by_id id (env.meanwhile 1 w).db ≡ some old
    → old.status ≡ BookingStatus.pending_payment
    → hold_alive env.db_now old.hold_expires_at ≡ true
    → (confirm env id w).0 ≡ ok (record old { status = BookingStatus.confirmed })
unfolding confirm must_find ◌>>=◌ select assert_transition pause query after_confirm
    cancel_scheduled_expiry publish find_by_id
confirm_succeeds env id w read old h rp v h' op alive =
    let done = confirm_hold-returns env.db_now id (env.meanwhile 1 w).db old v h' op alive in
    ground (arith, done, may_confirm)

same_status_refl : (s : BookingStatus) → same_status s s ≡ true
same_status_refl s = ground arith

cancel_row-returns :
    (now id : ℕ) (by : ActorType) (reason : Option String) (d : Db) (old : Booking)
    → IsValid d
    → row_by_id id d.bookings ≡ some old
    → can_move old.status BookingStatus.cancelled ≡ true
    → cancel_row now id old.status by reason d
      ≡ ok (
        some (moved_to BookingStatus.cancelled (some now) (some by) reason old),
        record d {
          bookings =
              replace (moved_to BookingStatus.cancelled (some now) (some by) reason old) d.bookings;
        },
      )
unfolding cancel_row update_row write_found fsm_allows
cancel_row-returns now id by reason d old v h moves =
    rw (matched id (has_status old.status) d.bookings old h (same_status_refl old.status)) (
      write_row-moved_to BookingStatus.cancelled (some now) (some by) reason d id old v h
        (can_move-fsm_allows old.status BookingStatus.cancelled moves) refl
        (λ e. absurd (ground arith)))

-- When the status that is read may move to CANCELLED, the table after the first await is valid and
-- has the row in the same status, and the queue takes jobs, `cancel` returns the row as cancelled,
-- and the newest job is the refund of the booking with the actor as its reason.
pub cancel_succeeds :
    (env : Env) (id : ℕ) (by : ActorType) (reason : Option String) (w : World) (read old : Booking)
    → find_by_id id w.db ≡ some read
    → can_move read.status BookingStatus.cancelled ≡ true
    → IsValid (env.meanwhile 1 w).db
    → find_by_id id (env.meanwhile 1 w).db ≡ some old
    → old.status ≡ read.status
    → env.queue_up ≡ true
    → ((cancel env id by reason w).0
        ≡ ok (moved_to BookingStatus.cancelled (some env.db_now) (some by) reason old))
      × ((rest : List Job) × ((cancel env id by reason w).1.jobs
            ≡ create_refund id (by_cancellation by) ∷ rest))
unfolding cancel must_find ◌>>=◌ select assert_transition pause query or_stale
    cancel_scheduled_expiry add_job publish find_by_id
cancel_succeeds env id by reason w read old h moves v h' same up =
    let done =
      cancel_row-returns env.db_now id by reason (env.meanwhile 1 w).db old v h' (rw same moves) in
    let done_at =
      ap (λ s. cancel_row env.db_now id s by reason (env.meanwhile 1 w).db) (sym same) ∙ done in
    (
      ground (arith, done_at),
      (filter (λ j. not (is_expiry_of id j)) (env.meanwhile 1 w).jobs, ground (arith, done_at)),
    )
