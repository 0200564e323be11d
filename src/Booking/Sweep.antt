-- ===== src/Booking/Sweep.antt =====
-- The safety net of the holds: `sweepStaleHolds` of
-- backend/src/modules/booking/infrastructure/booking.repository.ts, the SQL function
-- `fn_expire_stale_holds` of db/migrations/0006_bookings.sql that it calls, and the sweep job of
-- backend/src/modules/booking/workers/booking-expiry.processor.ts.
pub mod Select
pub mod Keeps
pub mod Outcome
mod Tests
use last_chance_platform.Prelude.{
  ℕ, zero, suc, Bool, true, false, not, ◌&&◌, Option, none, some, List, [], ◌∷◌, map, filter, ltb,
  if◌then◌else◌,
}
use last_chance_platform.Prelude.Result.{ok, ◌>>=◌}
use last_chance_platform.Domain.Booking.{BookingStatus, Booking}
use last_chance_platform.World.Effects.{M, Statement, query}
use last_chance_platform.Booking.Table.{update_row}
use last_chance_platform.Booking.Repository.{has_status}

-- `hold_expires_at < now()`, false of NULL
abbrev pub hold_over : ℕ → Option ℕ → Bool
hold_over now none = false
hold_over now (some t) = ltb t now

-- A row of the inner SELECT. `locked` are the rows that other transactions have locked: SKIP LOCKED
-- leaves them out before the limit counts.
abbrev pub stale : ℕ → (ℕ → Bool) → Booking → Bool
stale now locked b =
    (has_status BookingStatus.pending_payment b && hold_over now b.hold_expires_at)
    && not (locked b.id)

-- `ORDER BY hold_expires_at`, NULL last; the rows that tie keep their order in the table.
abbrev pub expires_before : Booking → Booking → Bool
expires_before a b = elim a.hold_expires_at [
  | none ↦ false
  | some s ↦ elim b.hold_expires_at [ none ↦ true | some t ↦ ltb s t ]
]

unfoldable pub insert_by_expiry : Booking → List Booking → List Booking
insert_by_expiry b [] = b ∷ []
insert_by_expiry b (c ∷ rows) =
    let rest = insert_by_expiry b rows in if expires_before c b then c ∷ rest else b ∷ c ∷ rows

unfoldable pub order_by_expiry : List Booking → List Booking
order_by_expiry [] = []
order_by_expiry (b ∷ rows) = insert_by_expiry b (order_by_expiry rows)

-- `LIMIT`
unfoldable pub limited : ℕ → List Booking → List Booking
limited zero rows = []
limited (suc n) [] = []
limited (suc n) (b ∷ rows) = b ∷ limited n rows

abbrev pub expire : Booking → Booking
expire b = record b { status = BookingStatus.expired }

-- The UPDATE of the rows with the ids, one after the other, and its RETURNING; the statement as a
-- whole fails when one row fails.
unfoldable pub expire_each : List ℕ → Statement (List ℕ)
expire_each [] db = ok ([], db)
expire_each (id ∷ ids) db = do
  one ← update_row id (λ _. true) expire db
  rest ← expire_each ids one.1
  ok (elim one.0 [ none ↦ rest.0 | some b ↦ b.id ∷ rest.0 ], rest.1)

unfoldable pub to_expire : ℕ → (ℕ → Bool) → ℕ → List Booking → List ℕ
to_expire now locked limit rows =
    map (λ b. b.id) (limited limit (order_by_expiry (filter (stale now locked) rows)))

-- `fn_expire_stale_holds`
unfoldable pub fn_expire_stale_holds : ℕ → (ℕ → Bool) → ℕ → Statement (List ℕ)
fn_expire_stale_holds now locked limit db = expire_each (to_expire now locked limit db.bookings) db

-- `sweepStaleHolds`
unfoldable pub sweep_stale_holds : ℕ → (ℕ → Bool) → M (List ℕ)
sweep_stale_holds now locked = query (fn_expire_stale_holds now locked 500)
