-- ===== src/Booking/Sweep/Outcome.antt =====
-- About what `sweepStaleHolds` leaves in the table.
use last_chance_platform.Prelude.{
  ℕ, ◌≤◌, ◌<◌, ◌≡◌, refl, sym, ap, ◌∙◌, Bool, true, false, ◌&&◌, ◌||◌, some, List, [], ◌∷◌, length,
  any, map, All, ◌==◌, ==_iff, ==_refl, if◌then◌else◌, Bool-cases, inl, inr, arith,
}
use last_chance_platform.Prelude.Result.{ok, ok-injective}
use last_chance_platform.Domain.Booking.{BookingStatus, Booking}
use last_chance_platform.Domain.Inventory.{AvailabilityBlock}
use last_chance_platform.World.Store.{Db, World}
use last_chance_platform.World.Effects.{Statement, query}
use last_chance_platform.Booking.Table.{replace, update_row, write_found, fsm_allows}
use last_chance_platform.Booking.Table.Invariant.{AllValid, IsValid, update_row-preserves}
use last_chance_platform.Booking.Table.Lookup.{row_by_id, row_by_id-id, row_by_id-replace}
use last_chance_platform.Booking.Repository.{has_status}
use last_chance_platform.Booking.Service.Succeeds.{write_row-moved_to, matched}
use last_chance_platform.Booking.Sweep.{
  stale, expire, expire_each, to_expire, fn_expire_stale_holds, sweep_stale_holds,
}
use last_chance_platform.Booking.Sweep.Select.{length-to_expire, to_expire-stale, to_expire-all}

abbrev can_expire : Booking → Bool
can_expire b = has_status BookingStatus.pending_payment b || has_status BookingStatus.expired b

abbrev Expirable : List Booking → ℕ → Type 0
Expirable rows id = (b : Booking) × (row_by_id id rows ≡ some b) × (can_expire b ≡ true)

abbrev pub expire_id : ℕ → Booking → Booking
expire_id id b = if id == b.id then expire b else b

-- The rows with the ids become EXPIRED, and the other rows stay as they are.
abbrev pub expire_ids : List ℕ → Booking → Booking
expire_ids ids b = if any (λ i. b.id == i) ids then expire b else b

replace_absent :
    (new : Booking) (rows : List Booking)
    → any (λ c. new.id == c.id) rows ≡ false
    → replace new rows ≡ rows
unfolding replace
replace_absent new [] h = refl
replace_absent new (b ∷ rows) h =
    let rest = replace_absent new rows (ground arith) in ground (arith, rest)

expire_id_absent :
    (id : ℕ) (rows : List Booking)
    → any (λ c. id == c.id) rows ≡ false
    → map (expire_id id) rows ≡ rows
expire_id_absent id [] h = refl
expire_id_absent id (b ∷ rows) h =
    let rest = expire_id_absent id rows (ground arith) in ground (arith, rest)

id_absent_at :
    (id other : ℕ) (rows : List Booking)
    → id ≡ other
    → any (λ c. other == c.id) rows ≡ false
    → any (λ c. id == c.id) rows ≡ false
id_absent_at id other rows same h = rw same h

replace-expire :
    (blocks : List AvailabilityBlock) (id : ℕ) (rows : List Booking) (old : Booking)
    → AllValid blocks rows
    → row_by_id id rows ≡ some old
    → replace (expire old) rows ≡ map (expire_id id) rows
unfolding replace
replace-expire blocks id [] old v h = refl
replace-expire blocks id (b ∷ rows) old v h =
    let named = row_by_id-id id (b ∷ rows) old h in
    elim (Bool-cases (id == b.id)) [
      | inl same ↦
          let apart = id_absent_at id b.id rows ((==_iff id b.id).0 same) v.1 in
          let apart' = id_absent_at old.id id rows (sym named) apart in
          ground (arith, replace_absent (expire old) rows apart', expire_id_absent id rows apart)
      | inr other ↦
          let rest = replace-expire blocks id rows old v.4 (ground arith) in ground (arith, rest)
    ]

Expirable-replace :
    (rows : List Booking) (old : Booking) (id : ℕ)
    → Expirable rows id
    → Expirable (replace (expire old) rows) id
Expirable-replace rows old id (b, h, e) = elim (Bool-cases (id == old.id)) [
  | inl same ↦ (expire old, row_by_id-replace id (expire old) rows ∙ rw (same, h) refl, refl)
  | inr other ↦ (b, row_by_id-replace id (expire old) rows ∙ rw (other, h) refl, e)
]

All-Expirable-replace :
    (rows : List Booking) (old : Booking) (ids : List ℕ)
    → All (Expirable rows) ids
    → All (Expirable (replace (expire old) rows)) ids
All-Expirable-replace rows old [] h = tt
All-Expirable-replace rows old (id ∷ ids) h =
    (Expirable-replace rows old id h.0, All-Expirable-replace rows old ids h.1)

update_row-expire :
    (d : Db) (id : ℕ) (old : Booking)
    → IsValid d
    → row_by_id id d.bookings ≡ some old
    → can_expire old ≡ true
    → update_row id (λ _. true) expire d
      ≡ ok (some (expire old), record d { bookings = replace (expire old) d.bookings })
unfolding update_row write_found fsm_allows
update_row-expire d id old v h e = rw (matched id (λ _. true) d.bookings old h refl) (
    write_row-moved_to BookingStatus.expired old.cancelled_at old.cancelled_by
      old.cancellation_reason d id old v h (ground arith) refl (λ x. absurd (ground arith)))

expire_ids_step :
    (id : ℕ) (ids : List ℕ) (rows : List Booking)
    → map (expire_ids ids) (map (expire_id id) rows) ≡ map (expire_ids (id ∷ ids)) rows
expire_ids_step id ids [] = refl
expire_ids_step id ids (b ∷ rows) = let rest = expire_ids_step id ids rows in ground (arith, rest)

expire_ids_none : (rows : List Booking) → map (expire_ids []) rows ≡ rows
expire_ids_none [] = refl
expire_ids_none (b ∷ rows) = let rest = expire_ids_none rows in rw rest refl

expire_each-returns :
    (ids : List ℕ) (d : Db)
    → IsValid d
    → All (Expirable d.bookings) ids
    → expire_each ids d ≡ ok (ids, record d { bookings = map (expire_ids ids) d.bookings })
unfolding expire_each
expire_each-returns [] d v h = rw (expire_ids_none d.bookings) refl
expire_each-returns (id ∷ ids) d v ((old, found, e), h) =
    let one = update_row-expire d id old v found e in
    let v1 = (update_row-preserves id (λ _. true) expire).after d one v in
    let rest =
      expire_each-returns ids (record d { bookings = replace (expire old) d.bookings }) v1
        (All-Expirable-replace d.bookings old ids h) in
    let changed = replace-expire d.blocks id d.bookings old v.rows found in
    let named = row_by_id-id id d.bookings old found in
    rw (one, rest, changed, expire_ids_step id ids d.bookings, sym named) refl

All-of-any :
    (P : ℕ → Type 0) (ids : List ℕ) → ((id : ℕ) → any (λ i. id == i) ids ≡ true → P id) → All P ids
All-of-any P [] h = tt
All-of-any P (id ∷ ids) h =
    (h id (rw (==_refl id) refl), All-of-any P ids (λ i e. h i (ground arith)))

-- The row with the id is a hold that was over and that no other transaction had locked.
abbrev pub WasStale : ℕ → (ℕ → Bool) → List Booking → ℕ → Type 0
WasStale now locked rows id =
    (b : Booking) × (row_by_id id rows ≡ some b) × (stale now locked b ≡ true)

to_expire-WasStale :
    (now : ℕ) (locked : ℕ → Bool) (limit : ℕ) (d : Db)
    → IsValid d
    → All (WasStale now locked d.bookings) (to_expire now locked limit d.bookings)
to_expire-WasStale now locked limit d v =
    All-of-any _ _ (λ id. to_expire-stale d.blocks now locked limit id d.bookings v.rows)

Expirable-of-WasStale :
    (now : ℕ) (locked : ℕ → Bool) (rows : List Booking) (ids : List ℕ)
    → All (WasStale now locked rows) ids
    → All (Expirable rows) ids
Expirable-of-WasStale now locked rows [] h = tt
Expirable-of-WasStale now locked rows (id ∷ ids) ((b, found, s), h) =
    ((b, found, ground arith), Expirable-of-WasStale now locked rows ids h)

fn_expire_stale_holds-returns :
    (now : ℕ) (locked : ℕ → Bool) (limit : ℕ) (d : Db)
    → IsValid d
    → fn_expire_stale_holds now locked limit d
      ≡ ok (
        to_expire now locked limit d.bookings,
        record d { bookings = map (expire_ids (to_expire now locked limit d.bookings)) d.bookings },
      )
unfolding fn_expire_stale_holds
fn_expire_stale_holds-returns now locked limit d v =
    expire_each-returns (to_expire now locked limit d.bookings) d v
      (Expirable-of-WasStale now locked d.bookings _ (to_expire-WasStale now locked limit d v))

-- The world after the sweep.
abbrev pub swept : List ℕ → World → World
swept ids w = record w { db = record w.db { bookings = map (expire_ids ids) w.db.bookings } }

query-returns :
    {A : Type 0} (s : Statement A) (w : World) (a : A) (d : Db)
    → s w.db ≡ ok (a, d)
    → query s w ≡ (ok a, record w { db = d })
unfolding query
query-returns s w a d h = rw (query, h) refl

sweep_stale_holds-returns :
    (now : ℕ) (locked : ℕ → Bool) (w : World)
    → IsValid w.db
    → sweep_stale_holds now locked w ≡ (
      ok (to_expire now locked 500 w.db.bookings),
      swept (to_expire now locked 500 w.db.bookings) w,
    )
unfolding sweep_stale_holds
sweep_stale_holds-returns now locked w v =
    query-returns (fn_expire_stale_holds now locked 500) w _ _
      (fn_expire_stale_holds-returns now locked 500 w.db v)

-- On a valid table the sweep of lapsed holds returns: it gives at most 500 ids, each of a row that
-- awaited payment past the end of its hold and that no other transaction had locked; the rows with
-- these ids become EXPIRED, and nothing else in the world changes.
pub sweep_expires :
    (now : ℕ) (locked : ℕ → Bool) (w : World)
    → IsValid w.db
    → (ids : List ℕ) × (sweep_stale_holds now locked w ≡ (ok ids, swept ids w))
      × (length ids ≤ 500)
      × All (WasStale now locked w.db.bookings) ids
sweep_expires now locked w v = (
  to_expire now locked 500 w.db.bookings,
  sweep_stale_holds-returns now locked w v,
  length-to_expire now locked 500 w.db.bookings,
  to_expire-WasStale now locked 500 w.db v,
)

expire_ids_not_stale :
    (now : ℕ) (locked : ℕ → Bool) (ids : List ℕ) (b : Booking)
    → (stale now locked b ≡ true → any (λ i. b.id == i) ids ≡ true)
    → stale now locked (expire_ids ids b) ≡ false
expire_ids_not_stale now locked ids b h = ground arith

stale_itself :
    (now : ℕ) (locked : ℕ → Bool) (b : Booking) (rows : List Booking)
    → stale now locked b ≡ true
    → any (λ c. stale now locked c && b.id == c.id) (b ∷ rows) ≡ true
stale_itself now locked b rows h = rw (h, ==_refl b.id) refl

none_stale :
    (now : ℕ) (locked : ℕ → Bool) (ids : List ℕ) (all rows : List Booking)
    → ((id : ℕ)
        → any (λ b. stale now locked b && id == b.id) all ≡ true
        → any (λ i. id == i) ids ≡ true)
    → ((p : Booking → Bool) → any p rows ≡ true → any p all ≡ true)
    → any (stale now locked) (map (expire_ids ids) rows) ≡ false
none_stale now locked ids all [] covers within = refl
none_stale now locked ids all (b ∷ rows) covers within =
    let rest = none_stale now locked ids all rows covers (λ p h. within p (ground arith)) in
    let head =
      expire_ids_not_stale now locked ids b
        (λ s. covers b.id (within _ (stale_itself now locked b rows s))) in
    rw (head, rest) refl

-- When a sweep of a valid table returns fewer ids than its limit of 500, it leaves no row that
-- awaits payment past the end of its hold, except those that other transactions had locked.
pub sweep_complete :
    (now : ℕ) (locked : ℕ → Bool) (w w' : World) (ids : List ℕ)
    → IsValid w.db
    → sweep_stale_holds now locked w ≡ (ok ids, w')
    → length ids < 500
    → any (stale now locked) w'.db.bookings ≡ false
sweep_complete now locked w w' ids v returned fewer =
    let run = sym (sweep_stale_holds-returns now locked w v) ∙ returned in
    let same = ok-injective (ap (λ r. r.0) run) in
    let rows = w.db.bookings in
    rw (sym (ap (λ r. r.1) run)) (
      none_stale now locked _ rows rows
        (λ id h. to_expire-all now locked 500 id rows (rw same fewer) ∙ h) (λ p h. h))
