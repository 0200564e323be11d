-- ===== src/Booking/Table/Disjoint.antt =====
-- The promise of the overlap guard, in the words of a guest: two stays never share a unit's time.
use mathlib.Core.List.{Memᴰ}
use last_chance_platform.Prelude.{
  ◌≤◌, ◌≡◌, ap, sym, ◌∙◌, ◌≢◌, ◌⊎◌, true, false, List, [], ◌∷◌, any, arith,
}
use last_chance_platform.Domain.Booking.{is_blocking, Booking}
use last_chance_platform.Domain.Inventory.{AvailabilityBlock}
use last_chance_platform.World.Store.{Db}
use last_chance_platform.Booking.Table.{block_end, clash, row_checks}
use last_chance_platform.Booking.Table.Invariant.{AllValid, IsValid, clash_comm}

abbrev pub DisjointStays : Booking → Booking → Type 0
DisjointStays a b =
    (block_end a.check_out_utc a.turnaround_minutes ≤ b.check_in_utc)
    ⊎ (block_end b.check_out_utc b.turnaround_minutes ≤ a.check_in_utc)

any-false_mem :
    (a b : Booking) (rows : List Booking)
    → any (clash a) rows ≡ false
    → Memᴰ b rows
    → clash a b ≡ false
any-false_mem a b [] h m = elim m [ ]
any-false_mem a b (x ∷ rows) h (Memᴰ.head e) = rw e (ground arith)
any-false_mem a b (x ∷ rows) h (Memᴰ.tail m) = any-false_mem a b rows (ground arith) m

-- Two rows with different ids do not clash, in whatever order they stand.
apart :
    (blocks : List AvailabilityBlock) (a b : Booking) (rows : List Booking)
    → AllValid blocks rows
    → Memᴰ a rows
    → Memᴰ b rows
    → a.id ≢ b.id
    → clash a b ≡ false
apart blocks a b [] v ma mb ne = elim ma [ ]
apart blocks a b (x ∷ rows) v (Memᴰ.head ea) (Memᴰ.head eb) ne =
    absurd (ne (ap (λ (c : Booking). c.id) (ea ∙ sym eb)))
apart blocks a b (x ∷ rows) v (Memᴰ.head ea) (Memᴰ.tail mb) ne =
    rw ea (any-false_mem x b rows v.0 mb)
apart blocks a b (x ∷ rows) v (Memᴰ.tail ma) (Memᴰ.head eb) ne =
    clash_comm a b ∙ rw eb (any-false_mem x a rows v.0 ma)
apart blocks a b (x ∷ rows) v (Memᴰ.tail ma) (Memᴰ.tail mb) ne = apart blocks a b rows v.4 ma mb ne

row_of_mem :
    (blocks : List AvailabilityBlock) (a : Booking) (rows : List Booking)
    → AllValid blocks rows
    → Memᴰ a rows
    → row_checks a ≡ true
row_of_mem blocks a [] v m = elim m [ ]
row_of_mem blocks a (x ∷ rows) v (Memᴰ.head e) = rw e v.2
row_of_mem blocks a (x ∷ rows) v (Memᴰ.tail m) = row_of_mem blocks a rows v.4 m

disjoint_of_apart :
    (a b : Booking)
    → clash a b ≡ false
    → row_checks a ≡ true
    → row_checks b ≡ true
    → a.id ≢ b.id
    → a.unit_id ≡ b.unit_id
    → is_blocking a.status ≡ true
    → is_blocking b.status ≡ true
    → DisjointStays a b
unfolding clash row_checks
disjoint_of_apart a b h ca cb ne unit ba bb = ground arith

-- In a table that satisfies its constraints, two bookings of one unit with different ids, both in a
-- status that blocks inventory, have windows (cleaning buffer included) of which one ends before
-- the other begins.
pub no_double_booking :
    (db : Db) (a b : Booking)
    → IsValid db
    → Memᴰ a db.bookings
    → Memᴰ b db.bookings
    → a.id ≢ b.id
    → a.unit_id ≡ b.unit_id
    → is_blocking a.status ≡ true
    → is_blocking b.status ≡ true
    → DisjointStays a b
no_double_booking db a b v ma mb ne unit ba bb =
    disjoint_of_apart a b (apart db.blocks a b db.bookings v.rows ma mb ne)
      (row_of_mem db.blocks a db.bookings v.rows ma) (row_of_mem db.blocks b db.bookings v.rows mb)
      ne unit ba bb
