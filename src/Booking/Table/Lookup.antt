-- ===== src/Booking/Table/Lookup.antt =====
-- Reading a row back by its id after a write.
use last_chance_platform.Prelude.{
  ℕ, ◌≡◌, refl, Bool, true, false, ◌&&◌, Option, none, some, List, [], ◌∷◌, any, find?, ◌==◌, arith,
  if◌then◌else◌, is_some,
}
use last_chance_platform.Domain.Booking.{Booking}
use last_chance_platform.Domain.Inventory.{AvailabilityBlock}
use last_chance_platform.Booking.Table.{replace}
use last_chance_platform.Booking.Table.Invariant.{AllValid}

-- `SELECT … WHERE id = …`
abbrev pub row_by_id : ℕ → List Booking → Option Booking
row_by_id id rows = find? (λ b. id == b.id) rows

-- No row with the id is no row with the id and anything more.
absent :
    (id : ℕ) (p : Booking → Bool) (rows : List Booking)
    → any (λ c. id == c.id) rows ≡ false
    → find? (λ b. id == b.id && p b) rows ≡ none
absent id p [] h = refl
absent id p (b ∷ rows) h = ground (arith, absent id p rows)

-- Where ids are unique, a match on the id and more is the row of that id.
pub row_of_match :
    (blocks : List AvailabilityBlock) (id : ℕ) (p : Booking → Bool) (rows : List Booking)
    (old : Booking)
    → AllValid blocks rows
    → find? (λ b. id == b.id && p b) rows ≡ some old
    → (row_by_id id rows ≡ some old) × (p old ≡ true) × (id ≡ old.id)
row_of_match blocks id p [] old v h = absurd (ground arith)
row_of_match blocks id p (b ∷ rows) old v h =
    ground (arith, row_of_match blocks id p rows old v.4, absent id p rows)

pub row_by_id-id :
    (id : ℕ) (rows : List Booking) (b : Booking) → row_by_id id rows ≡ some b → id ≡ b.id
row_by_id-id id [] b h = cc
row_by_id-id id (r ∷ rows) b h = ground (arith, row_by_id-id id rows b)

pub row_by_id-replace :
    (id : ℕ) (new : Booking) (rows : List Booking)
    → row_by_id id (replace new rows)
      ≡ (if id == new.id && is_some (row_by_id id rows) then some new else row_by_id id rows)
unfolding replace
row_by_id-replace id new [] = ground arith
row_by_id-replace id new (b ∷ rows) = ground (arith, row_by_id-replace id new rows)
