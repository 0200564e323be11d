-- ===== src/Booking/Table/Invariant.antt =====
-- What the constraints of `bookings` keep true of all its rows together.
use last_chance_platform.Prelude.{
  ℕ, ◌≡◌, refl, ◌∙◌, Bool, true, false, ◌&&◌, Option, none, some, List, [], ◌∷◌, any, find?, ◌==◌,
  ==_iff, ==_refl, arith, Bool-cases, inl, inr,
}
use last_chance_platform.Domain.Booking.{Booking}
use last_chance_platform.Domain.Inventory.{AvailabilityBlock}
use last_chance_platform.World.Store.{Db}
use last_chance_platform.World.Keeps.{StatementPreserves}
use last_chance_platform.Booking.Table.{
  clash, host_blocked, row_checks, insert_row, replace, write_row, write_found, update_row,
}

-- No two rows clash or share an id; each row passes its checks and stands clear of the host's
-- calendar.
abbrev pub AllValid : List AvailabilityBlock → List Booking → Type 0
AllValid blocks [] = Unit
AllValid blocks (b ∷ rows) =
    (any (clash b) rows ≡ false)
    × (any (λ c. b.id == c.id) rows ≡ false)
    × (row_checks b ≡ true)
    × (host_blocked blocks b ≡ false)
    × AllValid blocks rows

pub record IsValid (db : Db) : Type 0 where
  pub rows : AllValid db.blocks db.bookings

pub clash_comm : (a b : Booking) → clash a b ≡ clash b a
unfolding clash
clash_comm a b = ground arith

pub clash_same_id : (a b : Booking) → (a.id == b.id) ≡ true → clash a b ≡ false
unfolding clash
clash_same_id a b h = ground arith

-- A row that clashes with neither the old rows nor the new one clashes with no row afterwards.
any-clash-replace :
    (a new : Booking) (rows : List Booking)
    → any (clash a) rows ≡ false
    → clash a new ≡ false
    → any (clash a) (replace new rows) ≡ false
unfolding replace
any-clash-replace a new [] h hn = refl
any-clash-replace a new (b ∷ rows) h hn = ground (arith, any-clash-replace a new rows)

any-id-replace :
    (id : ℕ) (new : Booking) (rows : List Booking)
    → any (λ c. id == c.id) (replace new rows) ≡ any (λ c. id == c.id) rows
unfolding replace
any-id-replace id new [] = refl
any-id-replace id new (b ∷ rows) = ground (arith, any-id-replace id new rows)

replace-AllValid :
    (blocks : List AvailabilityBlock) (new : Booking) (rows : List Booking)
    → any (clash new) rows ≡ false
    → row_checks new ≡ true
    → host_blocked blocks new ≡ false
    → AllValid blocks rows
    → AllValid blocks (replace new rows)
unfolding replace
replace-AllValid blocks new [] clear checked unblocked v = tt
replace-AllValid blocks new (b ∷ rows) clear checked unblocked v =
    let rest = replace-AllValid blocks new rows (ground arith) checked unblocked v.4 in
    let self = clash_same_id new new (==_refl new.id) in
    elim (Bool-cases (new.id == b.id)) [
      | inl same ↦ rw same (
        any-clash-replace new new rows (ground arith) self,
        any-id-replace new.id new rows ∙ rw ((==_iff new.id b.id).0 same) v.1,
        checked,
        unblocked,
        rest,
      )
      | inr other ↦ rw other (
        any-clash-replace b new rows v.0 (ground (arith, clash_comm b new)),
        any-id-replace b.id new rows ∙ v.1,
        v.2,
        v.3,
        rest,
      )
    ]

pub insert_row-preserves : (new : Booking) → StatementPreserves IsValid (insert_row new)
unfolding insert_row
insert_row-preserves new = record { after = λ d e h. ground (arith, h.rows) }

pub write_row-preserves : (old new : Booking) → StatementPreserves IsValid (write_row old new)
unfolding write_row
write_row-preserves old new = record {
  after = λ d e h. ground (arith, h.rows, replace-AllValid d.blocks new d.bookings);
}

write_found-preserves :
    (set : Booking → Booking) (found : Option Booking)
    → StatementPreserves IsValid (write_found set found)
unfolding write_found
write_found-preserves set none = record { after = λ d e h. ground (arith, h.rows) }
write_found-preserves set (some old) = write_row-preserves old (set old)

pub update_row-preserves :
    (id : ℕ) (where_also : Booking → Bool) (set : Booking → Booking)
    → StatementPreserves IsValid (update_row id where_also set)
unfolding update_row
update_row-preserves id where_also set = record {
  after = λ d e h.
      (write_found-preserves set (find? (λ b. id == b.id && where_also b) d.bookings)).after d e h;
}
