-- ===== src/Booking/Repository/Preserves.antt =====
-- What one INSERT and one UPDATE of `bookings` keep, every statement of the repository keeps.
use last_chance_platform.Prelude.{ℕ, String, Bool, ◌≡◌, refl, Option, arith}
use last_chance_platform.Prelude.Int.{ℤ, pos, negsuc}
use last_chance_platform.Domain.Booking.{BookingStatus, ActorType, Booking}
use last_chance_platform.World.Store.{Db}
use last_chance_platform.World.Keeps.{StatementPreserves}
use last_chance_platform.Booking.Table.{insert_row, update_row}
use last_chance_platform.Booking.Table.Invariant.{
  IsValid, insert_row-preserves, update_row-preserves,
}
use last_chance_platform.Booking.Repository.{
  InsertHoldParams, held, insert_paying, insert_hold, confirm_hold, transition, cancel_row,
  expire_if_lapsed,
}

pub record Writes (P : Db → Type 0) : Type 0 where
  pub inserts : (new : Booking) → StatementPreserves P (insert_row new)
  pub updates :
      (id : ℕ) (where_also : Booking → Bool) (set : Booking → Booking)
      → ((b : Booking) → (set b).id ≡ b.id)
      → StatementPreserves P (update_row id where_also set)

pub IsValid-Writes : Writes IsValid
IsValid-Writes = record {
  inserts = insert_row-preserves;
  updates = λ id where_also set same_id. update_row-preserves id where_also set;
}

module _ {P : Db → Type 0} (writes : Writes P) where
  insert_paying-preserves :
      (id : ℕ) (p : InsertHoldParams) (payout : ℤ)
      → StatementPreserves P (insert_paying id p payout)
  unfolding insert_paying
  insert_paying-preserves id p (pos n) = writes.inserts (held id p n)
  insert_paying-preserves id p (negsuc n) = record { after = λ d e h. absurd (ground arith) }

  pub insert_hold-preserves :
      (id : ℕ) (p : InsertHoldParams) → StatementPreserves P (insert_hold id p)
  unfolding insert_hold
  insert_hold-preserves id p = insert_paying-preserves id p p.quote.host_payout_minor

  pub confirm_hold-preserves : (now id : ℕ) → StatementPreserves P (confirm_hold now id)
  unfolding confirm_hold
  confirm_hold-preserves now id = writes.updates id _ _ (λ b. refl)

  pub transition-preserves :
      (id : ℕ) (from to : BookingStatus) → StatementPreserves P (transition id from to)
  unfolding transition
  transition-preserves id from to = writes.updates id _ _ (λ b. refl)

  pub cancel_row-preserves :
      (now id : ℕ) (from : BookingStatus) (by : ActorType) (reason : Option String)
      → StatementPreserves P (cancel_row now id from by reason)
  unfolding cancel_row
  cancel_row-preserves now id from by reason = writes.updates id _ _ (λ b. refl)

  pub expire_if_lapsed-preserves : (now id : ℕ) → StatementPreserves P (expire_if_lapsed now id)
  unfolding expire_if_lapsed
  expire_if_lapsed-preserves now id = writes.updates id _ _ (λ b. refl)

pub ruleset booking_rules = (
  insert_hold-preserves, confirm_hold-preserves, transition-preserves, cancel_row-preserves,
  expire_if_lapsed-preserves,
)
