-- ===== src/Booking/Table/Evolution.antt =====
-- How a row moves on while the table is written: the triggers `fn_booking_fsm_guard` and
-- `fn_booking_insert_guard` of db/migrations, seen over many writes.
use mathlib.Core.Path.{subst}
use mathlib.Core.Option.{some-injective}
use last_chance_platform.Prelude.{
  ℕ, ◌≡◌, refl, sym, ap, ◌∙◌, Bool, true, false, ◌&&◌, Option, none, some, List, [], ◌∷◌, any,
  find?, ◌==◌, ==_iff, arith, Bool-cases, inl, inr,
}
use last_chance_platform.Prelude.Result.{ok}
use last_chance_platform.Domain.Booking.{BookingStatus, same_status, Booking}
use last_chance_platform.World.Store.{Db}
use last_chance_platform.World.Keeps.{StatementPreserves}
use last_chance_platform.Booking.Table.{
  insert_row, replace, write_row, write_found, update_row, fsm_allows, locked_fields_changed,
}
use last_chance_platform.Booking.Table.Invariant.{
  IsValid, insert_row-preserves, write_row-preserves,
}
use last_chance_platform.Booking.Table.Lookup.{row_by_id, row_of_match, row_by_id-replace}

-- A way from one status to another along the rows of `booking_fsm_transitions`.
pub data FsmPath : BookingStatus → BookingStatus → Type 0 where
  stay : {s : BookingStatus} → FsmPath s s
  step : {a b c : BookingStatus} → FsmPath a b → fsm_allows b c ≡ true → FsmPath a c

-- What a booking promised its guest and host, once it is no draft.
abbrev pub SameTerms : Booking → Booking → Type 0
SameTerms a b =
    (a.check_in_utc ≡ b.check_in_utc)
    × (a.check_out_utc ≡ b.check_out_utc)
    × (a.turnaround_minutes ≡ b.turnaround_minutes)
    × (a.total_amount_minor ≡ b.total_amount_minor)

-- The later row is the earlier one, moved on.
pub record Continues (a b : Booking) : Type 0 where
  pub path : FsmPath a.status b.status
  pub same_unit : a.unit_id ≡ b.unit_id
  pub same_guest : a.guest_id ≡ b.guest_id
  pub same_property : a.property_id ≡ b.property_id
  pub not_draft :
      same_status a.status BookingStatus.draft ≡ false
      → same_status b.status BookingStatus.draft ≡ false
  pub terms : same_status a.status BookingStatus.draft ≡ false → SameTerms a b

pub Continues-refl : (a : Booking) → Continues a a
Continues-refl a = record {
  path = stay;
  same_unit = refl;
  same_guest = refl;
  same_property = refl;
  not_draft = λ h. h;
  terms = λ h. (refl, refl, refl, refl);
}

leaves_draft :
    (from to : BookingStatus)
    → fsm_allows from to ≡ true
    → same_status from BookingStatus.draft ≡ false
    → same_status to BookingStatus.draft ≡ false
unfolding fsm_allows
leaves_draft from to h d = ground arith

same_terms :
    (old new : Booking)
    → locked_fields_changed old new ≡ false
    → same_status old.status BookingStatus.draft ≡ false
    → SameTerms old new
unfolding locked_fields_changed
same_terms old new h d = (ground arith, ground arith, ground arith, ground arith)

same_owner :
    (old new : Booking)
    → locked_fields_changed old new ≡ false
    → (old.unit_id ≡ new.unit_id)
      × (old.guest_id ≡ new.guest_id)
      × (old.property_id ≡ new.property_id)
unfolding locked_fields_changed
same_owner old new h = (ground arith, ground arith, ground arith)

Continues-step :
    (a old new : Booking)
    → Continues a old
    → fsm_allows old.status new.status ≡ true
    → locked_fields_changed old new ≡ false
    → Continues a new
Continues-step a old new c moves locked =
    let (u, g, p) = same_owner old new locked in
    record {
      path = step c.path moves;
      same_unit = c.same_unit ∙ u;
      same_guest = c.same_guest ∙ g;
      same_property = c.same_property ∙ p;
      not_draft = λ d. leaves_draft old.status new.status moves (c.not_draft d);
      terms = λ d.
          let (i, o, t, m) = c.terms d in
          let (i', o', t', m') = same_terms old new locked (c.not_draft d) in
          (i ∙ i', o ∙ o', t ∙ t', m ∙ m');
    }

-- The table since an earlier one: valid, and each row of then is there and has moved on.
pub record Since (earlier now : Db) : Type 0 where
  pub valid : IsValid now
  pub moved :
      (id : ℕ) (a : Booking)
      → row_by_id id earlier.bookings ≡ some a
      → (b : Booking) × (row_by_id id now.bookings ≡ some b) × Continues a b

pub Since-refl : (d : Db) → IsValid d → Since d d
Since-refl d v = record { valid = v; moved = λ id a h. (a, h, Continues-refl a) }

any_of_found :
    (id : ℕ) (rows : List Booking) (b : Booking)
    → row_by_id id rows ≡ some b
    → any (λ c. id == c.id) rows ≡ true
any_of_found id [] b h = cc
any_of_found id (r ∷ rows) b h = ground (arith, any_of_found id rows b)

insert-moved :
    (new : Booking) (id : ℕ) (rows : List Booking) (b : Booking)
    → any (λ c. new.id == c.id) rows ≡ false
    → row_by_id id rows ≡ some b
    → row_by_id id (new ∷ rows) ≡ some b
insert-moved new id rows b fresh h = elim (Bool-cases (id == new.id)) [
  | inl same ↦
      let found =
        any_of_found new.id rows b
          (ap (λ k. row_by_id k rows) (sym ((==_iff id new.id).0 same)) ∙ h) in
      absurd cc
  | inr other ↦ rw other h
]

pub insert_row-Since : (d0 : Db) (new : Booking) → StatementPreserves (Since d0) (insert_row new)
unfolding insert_row
insert_row-Since d0 new = record {
  after = λ d e s. record {
    valid = (insert_row-preserves new).after d e s.valid;
    moved = λ id a h.
        let (b, hb, c) = s.moved id a h in (b, ground (arith, insert-moved new id d.bookings b), c);
  };
}

same_row :
    (old new : Booking) (id : ℕ) (rows : List Booking) (b : Booking)
    → old.id ≡ new.id
    → (id == new.id) ≡ true
    → row_by_id old.id rows ≡ some old
    → row_by_id id rows ≡ some b
    → b ≡ old
same_row old new id rows b same here at_old at_b =
    let eq = (==_iff id new.id).0 here ∙ sym same in
    some-injective b old (sym at_b ∙ ap (λ k. row_by_id k rows) eq ∙ at_old)

write-moved :
    (old new : Booking) (id : ℕ) (rows : List Booking) (a b : Booking)
    → old.id ≡ new.id
    → row_by_id old.id rows ≡ some old
    → fsm_allows old.status new.status ≡ true
    → locked_fields_changed old new ≡ false
    → row_by_id id rows ≡ some b
    → Continues a b
    → (c : Booking) × (row_by_id id (replace new rows) ≡ some c) × Continues a c
write-moved old new id rows a b same at_old moves locked at_b c = elim (Bool-cases (id == new.id)) [
  | inl here ↦ (
    new,
    row_by_id-replace id new rows ∙ rw (here, at_b) refl,
    Continues-step a old new
        (subst (Continues a) (same_row old new id rows b same here at_old at_b) c) moves locked,
  )
  | inr there ↦ (b, row_by_id-replace id new rows ∙ rw there at_b, c)
]

pub write_row-Since :
    (d0 d d' : Db) (old new : Booking) (r : Option Booking)
    → old.id ≡ new.id
    → row_by_id old.id d.bookings ≡ some old
    → Since d0 d
    → write_row old new d ≡ ok (r, d')
    → Since d0 d'
unfolding write_row
write_row-Since d0 d d' old new r same at_old s e =
    let kept = write-moved old new in
    record {
      valid = (write_row-preserves old new).after d e s.valid;
      moved = λ id a h.
          let (b, hb, c) = s.moved id a h in ground (arith, kept id d.bookings a b same at_old);
    }

write_found-Since :
    (d0 d : Db) (id : ℕ) (set : Booking → Booking) (where_also : Booking → Bool)
    (found r : Option Booking) {d' : Db}
    → ((b : Booking) → (set b).id ≡ b.id)
    → find? (λ b. id == b.id && where_also b) d.bookings ≡ found
    → Since d0 d
    → write_found set found d ≡ ok (r, d')
    → Since d0 d'
unfolding write_found
write_found-Since d0 d id set where_also none r same f s e = ground (arith, s)
write_found-Since d0 d id set where_also (some old) r same f s e =
    let (at_id, _, eq) = row_of_match d.blocks id where_also d.bookings old s.valid.rows f in
    write_row-Since d0 d _ old (set old) r (sym (same old))
      (ap (λ k. row_by_id k d.bookings) (sym eq) ∙ at_id) s e

pub update_row-Since :
    (d0 : Db) (id : ℕ) (where_also : Booking → Bool) (set : Booking → Booking)
    → ((b : Booking) → (set b).id ≡ b.id)
    → StatementPreserves (Since d0) (update_row id where_also set)
unfolding update_row
update_row-Since d0 id where_also set same = record {
  after = λ d {a = r} {d'} e s. write_found-Since d0 d id set where_also _ r same refl s e;
}
