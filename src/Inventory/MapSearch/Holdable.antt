-- ===== src/Inventory/MapSearch/Holdable.antt =====
-- About the pins that a search shows and what a hold of them would meet.
use mathlib.Core.Option.{some-injective}
use mathlib.Core.Path.{subst}
use last_chance_platform.Prelude.{
  ℕ, zero, suc, ◌≤◌, ◌≡◌, refl, sym, ap, Bool, true, false, not, ◌&&◌, Option, none, some, List, [],
  ◌∷◌, any, find?, ◌==◌, ==_comm, All, Option-cases, Bool-cases, inl, inr, arith,
}
use last_chance_platform.Prelude.Result.{ok, ok-injective, >>=-eq-ok}
use last_chance_platform.Domain.Booking.{Booking, is_blocking}
use last_chance_platform.Domain.Inventory.{StayUnit, Property}
use last_chance_platform.Domain.Deal.{FlashDeal}
use last_chance_platform.World.Store.{Db}
use last_chance_platform.Booking.Table.{clash, calendar_blocked, host_blocked, block_end, overlaps}
use last_chance_platform.Booking.Service.{open_for_booking}
use last_chance_platform.Inventory.MapSearch.{
  MapSearchQuery, MapPin, is_free, effective_minor, pin_at, pins_of, fits, and_pin, rate_of,
  best_deal, discount_of, RawSearch, stay_of, limit_of, parse, take, count, search_map,
}

-- A booking of the unit for the stay, under the unit's buffer.
pub record Books (u : StayUnit) (from until : ℕ) (b : Booking) : Type 0 where
  pub unit : b.unit_id ≡ u.id
  pub starts : b.check_in_utc ≡ from
  pub ends : b.check_out_utc ≡ until
  pub buffer : b.turnaround_minutes ≡ u.turnaround_minutes

-- Neither the calendar of the host nor the overlap guard refuses a booking of the unit.
pub record Holdable (from until : ℕ) (db : Db) (pin : MapPin) : Type 0 where
  pub open_now : open_for_booking pin.unit pin.property ≡ true
  pub calendar : (b : Booking) → Books pin.unit from until b → host_blocked db.blocks b ≡ false
  pub no_clash : (b : Booking) → Books pin.unit from until b → any (clash b) db.bookings ≡ false

overlaps_flip : (a b c d : ℕ) → overlaps a b c d ≡ overlaps c d a b
overlaps_flip a b c d = ground arith

parts_apart : (i e x y o : Bool) → ((e && y) && o) ≡ false → ((i && e) && ((x && y) && o)) ≡ false
parts_apart i e x y o h = ground arith

-- The row meets the window of a stay.
abbrev meets : StayUnit → ℕ → ℕ → Booking → Bool
meets u from until r =
    (r.unit_id == u.id && is_blocking r.status)
    && overlaps r.check_in_utc (block_end r.check_out_utc r.turnaround_minutes) from
        (block_end until u.turnaround_minutes)

row-apart :
    (u : StayUnit) (from until : ℕ) (b r : Booking)
    → Books u from until b
    → meets u from until r ≡ false
    → clash b r ≡ false
unfolding clash
row-apart u from until b r k h =
    let last = block_end until u.turnaround_minutes in
    rw
      (
        k.unit,
        k.starts,
        k.ends,
        k.buffer,
        ==_comm u.id r.unit_id,
        overlaps_flip from last r.check_in_utc (block_end r.check_out_utc r.turnaround_minutes),
      )
      (parts_apart (not (b.id == r.id)) (r.unit_id == u.id) (is_blocking b.status)
        (is_blocking r.status) _ h)

no_row-clashes :
    (u : StayUnit) (from until : ℕ) (b : Booking) (rows : List Booking)
    → Books u from until b
    → any (meets u from until) rows ≡ false
    → any (clash b) rows ≡ false
no_row-clashes u from until b [] k h = refl
no_row-clashes u from until b (r ∷ rows) k h = elim (Bool-cases (meets u from until r)) [
  | inl met ↦ absurd (ground arith)
  | inr apart ↦
      rw (row-apart u from until b r k apart) (no_row-clashes u from until b rows k (rw apart at h))
]

module _ (in_viewport : Property → Bool) (q : MapSearchQuery) (now : ℕ) (db : Db) (from until : ℕ)
    (dated : q.stay ≡ some (from, until)) where
  free-Holdable :
      (u : StayUnit) (p : Property)
      → open_for_booking u p ≡ true
      → is_free u (some (from, until)) db ≡ true
      → (price base : ℕ) (deal : Option FlashDeal)
      → Holdable from until db (record {
        unit = u;
        property = p;
        base_price_minor = base;
        price_minor = price;
        deal = deal;
      })
  unfolding is_free
  free-Holdable u p open_now free price base deal =
      let last = block_end until u.turnaround_minutes in
      let quiet : calendar_blocked db.blocks u.id from last ≡ false = ground arith in
      let apart : any (meets u from until) db.bookings ≡ false = ground arith in
      record {
        open_now = open_now;
        calendar = λ b k. rw (k.unit, k.starts, k.ends, k.buffer, quiet) (ground arith);
        no_clash = λ b k. no_row-clashes u from until b db.bookings k apart;
      }

  pin_at-Holdable :
      (u : StayUnit) (p : Property) (rate : Option ℕ) (pin : MapPin)
      → pin_at in_viewport q now db u p rate ≡ some pin
      → Holdable from until db pin
  unfolding pin_at
  pin_at-Holdable u p none pin h = absurd (ground arith)
  pin_at-Holdable u p (some base) pin h =
      let deal = best_deal now u.id db.deals in
      let price = effective_minor base (discount_of deal) in
      elim (Bool-cases (fits in_viewport q now db u p price)) [
        | inl shown ↦
            let open_now : open_for_booking u p ≡ true = ground arith in
            let free : is_free u q.stay db ≡ true = ground arith in
            subst (Holdable from until db) (some-injective _ _ (rw shown at h))
              (free-Holdable u p open_now (rw dated at free) price base deal)
        | inr hidden ↦ absurd (let gone = rw hidden at h in cc)
      ]

  and_pin-Holdable :
      (u : StayUnit) (p : Property) (rate : Option ℕ) (rest : List MapPin)
      → All (Holdable from until db) rest
      → All (Holdable from until db) (and_pin (pin_at in_viewport q now db u p rate) rest)
  and_pin-Holdable u p rate rest k = elim (Option-cases (pin_at in_viewport q now db u p rate)) [
    | inl hidden ↦ rw hidden k
    | inr (pin, shown) ↦ rw shown (pin_at-Holdable u p rate pin shown, k)
  ]

  pins_of-Holdable :
      (units : List StayUnit) → All (Holdable from until db) (pins_of in_viewport q now db units)
  unfolding pins_of
  pins_of-Holdable [] = tt
  pins_of-Holdable (u ∷ units) =
      let rest = pins_of-Holdable units in
      elim (Option-cases (find? (λ (p : Property). p.id == u.property_id) db.properties)) [
        | inl gone ↦ rw (gone, pins_of) rest
        | inr (p, found) ↦
            rw (found, pins_of)
              (and_pin-Holdable u p (rate_of q.booking_type u) (pins_of in_viewport q now db units)
                rest)
      ]

take-All : (P : MapPin → Type 0) (n : ℕ) (pins : List MapPin) → All P pins → All P (take n pins)
unfolding take
take-All P zero pins k = tt
take-All P (suc n) [] k = tt
take-All P (suc n) (pin ∷ pins) k = (k.0, take-All P n pins k.1)

count-take : (n : ℕ) (pins : List MapPin) → count (take n pins) ≤ n
unfolding take
count-take zero pins = omega arith
count-take (suc n) [] = omega arith
count-take (suc n) (pin ∷ pins) = let rest = count-take n pins in omega arith

limit_of_bound : (n : Option ℕ) → limit_of n ≤ 300
unfolding limit_of
limit_of_bound none = omega arith
limit_of_bound (some n) = ground arith

-- What a request with both instants is searched by.
parse-dated :
    (raw : RawSearch) (q : MapSearchQuery) (from until : ℕ)
    → raw.check_in_utc ≡ some from
    → raw.check_out_utc ≡ some until
    → parse raw ≡ ok q
    → (q.stay ≡ some (from, until)) × (q.limit ≡ limit_of raw.limit)
unfolding parse stay_of
parse-dated raw q from until a b h = (ground arith, ground arith)

-- Every pin that a search of the map with both instants returns is of a unit that is open for
-- booking, and a booking of that unit for that stay, under the unit's buffer, is refused neither by
-- the host's calendar nor by the overlap guard of the table; and there are at most 300 pins;
-- provided that the order of the pins only rearranges them.
pub search_map-Holdable :
    (in_viewport : Property → Bool) (order : List MapPin → List MapPin) (now : ℕ) (raw : RawSearch)
    (db : Db) (from until : ℕ) (pins : List MapPin) (more : Bool)
    → ((P : MapPin → Type 0) (found : List MapPin) → All P found → All P (order found))
    → raw.check_in_utc ≡ some from
    → raw.check_out_utc ≡ some until
    → search_map in_viewport order now raw db ≡ ok (pins, more)
    → All (Holdable from until db) pins × (count pins ≤ 300)
unfolding search_map
search_map-Holdable in_viewport order now raw db from until pins more kept a b h =
    let (q, parsed, found) = >>=-eq-ok (parse raw) _ h in
    let (dated, limited) = parse-dated raw q from until a b parsed in
    let shown = ap (λ (x : List MapPin × Bool). x.0) (ok-injective found) in
    let all = pins_of-Holdable in_viewport q now db from until dated db.units in
    let bound = limit_of_bound raw.limit in
    let short = count-take q.limit (order (pins_of in_viewport q now db db.units)) in
    rw (sym shown) (
      take-All (Holdable from until db) q.limit _ (kept (Holdable from until db) _ all),
      omega arith,
    )
