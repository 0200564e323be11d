-- ===== src/Booking/Sweep/Select.antt =====
-- About the rows that the sweep's inner SELECT picks.
use last_chance_platform.Prelude.{
  ℕ, zero, suc, ◌≤◌, ◌<◌, ◌≡◌, refl, sym, ◌∙◌, Bool, true, false, ◌&&◌, some, List, [], ◌∷◌, length,
  any, map, filter, ◌==◌, ==_iff, Bool-cases, inl, inr, arith,
}
use last_chance_platform.Domain.Booking.{Booking}
use last_chance_platform.Domain.Inventory.{AvailabilityBlock}
use last_chance_platform.Booking.Table.Invariant.{AllValid}
use last_chance_platform.Booking.Table.Lookup.{row_by_id}
use last_chance_platform.Booking.Sweep.{
  stale, insert_by_expiry, order_by_expiry, limited, to_expire,
}

any-insert_by_expiry :
    (p : Booking → Bool) (b : Booking) (rows : List Booking)
    → any p (insert_by_expiry b rows) ≡ any p (b ∷ rows)
unfolding insert_by_expiry
any-insert_by_expiry p b [] = refl
any-insert_by_expiry p b (c ∷ rows) = ground (arith, any-insert_by_expiry p b rows)

any-order_by_expiry :
    (p : Booking → Bool) (rows : List Booking) → any p (order_by_expiry rows) ≡ any p rows
unfolding order_by_expiry
any-order_by_expiry p [] = refl
any-order_by_expiry p (b ∷ rows) =
    ground (arith, any-insert_by_expiry p b (order_by_expiry rows), any-order_by_expiry p rows)

any-limited :
    (p : Booking → Bool) (n : ℕ) (rows : List Booking)
    → any p (limited n rows) ≡ true
    → any p rows ≡ true
unfolding limited
any-limited p zero rows h = absurd (ground arith)
any-limited p (suc n) [] h = h
any-limited p (suc n) (b ∷ rows) h = ground (arith, any-limited p n rows)

-- A limit that is not reached leaves no row out.
limited_slack :
    (p : Booking → Bool) (n : ℕ) (rows : List Booking)
    → length (limited n rows) < n
    → any p (limited n rows) ≡ any p rows
unfolding limited
limited_slack p zero rows h = absurd (omega arith)
limited_slack p (suc n) [] h = refl
limited_slack p (suc n) (b ∷ rows) h = ground (arith, limited_slack p n rows)

length-limited : (n : ℕ) (rows : List Booking) → length (limited n rows) ≤ n
unfolding limited
length-limited zero rows = omega arith
length-limited (suc n) [] = omega arith
length-limited (suc n) (b ∷ rows) = let rest = length-limited n rows in omega arith

length-ids : (rows : List Booking) → length (map (λ b. b.id) rows) ≡ length rows
length-ids [] = refl
length-ids (b ∷ rows) = let rest = length-ids rows in rw rest refl

any-ids :
    (id : ℕ) (rows : List Booking)
    → any (λ i. id == i) (map (λ b. b.id) rows) ≡ any (λ b. id == b.id) rows
any-ids id [] = refl
any-ids id (b ∷ rows) = rw (any-ids id rows) refl

any-filter :
    (p q : Booking → Bool) (rows : List Booking)
    → any q (filter p rows) ≡ any (λ b. p b && q b) rows
any-filter p q [] = refl
any-filter p q (b ∷ rows) = ground (arith, any-filter p q rows)

none_with_id :
    (p : Booking → Bool) (id : ℕ) (rows : List Booking)
    → any (λ c. id == c.id) rows ≡ false
    → any (λ b. p b && id == b.id) rows ≡ false
none_with_id p id [] h = refl
none_with_id p id (b ∷ rows) h = ground (arith, none_with_id p id rows)

-- Where ids are unique, some row with the id that passes a test is the row of the id.
row_that_passes :
    (blocks : List AvailabilityBlock) (p : Booking → Bool) (id : ℕ) (rows : List Booking)
    → AllValid blocks rows
    → any (λ b. p b && id == b.id) rows ≡ true
    → (b : Booking) × (row_by_id id rows ≡ some b) × (p b ≡ true)
row_that_passes blocks p id [] v h = absurd (ground arith)
row_that_passes blocks p id (b ∷ rows) v h = elim (Bool-cases (id == b.id)) [
  | inl same ↦
      let apart = none_with_id p id rows (rw ((==_iff id b.id).0 same) v.1) in
      (b, rw same refl, ground arith)
  | inr other ↦
      let (c, found, passes) = row_that_passes blocks p id rows v.4 (ground arith) in
      (c, rw other found, passes)
]

pub length-to_expire :
    (now : ℕ) (locked : ℕ → Bool) (limit : ℕ) (rows : List Booking)
    → length (to_expire now locked limit rows) ≤ limit
unfolding to_expire
length-to_expire now locked limit rows =
    let picked = order_by_expiry (filter (stale now locked) rows) in
    rw (length-ids (limited limit picked)) (length-limited limit picked)

pub to_expire-stale :
    (blocks : List AvailabilityBlock) (now : ℕ) (locked : ℕ → Bool) (limit id : ℕ)
    (rows : List Booking)
    → AllValid blocks rows
    → any (λ i. id == i) (to_expire now locked limit rows) ≡ true
    → (b : Booking) × (row_by_id id rows ≡ some b) × (stale now locked b ≡ true)
unfolding to_expire
to_expire-stale blocks now locked limit id rows v h =
    let p = stale now locked in
    let with_id = λ (b : Booking). id == b.id in
    let picked = order_by_expiry (filter p rows) in
    let among = any-limited with_id limit picked (sym (any-ids id (limited limit picked)) ∙ h) in
    row_that_passes blocks p id rows v (
      sym (any-filter p with_id rows) ∙ (sym (any-order_by_expiry with_id (filter p rows)) ∙ among))

-- Below the limit, every stale row is picked.
pub to_expire-all :
    (now : ℕ) (locked : ℕ → Bool) (limit id : ℕ) (rows : List Booking)
    → length (to_expire now locked limit rows) < limit
    → any (λ i. id == i) (to_expire now locked limit rows)
      ≡ any (λ b. stale now locked b && id == b.id) rows
unfolding to_expire
to_expire-all now locked limit id rows h =
    let p = stale now locked in
    let with_id = λ (b : Booking). id == b.id in
    let picked = order_by_expiry (filter p rows) in
    any-ids id (limited limit picked)
    ∙ (limited_slack with_id limit picked (rw (sym (length-ids (limited limit picked))) h)
        ∙ (any-order_by_expiry with_id (filter p rows) ∙ any-filter p with_id rows))
