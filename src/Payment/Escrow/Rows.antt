-- ===== src/Payment/Escrow/Rows.antt =====
-- About a change of one row of `payments` together with the ledger: lemmas on the sums per payment.
use mathlib.Core.Path.{subst}
use mathlib.Core.Option.{some-injective}
use last_chance_platform.Prelude.{
  none, ℕ, ◌≡◌, refl, sym, ap, ◌∙◌, Bool, false, ◌&&◌, some, List, [], ◌∷◌, any, find?, find?-sound,
  ◌==◌, arith, Bool-cases, inl, inr, ==_iff,
}
use last_chance_platform.Prelude.Sql.{update_where}
use last_chance_platform.Domain.Payment.{LedgerEntry, Payment}
use last_chance_platform.Payment.Escrow.{came_in, went_back, Agrees, AllAgree}

module _ (extra : Payment → Bool) (set : Payment → Payment)
    (same_id : (r : Payment) → (set r).id ≡ r.id) where
  any-id-update :
      (k id : ℕ) (rows : List Payment)
      → any
          (λ (q : Payment). k == q.id)
          (update_where (λ (r : Payment). (id == r.id) && extra r) set rows)
        ≡ any (λ (q : Payment). k == q.id) rows
  any-id-update k id [] = refl
  any-id-update k id (r ∷ rows) = ground (arith, same_id r, any-id-update k id rows)

pub none_found :
    (q p : Payment → Bool) (rows : List Payment) (r : Payment)
    → any q rows ≡ false
    → find? p rows ≡ some r
    → q r ≡ false
none_found q p [] r n h = absurd (ground arith)
none_found q p (b ∷ rows) r n h = ground (arith, none_found q p rows r)

module _ (ledger ledger' : List LedgerEntry) (id : ℕ)
    (same_in : (k : ℕ) → (k == id) ≡ false → came_in k ledger' ≡ came_in k ledger)
    (same_back : (k : ℕ) → (k == id) ≡ false → went_back k ledger' ≡ went_back k ledger) where
  Agrees-other : (p : Payment) → (p.id == id) ≡ false → Agrees ledger p → Agrees ledger' p
  Agrees-other p ne (i, b, o, w) = (same_in p.id ne ∙ i, same_back p.id ne ∙ b, o, w)

  AllAgree-others :
      (extra : Payment → Bool) (set : Payment → Payment) (rows : List Payment)
      → ((r : Payment) → (set r).id ≡ r.id)
      → any (λ (q : Payment). id == q.id) rows ≡ false
      → AllAgree ledger rows
      → AllAgree ledger' (update_where (λ (r : Payment). (id == r.id) && extra r) set rows)
  AllAgree-others extra set [] same ne v = tt
  AllAgree-others extra set (r ∷ rows) same ne (fresh, a, v) =
      let off : (id == r.id) ≡ false = ground arith in
      let off' : (r.id == id) ≡ false = ground arith in
      rw off (
        any-id-update extra set same r.id id rows ∙ fresh,
        Agrees-other r off' a,
        AllAgree-others extra set rows same (ground arith) v,
      )

  pub AllAgree-update :
      (extra : Payment → Bool) (set : Payment → Payment) (rows : List Payment) (p : Payment)
      → ((r : Payment) → (set r).id ≡ r.id)
      → find? (λ (r : Payment). (id == r.id) && extra r) rows ≡ some p
      → Agrees ledger' (set p)
      → AllAgree ledger rows
      → AllAgree ledger' (update_where (λ (r : Payment). (id == r.id) && extra r) set rows)
  AllAgree-update extra set [] p same h a v = absurd (ground arith)
  AllAgree-update extra set (r ∷ rows) p same h a (fresh, b, v) =
      elim (Bool-cases ((id == r.id) && extra r)) [
        | inl e ↦
            let here = some-injective r p (rw e at h) in
            rw e (
              any-id-update extra set same (set r).id id rows
                  ∙ ap (λ k. any (λ (q : Payment). k == q.id) rows) (same r)
                  ∙ fresh,
              subst (λ x. Agrees ledger' (set x)) (sym here) a,
              AllAgree-others extra set rows same
                  (ap (λ k. any (λ (q : Payment). k == q.id) rows)
                      ((==_iff id r.id).0 (ground arith))
                    ∙ fresh)
                  v,
            )
        | inr e ↦
            let found : find? (λ (x : Payment). (id == x.id) && extra x) rows ≡ some p =
              rw e at h in
            let other =
              none_found (λ (q : Payment). r.id == q.id) (λ (x : Payment). (id == x.id) && extra x)
                rows p fresh found in
            let ours = find?-sound (λ (x : Payment). (id == x.id) && extra x) rows p found in
            rw e (
              any-id-update extra set same r.id id rows ∙ fresh,
              Agrees-other r (ground arith) b,
              AllAgree-update extra set rows p same found a v,
            )
      ]

pub Agrees-found :
    (ledger : List LedgerEntry) (q : Payment → Bool) (rows : List Payment) (p : Payment)
    → AllAgree ledger rows
    → find? q rows ≡ some p
    → Agrees ledger p
Agrees-found ledger q [] p v h = absurd (ground arith)
Agrees-found ledger q (r ∷ rows) p (_, a, v) h = elim (Bool-cases (q r)) [
  | inl e ↦ subst (Agrees ledger) (some-injective r p (rw e at h)) a
  | inr e ↦ Agrees-found ledger q rows p v (rw e at h)
]

-- Two matches of one id are one row.
pub found_once :
    (ledger : List LedgerEntry) (q : Payment → Bool) (extra : Payment → Bool) (rows : List Payment)
    (p r : Payment)
    → AllAgree ledger rows
    → find? q rows ≡ some p
    → find? (λ (b : Payment). (p.id == b.id) && extra b) rows ≡ some r
    → p ≡ r
found_once ledger q extra [] p r v h k = absurd (ground arith)
found_once ledger q extra (b ∷ rows) p r (n, _, v) h k =
    let apart = none_found (λ (x : Payment). b.id == x.id) in
    elim (Bool-cases (q b)) [
      | inl e ↦
          let here = some-injective b p (rw e at h) in
          elim (Bool-cases ((p.id == b.id) && extra b)) [
            | inl e' ↦ sym here ∙ some-injective b r (rw e' at k)
            | inr e' ↦
                let left : find? (λ (x : Payment). (p.id == x.id) && extra x) rows ≡ some r =
                  rw e' at k in
                let off = apart (λ (x : Payment). (p.id == x.id) && extra x) rows r n left in
                let hit = find?-sound (λ (x : Payment). (p.id == x.id) && extra x) rows r left in
                let same : b.id ≡ p.id = ap (λ (x : Payment). x.id) here in absurd (ground arith)
          ]
      | inr e ↦
          let found : find? q rows ≡ some p = rw e at h in
          let off = apart q rows p n found in
          found_once ledger q extra rows p r v found (ground arith)
    ]

pub update_where-none :
    (q : Payment → Bool) (set : Payment → Payment) (rows : List Payment)
    → find? q rows ≡ none
    → update_where q set rows ≡ rows
update_where-none q set [] h = refl
update_where-none q set (r ∷ rows) h = ground (arith, update_where-none q set rows)
