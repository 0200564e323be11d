-- ===== src/Payment/Escrow/Refund.antt =====
-- About the transaction of a refund event: what goes back to the guest, in the row of
-- the payment and in the ledger (backend/src/modules/payment, the webhook service).
use last_chance_platform.Prelude.{
  ℕ, ◌+◌, ◌≡◌, ◌≢◌, refl, ◌∙◌, String, Bool, true, false, ◌&&◌, Option, none, some, List, [], ◌∷◌,
  any, find?, ltb, ◌==◌, is_text, if◌then◌else◌, arith, Option-cases, Bool-cases, inl, inr, ==_refl,
}
use last_chance_platform.Prelude.Sql.{update_where}
use last_chance_platform.Prelude.Result.{Result, ok, err}
use last_chance_platform.Prelude.Action.{◌>>=◌}
use last_chance_platform.Errors.{Failure}
use last_chance_platform.Domain.Payment.{
  PaymentProviderName, LedgerAccount, LedgerDirection, LedgerEntry, LedgerLeg, Payment, Refund,
}
use last_chance_platform.World.Store.{World}
use last_chance_platform.World.Keeps.{Preserves}
use last_chance_platform.World.Effects.{Env, exec, select, transaction}
use last_chance_platform.Payment.Ledger.{insert_legs, post_group, side_total, leg_total}
use last_chance_platform.Payment.Repository.{
  updated, is_pending, find_by_provider_ref, settle_refund_row, add_refunded, refunded_by,
}
use last_chance_platform.Payment.Webhook.{
  payment_leg, settle_refund, account_refund, refund_section,
}
use last_chance_platform.Payment.Escrow.{came_in, went_back, Agrees, AllAgree, IsReconciled}
use last_chance_platform.Payment.Escrow.Rows.{none_found, AllAgree-update, Agrees-found}

abbrev refund_legs : ℕ → Payment → List LedgerLeg
refund_legs amount p =
    payment_leg LedgerAccount.platform_escrow LedgerDirection.debit amount p
    ∷ payment_leg LedgerAccount.guest_refund_clearing LedgerDirection.credit amount p
    ∷ []

came_in-refund :
    (k g amount : ℕ) (c : String) (p : Payment) (ledger : List LedgerEntry)
    → came_in k (insert_legs g c (refund_legs amount p) ledger) ≡ came_in k ledger
unfolding insert_legs side_total payment_leg
came_in-refund k g amount c p ledger = ground arith

went_back-refund :
    (k g amount : ℕ) (c : String) (p : Payment) (ledger : List LedgerEntry)
    → went_back k (insert_legs g c (refund_legs amount p) ledger)
      ≡ ((if p.id == k then amount else 0) + went_back k ledger)
unfolding insert_legs side_total payment_leg
went_back-refund k g amount c p ledger = ground arith

Agrees-refund :
    (g amount : ℕ) (c : String) (p : Payment) (ledger : List LedgerEntry)
    → ltb p.amount_minor (p.refunded_amount_minor + amount) ≡ false
    → Agrees ledger p
    → Agrees (insert_legs g c (refund_legs amount p) ledger) (refunded_by amount p)
Agrees-refund g amount c p ledger within (i, b, o, w) = (
  came_in-refund p.id g amount c p ledger ∙ i,
  went_back-refund p.id g amount c p ledger ∙ ground arith,
  ground arith,
  ground arith,
)

within_found :
    (id amount : ℕ) (q : Payment → Bool) (rows : List Payment) (p : Payment)
    → any
        (λ (r : Payment). (id == r.id) && ltb r.amount_minor (r.refunded_amount_minor + amount))
        rows
      ≡ false
    → find? q rows ≡ some p
    → (id == p.id) ≡ true
    → ltb p.amount_minor (p.refunded_amount_minor + amount) ≡ false
within_found id amount q [] p n h e = absurd (ground arith)
within_found id amount q (r ∷ rows) p n h e = ground (arith, within_found id amount q rows p)

find_again :
    (ledger : List LedgerEntry) (q : Payment → Bool) (rows : List Payment) (p : Payment)
    → AllAgree ledger rows
    → find? q rows ≡ some p
    → find? (λ (r : Payment). (p.id == r.id) && true) rows ≡ some p
find_again ledger q [] p v h = absurd (ground arith)
find_again ledger q (b ∷ rows) p (n, _, v) h =
    ground
      (arith, find_again ledger q rows p v, none_found (λ (x : Payment). b.id == x.id) q rows p n)

update_where-and_true :
    (id : ℕ) (set : Payment → Payment) (rows : List Payment)
    → update_where (λ (r : Payment). (id == r.id) && true) set rows
      ≡ update_where (λ (r : Payment). id == r.id) set rows
update_where-and_true id set [] = refl
update_where-and_true id set (r ∷ rows) = ground (arith, update_where-and_true id set rows)

AllAgree-refund :
    (g amount : ℕ) (c : String) (q : Payment → Bool) (p : Payment) (ledger : List LedgerEntry)
    (rows : List Payment)
    → find? q rows ≡ some p
    → any
        (λ (r : Payment). (p.id == r.id) && ltb r.amount_minor (r.refunded_amount_minor + amount))
        rows
      ≡ false
    → AllAgree ledger rows
    → AllAgree
        (insert_legs g c (refund_legs amount p) ledger)
        (update_where (λ (r : Payment). p.id == r.id) (refunded_by amount) rows)
AllAgree-refund g amount c q p ledger rows h n v =
    let within = within_found p.id amount q rows p n h (==_refl p.id) in
    let a = Agrees-found ledger q rows p v h in
    rw (← update_where-and_true p.id (refunded_by amount) rows) (
      AllAgree-update ledger (insert_legs g c (refund_legs amount p) ledger) p.id
        (λ k ne. came_in-refund k g amount c p ledger)
        (λ k ne. went_back-refund k g amount c p ledger ∙ ground arith) (λ r. true)
        (refunded_by amount) rows p (λ r. refl) (find_again ledger q rows p v h)
        (Agrees-refund g amount c p ledger within a) v)

account_refund-legs :
    (env : Env) (p : Payment) (amount : ℕ) (w : World)
    → account_refund env p (some amount) w ≡ (
      ok tt,
      record w {
        db = record w.db {
          ledger = insert_legs env.new_group p.currency (refund_legs amount p) w.db.ledger;
        };
      },
    )
unfolding account_refund post_group ◌>>=◌ exec leg_total payment_leg
account_refund-legs env p amount w = ground arith

abbrev pending_of : ℕ → String → Refund → Bool
pending_of payment_id ref r =
    (payment_id == r.payment_id) && (is_text r.provider_refund_id ref && is_pending r.status)

-- No refund of the payment awaits the event.
refund_section-none :
    (env : Env) (provider : PaymentProviderName) (ref refund_ref : String) (w : World) (p : Payment)
    → find_by_provider_ref provider ref w.db ≡ some p
    → find? (pending_of p.id refund_ref) w.db.refunds ≡ none
    → ((refund_section env provider ref refund_ref w).1.db.payments ≡ w.db.payments)
      × ((refund_section env provider ref refund_ref w).1.db.ledger ≡ w.db.ledger)
unfolding refund_section ◌>>=◌ select exec settle_refund settle_refund_row updated account_refund
refund_section-none env provider ref refund_ref w p f n = rw (f, n) (refl, refl)

refund_section-some :
    (env : Env) (provider : PaymentProviderName) (ref refund_ref : String) (w : World) (id : ℕ)
    (p : Payment) (r : Refund)
    → (refund_section env provider ref refund_ref w).0 ≡ ok id
    → find_by_provider_ref provider ref w.db ≡ some p
    → find? (pending_of p.id refund_ref) w.db.refunds ≡ some r
    → (any
          (λ (b : Payment).
            (p.id == b.id) && ltb b.amount_minor (b.refunded_amount_minor + r.amount_minor))
          w.db.payments
        ≡ false)
      × ((refund_section env provider ref refund_ref w).1.db.payments
          ≡ update_where (λ (b : Payment). p.id == b.id) (refunded_by r.amount_minor) w.db.payments)
      × ((refund_section env provider ref refund_ref w).1.db.ledger
          ≡ insert_legs env.new_group p.currency (refund_legs r.amount_minor p) w.db.ledger)
unfolding refund_section ◌>>=◌ select exec settle_refund settle_refund_row updated add_refunded
refund_section-some env provider ref refund_ref w id p r h f n =
    let over = λ (b : Payment).
      (p.id == b.id) && ltb b.amount_minor (b.refunded_amount_minor + r.amount_minor) in
    elim (Bool-cases (any over w.db.payments)) [
      | inl e ↦ let stopped = rw (f, n, e) at h in absurd (ground arith)
      | inr e ↦ (e, rw (f, n, e, account_refund-legs) refl, rw (f, n, e, account_refund-legs) refl)
    ]

refund_section-unknown :
    (env : Env) (provider : PaymentProviderName) (ref refund_ref : String) (w : World) (id : ℕ)
    → (refund_section env provider ref refund_ref w).0 ≡ ok id
    → find_by_provider_ref provider ref w.db ≢ none
unfolding refund_section ◌>>=◌ select
refund_section-unknown env provider ref refund_ref w id h f = let stopped = rw f at h in cc

after_refund :
    (env : Env) (provider : PaymentProviderName) (ref refund_ref : String) (w : World) (id : ℕ)
    → IsReconciled w.db
    → (refund_section env provider ref refund_ref w).0 ≡ ok id
    → (o : Option Payment) → find_by_provider_ref provider ref w.db ≡ o
    → IsReconciled (refund_section env provider ref refund_ref w).1.db
unfolding find_by_provider_ref
after_refund env provider ref refund_ref w id v h none f =
    absurd (refund_section-unknown env provider ref refund_ref w id h f)
after_refund env provider ref refund_ref w id v h (some p) f =
    elim (Option-cases (find? (pending_of p.id refund_ref) w.db.refunds)) [
      | inl n ↦
          let (pay, led) = refund_section-none env provider ref refund_ref w p f n in
          record { rows = rw (pay, led) v.rows }
      | inr (r, n) ↦
          let (within, pay, led) = refund_section-some env provider ref refund_ref w id p r h f n in
          record {
            rows =
                rw (pay, led)
                  (AllAgree-refund env.new_group r.amount_minor p.currency _ p w.db.ledger
                    w.db.payments f within v.rows);
          }
    ]

pub refund-IsReconciled :
    (env : Env) (provider : PaymentProviderName) (ref refund_ref : String)
    → Preserves IsReconciled (transaction (refund_section env provider ref refund_ref))
unfolding transaction
refund-IsReconciled env provider ref refund_ref = record {
  after = λ w v. by_outcome w v (refund_section env provider ref refund_ref w).0 refl;
}
  where
    by_outcome :
        (w : World)
        → IsReconciled w.db
        → (o : Result Failure ℕ) → (refund_section env provider ref refund_ref w).0 ≡ o
        → IsReconciled (transaction (refund_section env provider ref refund_ref) w).1.db
    by_outcome w v (ok id) e =
        rw (e, transaction)
          (after_refund env provider ref refund_ref w id v e
            (find_by_provider_ref provider ref w.db) refl)
    by_outcome w v (err x) e = rw (e, transaction) v
