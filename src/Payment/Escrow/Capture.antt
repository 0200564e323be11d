-- ===== src/Payment/Escrow/Capture.antt =====
-- About the transaction of a capture: the escrow entry and the row of the payment
-- (backend/src/modules/payment, the webhook service).
use last_chance_platform.Prelude.{
  ℕ, ◌+◌, ◌≡◌, refl, sym, ap, ◌∙◌, String, true, ◌&&◌, Option, some, List, [], ◌∷◌, find?,
  find?-sound, ◌==◌, is_some, if◌then◌else◌, arith, Option-cases, inl, inr,
}
use last_chance_platform.Prelude.Sql.{update_where}
use last_chance_platform.Prelude.Result.{Result, ok, err}
use last_chance_platform.Prelude.Action.{◌>>=◌}
use last_chance_platform.Domain.Payment.{
  PaymentProviderName, PaymentStatus, LedgerAccount, LedgerDirection, LedgerEntry, LedgerLeg,
  Payment,
}
use last_chance_platform.World.Store.{Db, World}
use last_chance_platform.Errors.{Failure}
use last_chance_platform.World.Keeps.{Preserves}
use last_chance_platform.World.Effects.{Env, exec, select, transaction}
use last_chance_platform.Payment.Ledger.{insert_legs, post_group, side_total, leg_total}
use last_chance_platform.Payment.Repository.{updated, is_open, find_by_provider_ref, mark_captured}
use last_chance_platform.Payment.Webhook.{payment_leg, account_capture, capture_section}
use last_chance_platform.Payment.Escrow.{came_in, went_back, Agrees, AllAgree, IsReconciled}
use last_chance_platform.Payment.Escrow.Rows.{
  update_where-none, AllAgree-update, Agrees-found, found_once,
}

abbrev capture_legs : Payment → List LedgerLeg
capture_legs p =
    payment_leg LedgerAccount.provider_clearing LedgerDirection.debit p.amount_minor p
    ∷ payment_leg LedgerAccount.platform_escrow LedgerDirection.credit p.amount_minor p
    ∷ []

came_in-capture :
    (k g : ℕ) (c : String) (p : Payment) (ledger : List LedgerEntry)
    → came_in k (insert_legs g c (capture_legs p) ledger)
      ≡ ((if p.id == k then p.amount_minor else 0) + came_in k ledger)
unfolding insert_legs side_total payment_leg
came_in-capture k g c p ledger = ground arith

went_back-capture :
    (k g : ℕ) (c : String) (p : Payment) (ledger : List LedgerEntry)
    → went_back k (insert_legs g c (capture_legs p) ledger) ≡ went_back k ledger
unfolding insert_legs side_total payment_leg
went_back-capture k g c p ledger = ground arith

abbrev captured_at_now : ℕ → Payment → Payment
captured_at_now now r = record r { status = PaymentStatus.captured; captured_at = some now }

-- The row as captured agrees with the ledger that has the two legs more.
Agrees-capture :
    (g now : ℕ) (p : Payment) (ledger : List LedgerEntry)
    → is_open p.status ≡ true
    → Agrees ledger p
    → Agrees (insert_legs g p.currency (capture_legs p) ledger) (captured_at_now now p)
Agrees-capture g now p ledger opened (i, b, o, w) = (
  came_in-capture p.id g p.currency p ledger ∙ ground arith,
  went_back-capture p.id g p.currency p ledger ∙ b,
  refl,
  w,
)

AllAgree-capture :
    (g now : ℕ) (p : Payment) (ledger : List LedgerEntry) (rows : List Payment)
    → find? (λ (r : Payment). (p.id == r.id) && is_open r.status) rows ≡ some p
    → AllAgree ledger rows
    → AllAgree (insert_legs g p.currency (capture_legs p) ledger) (
        update_where
          (λ (r : Payment). (p.id == r.id) && is_open r.status)
          (captured_at_now now)
          rows)
AllAgree-capture g now p ledger rows h v =
    let opened = find?-sound (λ (r : Payment). (p.id == r.id) && is_open r.status) rows p h in
    let a = Agrees-found ledger _ rows p v h in
    AllAgree-update ledger (insert_legs g p.currency (capture_legs p) ledger) p.id
      (λ k ne. came_in-capture k g p.currency p ledger ∙ ground arith)
      (λ k ne. went_back-capture k g p.currency p ledger) (λ r. is_open r.status)
      (captured_at_now now) rows p (λ r. refl) h (Agrees-capture g now p ledger (ground arith) a) v

-- What the transaction does when it returns: nothing, or the update and the two legs.
capture_section-ok :
    (env : Env) (provider : PaymentProviderName) (ref : String) (amount : Option ℕ) (w : World)
    (id : ℕ)
    → (capture_section env provider ref amount w).0 ≡ ok id
    → (p : Payment) × (find_by_provider_ref provider ref w.db ≡ some p)
      × ((capture_section env provider ref amount w).1.db ≡ (
          if is_some (find? (λ (r : Payment). (p.id == r.id) && is_open r.status) w.db.payments)
          then record w.db {
            payments =
                update_where
                  (λ (r : Payment). (p.id == r.id) && is_open r.status)
                  (captured_at_now env.db_now)
                  w.db.payments;
            ledger = insert_legs env.new_group p.currency (capture_legs p) w.db.ledger;
          }
          else record w.db {
            payments =
                update_where
                  (λ (r : Payment). (p.id == r.id) && is_open r.status)
                  (captured_at_now env.db_now)
                  w.db.payments;
          }))
unfolding capture_section ◌>>=◌ select exec mark_captured updated account_capture post_group
    leg_total payment_leg
capture_section-ok env provider ref amount w id h = ground arith

found_by_ref :
    (provider : PaymentProviderName) (ref : String) (d : Db) (p r : Payment)
    → IsReconciled d
    → find_by_provider_ref provider ref d ≡ some p
    → find? (λ (b : Payment). (p.id == b.id) && is_open b.status) d.payments ≡ some r
    → p ≡ r
unfolding find_by_provider_ref
found_by_ref provider ref d p r v h k =
    found_once d.ledger _ (λ (b : Payment). is_open b.status) d.payments p r v.rows h k

after_capture :
    (env : Env) (provider : PaymentProviderName) (ref : String) (amount : Option ℕ) (w : World)
    (id : ℕ)
    → IsReconciled w.db
    → (capture_section env provider ref amount w).0 ≡ ok id
    → IsReconciled (capture_section env provider ref amount w).1.db
after_capture env provider ref amount w id v h =
    let (p, found, e) = capture_section-ok env provider ref amount w id h in
    let q = λ (r : Payment). (p.id == r.id) && is_open r.status in
    elim (Option-cases (find? q w.db.payments)) [
      | inl none_open ↦
          rw (e, none_open)
            (record {
              rows =
                  rw (update_where-none q (captured_at_now env.db_now) w.db.payments none_open)
                    v.rows;
            })
      | inr (r, open_row) ↦
          let same = found_by_ref provider ref w.db p r v found open_row in
          rw (e, open_row)
            (record {
              rows =
                  AllAgree-capture env.new_group env.db_now p w.db.ledger w.db.payments
                    (open_row ∙ ap some (sym same)) v.rows;
            })
    ]

pub capture-IsReconciled :
    (env : Env) (provider : PaymentProviderName) (ref : String) (amount : Option ℕ)
    → Preserves IsReconciled (transaction (capture_section env provider ref amount))
unfolding transaction
capture-IsReconciled env provider ref amount = record {
  after = λ w v. by_outcome w v (capture_section env provider ref amount w).0 refl;
}
  where
    by_outcome :
        (w : World)
        → IsReconciled w.db
        → (o : Result Failure ℕ) → (capture_section env provider ref amount w).0 ≡ o
        → IsReconciled (transaction (capture_section env provider ref amount) w).1.db
    by_outcome w v (ok id) e = rw (e, transaction) (after_capture env provider ref amount w id v e)
    by_outcome w v (err x) e = rw (e, transaction) v
