-- ===== src/Moderation/Service/Outcome.antt =====
-- About the calls of the moderation service that return: which row they matched and what they wrote.
use last_chance_platform.Prelude.{
  ℕ, ◌≡◌, refl, sym, ap, ◌∙◌, String, Bool, true, false, not, ◌&&◌, Option, none, some, List, [],
  ◌∷◌, find?, find?-sound, is_some, ◌==◌, if◌then◌else◌, Option-cases, inl, inr, arith,
}
use last_chance_platform.Prelude.Result.{ok}
use last_chance_platform.Prelude.Action.{pure, ◌>>=◌}
use last_chance_platform.Prelude.Sql.{update_where}
use last_chance_platform.Domain.Inventory.{PropertyStatus, ModerationStatus, Property}
use last_chance_platform.Domain.Moderation.{ModerationReasonCode, same_moderation}
use last_chance_platform.World.Store.{Db, World}
use last_chance_platform.World.Effects.{select, pause, exec, transaction, attempt}
use last_chance_platform.Moderation.Lifecycle.{
  property_moderation_transitions, moderation_fsm, assert_moderation, may_become,
}
use last_chance_platform.Moderation.Repository.{
  is_listed, is_compliant, live_property, current_status, log_decision, write_property, Transition,
  moved, write_matched, update_moderation, transition_property,
}
use last_chance_platform.Moderation.Service.{
  Desk, status_or_throw, applied_or_conflict, move, reindex, reinstate,
}
use last_chance_platform.Moderation.Log.{eq_of_same_moderation, same_moderation_iff}
use last_chance_platform.Moderation.Log.Writes.{
  replaced, decision, write_property-eq-ok, write_property-result,
}
use last_chance_platform.Fsm.Loaded.{can_transition-load}

abbrev asked :
    ℕ
    → ModerationStatus
    → ModerationStatus
    → Option ModerationReasonCode
    → Option String
    → Bool
    → Transition
asked id from to reason notes activate = record {
  property_id = id;
  from = from;
  to = to;
  reason_code = reason;
  notes = notes;
  activate = activate;
}

transition_property-ok :
    (t : Transition) (w : World) (s : ModerationStatus)
    → (transition_property t w).0 ≡ ok (some s)
    → update_moderation t w.db ≡ ok (some s, (transition_property t w).1.db)
unfolding transition_property transaction exec
transition_property-ok t w s h = ground arith

move-transition :
    (desk : Desk) (id : ℕ) (to : ModerationStatus) (reason : Option ModerationReasonCode)
    (notes : Option String) (activate : Bool) (w : World) (s : ModerationStatus)
    → (move desk id to reason notes activate w).0 ≡ ok s
    → (from : ModerationStatus) × (current_status id w.db ≡ some from)
      × (may_become from to ≡ true)
      × (update_moderation (asked id from to reason notes activate) (desk.env.meanwhile 1 w).db
          ≡ ok (some s, (move desk id to reason notes activate w).1.db))
unfolding move status_or_throw ◌>>=◌ select assert_moderation pause applied_or_conflict
move-transition desk id to reason notes activate w s h =
    elim (Option-cases (current_status id w.db)) [
      | inl gone ↦ absurd (ground arith)
      | inr (from, found) ↦
          let t = asked id from to reason notes activate in
          (
            from,
            found,
            ground arith,
            ground (arith, transition_property-ok t (desk.env.meanwhile 1 w) s),
          )
    ]

-- A decision that was made: the row that it matched, which was live and in the status `from`, from
-- which a row of the transition table leads to `to`; its row in the table has the new status, is active if
-- that was asked, and meets the check; a rejection has a reason.
pub record Decided (id : ℕ) (from to : ModerationStatus) (reason : Option ModerationReasonCode)
    (activate : Bool) (before after : Db) : Type 0 where
  pub old : Property
  pub found :
      find?
        (λ (p : Property).
          p.id == id && (not p.is_deleted && same_moderation p.moderation_status from))
        before.properties
      ≡ some old
  pub listed : is_listed from to ≡ true
  pub complies :
      is_compliant (record old {
        moderation_status = to;
        status = if activate then PropertyStatus.active else old.status;
      })
      ≡ true
  pub reasoned : to ≡ ModerationStatus.rejected → is_some reason ≡ true
  pub table :
      after.properties
      ≡ update_where
          (λ (p : Property). p.id == old.id)
          (λ _. record old {
            moderation_status = to;
            status = if activate then PropertyStatus.active else old.status;
          })
          before.properties

not_same : (from to : ModerationStatus) → is_listed from to ≡ true → same_moderation from to ≡ false
unfolding same_moderation
not_same from to h = ground arith

may_become-is_listed :
    (from to : ModerationStatus) → may_become from to ≡ true → is_listed from to ≡ true
unfolding may_become moderation_fsm
may_become-is_listed from to h =
    sym (
      can_transition-load same_moderation same_moderation_iff property_moderation_transitions from
        to)
    ∙ h

write_matched-Decided :
    (id : ℕ) (from to : ModerationStatus) (reason : Option ModerationReasonCode)
    (notes : Option String) (activate : Bool) (d d' : Db) (s : ModerationStatus)
    (o : Option Property)
    → may_become from to ≡ true
    → find?
        (λ (p : Property).
          p.id == id && (not p.is_deleted && same_moderation p.moderation_status from))
        d.properties
      ≡ o
    → write_matched (asked id from to reason notes activate) o d ≡ ok (some s, d')
    → (s ≡ to) × Decided id from to reason activate d d'
unfolding write_matched moved same_moderation
write_matched-Decided id from to reason notes activate d d' s none may f e = absurd (ground arith)
write_matched-Decided id from to reason notes activate d d' s (some old) may f e =
    let t = asked id from to reason notes activate in
    let listed = may_become-is_listed from to may in
    let sound = find?-sound _ d.properties old f in
    let (good, effect) = write_property-eq-ok old (moved t old) reason notes d d' (some s) e in
    let was = eq_of_same_moderation old.moderation_status from (ground arith) in
    let (_, reasoned, written) = rw (was, not_same from to listed) at effect in
    (
      write_property-result old (moved t old) reason notes d d' s e,
      record {
        old = old;
        found = f;
        listed = listed;
        complies = good;
        reasoned = λ r. reasoned (rw r refl);
        table = ap (λ (x : Db). x.properties) written;
      },
    )

-- When `move` returns, the result is the status that was asked for; the listing was read in some
-- status, after the await it was still live and in that status, a row of the transition table leads
-- to the new one, a rejection has a reason, the changed row meets the check on approvals, and the
-- table at the end is that table with the row replaced.
pub move-Decided :
    (desk : Desk) (id : ℕ) (to : ModerationStatus) (reason : Option ModerationReasonCode)
    (notes : Option String) (activate : Bool) (w : World) (s : ModerationStatus)
    → (move desk id to reason notes activate w).0 ≡ ok s
    → (s ≡ to)
      × ((from : ModerationStatus) × (current_status id w.db ≡ some from)
          × Decided id from to reason activate
              (desk.env.meanwhile 1 w).db
              (move desk id to reason notes activate w).1.db)
unfolding update_moderation
move-Decided desk id to reason notes activate w s h =
    let (from, found, may, updated) = move-transition desk id to reason notes activate w s h in
    let (result, decided) =
      write_matched-Decided id from to reason notes activate (desk.env.meanwhile 1 w).db
        (move desk id to reason notes activate w).1.db s _ may refl updated in
    (result, (from, found, decided))

-- A listing that waits for review, at the read and at the write, and has the papers of the check.
pub record Waiting (id : ℕ) (db : Db) : Type 0 where
  pub row : Property
  pub found : live_property id db.properties ≡ some row
  pub pending : row.moderation_status ≡ ModerationStatus.pending_approval
  pub address : is_some row.national_short_address ≡ true
  pub number : is_some row.tourism_permit_number ≡ true
  pub expiry : is_some row.tourism_permit_expires_at ≡ true

Waiting-status :
    (id : ℕ) (db : Db)
    → Waiting id db
    → current_status id db ≡ some ModerationStatus.pending_approval
unfolding current_status
Waiting-status id db k = ground (arith, k.found, k.pending)

live-matched :
    (id : ℕ) (rows : List Property) (p : Property)
    → find? (λ (q : Property). q.id == id && not q.is_deleted) rows ≡ some p
    → p.moderation_status ≡ ModerationStatus.pending_approval
    → find?
        (λ (q : Property).
          q.id == id
          && (not q.is_deleted
              && same_moderation q.moderation_status ModerationStatus.pending_approval))
        rows
      ≡ some p
unfolding same_moderation
live-matched id [] p f k = absurd (ground arith)
live-matched id (q ∷ rows) p f k = ground (arith, live-matched id rows p)

write_property-approves :
    (t : Transition) (p : Property) (d : Db)
    → t.to ≡ ModerationStatus.approved
    → p.moderation_status ≡ ModerationStatus.pending_approval
    → is_some p.national_short_address ≡ true
    → is_some p.tourism_permit_number ≡ true
    → is_some p.tourism_permit_expires_at ≡ true
    → (d' : Db) × (write_property p (moved t p) t.reason_code t.notes d
        ≡ ok (some ModerationStatus.approved, d'))
unfolding write_property log_decision is_compliant moved same_moderation
write_property-approves t p d to pending address number expiry = (
  record (replaced (moved t p) d) {
    moderation_events = decision p (moved t p) t.reason_code t.notes ∷ d.moderation_events;
  },
  ground arith,
)

update_moderation-approves :
    (id : ℕ) (notes : Option String) (d : Db)
    → Waiting id d
    → (d' : Db) × (update_moderation
          (asked id ModerationStatus.pending_approval ModerationStatus.approved none notes true)
          d
        ≡ ok (some ModerationStatus.approved, d'))
unfolding update_moderation write_matched live_property
update_moderation-approves id notes d k =
    let t = asked id ModerationStatus.pending_approval ModerationStatus.approved none notes true in
    let (d', e) = write_property-approves t k.row d refl k.pending k.address k.number k.expiry in
    (d', rw (live-matched id d.properties k.row k.found k.pending) e)

transition_property-returns :
    (t : Transition) (w : World) (s : ModerationStatus) (d' : Db)
    → update_moderation t w.db ≡ ok (some s, d')
    → (transition_property t w).0 ≡ ok (some s)
unfolding transition_property transaction exec
transition_property-returns t w s d' h = ground arith

may_approve : may_become ModerationStatus.pending_approval ModerationStatus.approved ≡ true
unfolding may_become moderation_fsm same_moderation
may_approve =
    can_transition-load same_moderation same_moderation_iff property_moderation_transitions
      ModerationStatus.pending_approval ModerationStatus.approved

move-approves :
    (desk : Desk) (id : ℕ) (notes : Option String) (w : World)
    → Waiting id w.db
    → Waiting id (desk.env.meanwhile 1 w).db
    → (move desk id ModerationStatus.approved none notes true w).0 ≡ ok ModerationStatus.approved
unfolding move status_or_throw ◌>>=◌ select assert_moderation pause applied_or_conflict
move-approves desk id notes w before after =
    let t = asked id ModerationStatus.pending_approval ModerationStatus.approved none notes true in
    let (d', e) = update_moderation-approves id notes (desk.env.meanwhile 1 w).db after in
    let returns =
      transition_property-returns t (desk.env.meanwhile 1 w) ModerationStatus.approved d' e in
    let read = Waiting-status id w.db before in ground (arith, may_approve)

reinstate-move :
    (desk : Desk) (id : ℕ) (notes : Option String) (w : World) (s : ModerationStatus)
    → (move desk id ModerationStatus.approved none notes true w).0 ≡ ok s
    → (reinstate desk id notes w).0 ≡ ok s
unfolding reinstate ◌>>=◌ reindex attempt pure
reinstate-move desk id notes w s h = ground arith

-- A listing that awaits review, at the read and at the write, and has its address and permit filled
-- in is approved by `reinstate`, whatever documents, units and verification of its host are
-- missing.
pub reinstate_skips_review :
    (desk : Desk) (id : ℕ) (notes : Option String) (w : World)
    → Waiting id w.db
    → Waiting id (desk.env.meanwhile 1 w).db
    → (reinstate desk id notes w).0 ≡ ok ModerationStatus.approved
reinstate_skips_review desk id notes w before after =
    reinstate-move desk id notes w ModerationStatus.approved
      (move-approves desk id notes w before after)
