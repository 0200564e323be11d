-- ===== src/Moderation/Log/Writes.antt =====
-- About the UPDATE of `properties` that a decision makes, and the log it adds to.
use mathlib.Core.Path.{subst}
use last_chance_platform.Prelude.{
  ℕ, ◌≡◌, refl, sym, Bool, true, not, ◌&&◌, Option, none, some, ◌∷◌, find?, find?-sound, is_some,
  ◌==◌, ==_iff, ==_refl, if◌then◌else◌, String, Bool-cases, inl, inr, arith,
}
use last_chance_platform.Prelude.Result.{Result, ok, err, ◌>>=◌}
use last_chance_platform.Prelude.Sql.{update_where}
use last_chance_platform.Errors.{SqlState}
use last_chance_platform.Domain.Inventory.{ModerationStatus, Property}
use last_chance_platform.Domain.Moderation.{ModerationReasonCode, ModerationEvent, same_moderation}
use last_chance_platform.World.Store.{Db}
use last_chance_platform.World.Keeps.{
  Preserves, StatementPreserves, Preserves-exec, Preserves-transaction,
}
use last_chance_platform.Moderation.Repository.{
  is_listed, is_compliant, null_if_empty, log_decision, write_property, Transition, moved,
  write_matched, update_moderation, transition_property,
}
use last_chance_platform.Moderation.Log.{
  History, IsLogged, eq_of_same_moderation, History-other, History-own, update-AllLogged,
}

abbrev pub decision :
    Property → Property → Option ModerationReasonCode → Option String → ModerationEvent
decision old new reason notes = record {
  property_id = new.id;
  from_status = old.moderation_status;
  to_status = new.moderation_status;
  reason_code = reason;
  notes = null_if_empty notes;
}

abbrev pub replaced : Property → Db → Db
replaced new d = record d {
  properties = update_where (λ (p : Property). p.id == new.id) (λ _. new) d.properties;
}

-- What an UPDATE that returned went through.
pub write_property-eq-ok :
    (old new : Property) (reason : Option ModerationReasonCode) (notes : Option String) (d d' : Db)
    (s : Option ModerationStatus)
    → write_property old new reason notes d ≡ ok (s, d')
    → (is_compliant new ≡ true)
      × (if same_moderation old.moderation_status new.moderation_status
          then d' ≡ replaced new d
          else ((is_listed old.moderation_status new.moderation_status ≡ true)
              × (same_moderation new.moderation_status ModerationStatus.rejected ≡ true
                  → is_some reason ≡ true)
              × (d' ≡ record (replaced new d) {
                moderation_events = decision old new reason notes ∷ d.moderation_events;
              })))
unfolding write_property log_decision
write_property-eq-ok old new reason notes d d' s e =
    elim (Bool-cases (same_moderation old.moderation_status new.moderation_status)) [
      | inl same ↦ rw same (ground arith, ground arith)
      | inr changed ↦ rw changed (ground arith, (ground arith, (λ h. ground arith), ground arith))
    ]

abbrev answer : ModerationStatus → Unit {0} × Db → Result SqlState (Option ModerationStatus × Db)
answer n logged = ok (some n, logged.1)

answer-result :
    (r : Result SqlState (Unit {0} × Db)) (n s : ModerationStatus) (d' : Db)
    → (r >>= answer n) ≡ ok (some s, d')
    → s ≡ n
answer-result (err x) n s d' e = cc
answer-result (ok logged) n s d' e = cc

pub write_property-result :
    (old new : Property) (reason : Option ModerationReasonCode) (notes : Option String) (d d' : Db)
    (s : ModerationStatus)
    → write_property old new reason notes d ≡ ok (some s, d')
    → s ≡ new.moderation_status
unfolding write_property
write_property-result old new reason notes d d' s e =
    let written = log_decision old new reason notes (replaced new d) in
    let checked : (written >>= answer new.moderation_status) ≡ ok (some s, d') = ground arith in
    answer-result written new.moderation_status s d' checked

write_property-IsLogged :
    (p : Property → Bool) (old new : Property) (reason : Option ModerationReasonCode)
    (notes : Option String) (d d' : Db) (s : Option ModerationStatus)
    → find? (λ (q : Property). q.id == new.id && p q) d.properties ≡ some old
    → write_property old new reason notes d ≡ ok (s, d')
    → IsLogged d
    → IsLogged d'
unfolding same_moderation
write_property-IsLogged p old new reason notes d d' s found e h =
    let (good, effect) = write_property-eq-ok old new reason notes d d' s e in
    let e' = decision old new reason notes in
    elim (Bool-cases (same_moderation old.moderation_status new.moderation_status)) [
      | inl same ↦
          let unchanged = rw same at effect in
          let equal = eq_of_same_moderation old.moderation_status new.moderation_status same in
          subst IsLogged (sym unchanged) (record {
            rows =
                update-AllLogged d.moderation_events d.moderation_events p d.properties old new
                  (λ other st _ k. k)
                  (λ k.
                    subst (λ (st : ModerationStatus). History new.id st d.moderation_events) equal
                      k)
                  good found h.rows;
          })
      | inr changed ↦
          let (listed, reasoned, written) = rw changed at effect in
          subst IsLogged (sym written) (record {
            rows =
                update-AllLogged d.moderation_events (e' ∷ d.moderation_events) p d.properties old
                  new (λ other st apart k. History-other other st e' d.moderation_events apart k)
                  (λ k.
                    History-own new.id new.moderation_status e' d.moderation_events (==_refl new.id)
                      (refl, listed, (λ r. reasoned (rw r refl)), k))
                  good found h.rows;
          })
    ]

abbrev is_at : Transition → Property → Bool
is_at t p = not p.is_deleted && same_moderation p.moderation_status t.from

write_matched-IsLogged :
    (t : Transition) (found : Option Property) (d d' : Db) (s : Option ModerationStatus)
    → find? (λ (p : Property). p.id == t.property_id && is_at t p) d.properties ≡ found
    → write_matched t found d ≡ ok (s, d')
    → IsLogged d
    → IsLogged d'
unfolding write_matched moved
write_matched-IsLogged t none d d' s f e h = subst IsLogged (ground arith) h
write_matched-IsLogged t (some p) d d' s f e h =
    let sound =
      find?-sound (λ (q : Property). q.id == t.property_id && is_at t q) d.properties p f in
    let same = (==_iff p.id t.property_id).0 (ground arith) in
    write_property-IsLogged (is_at t) p (moved t p) t.reason_code t.notes d d' s
      (subst (λ (i : ℕ). find? (λ (q : Property). q.id == i && is_at t q) d.properties ≡ some p)
        (sym same) f)
      e h

update_moderation-IsLogged : (t : Transition) → StatementPreserves IsLogged (update_moderation t)
unfolding update_moderation
update_moderation-IsLogged t = record { after = λ d e h. write_matched-IsLogged t _ d _ _ refl e h }

pub transition_property-IsLogged : (t : Transition) → Preserves IsLogged (transition_property t)
unfolding transition_property
transition_property-IsLogged t =
    Preserves-transaction _ (Preserves-exec _ (update_moderation-IsLogged t))
