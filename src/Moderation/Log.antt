-- ===== src/Moderation/Log.antt =====
-- About the table `properties` and the log `property_moderation_events` together.
pub mod Writes
use mathlib.Core.Path.{subst}
use last_chance_platform.Prelude.{
  ℕ, ◌≡◌, ◌↔◌, refl, sym, ap, ◌∙◌, Bool, true, false, not, ◌&&◌, Option, none, some, List, [], ◌∷◌,
  any, find?, find?-sound, is_some, ◌==◌, ==_iff, ==_refl, if◌then◌else◌, String, Bool-cases, inl,
  inr, arith,
}
use last_chance_platform.Prelude.Result.{Result, ok, err, ◌>>=◌}
use last_chance_platform.Prelude.Sql.{update_where}
use last_chance_platform.Errors.{SqlState}
use last_chance_platform.Domain.Inventory.{ModerationStatus, Property}
use last_chance_platform.Domain.Moderation.{ModerationReasonCode, ModerationEvent, same_moderation}
use last_chance_platform.World.Store.{Db}
use last_chance_platform.World.Keeps.{
  Preserves, StatementPreserves, Preserves-exec, Preserves-transaction,
}
use last_chance_platform.Moderation.Repository.{
  is_listed, is_compliant, null_if_empty, log_decision, write_property, Transition, moved,
  write_matched, update_moderation, transition_property,
}

-- The decisions on one listing, the newest first, lead from DRAFT to its status by rows of the
-- transition table, and each rejection has a reason.
abbrev pub History : ℕ → ModerationStatus → List ModerationEvent → Type 0
History id status [] = status ≡ ModerationStatus.draft
History id status (e ∷ events) =
    if e.property_id == id
    then ((e.to_status ≡ status)
        × (is_listed e.from_status status ≡ true)
        × (status ≡ ModerationStatus.rejected → is_some e.reason_code ≡ true)
        × History id e.from_status events)
    else History id status events

-- Ids are unique, each row meets the check, and its log tells how it came to its status.
abbrev pub AllLogged : List ModerationEvent → List Property → Type 0
AllLogged events [] = Unit
AllLogged events (p ∷ rows) =
    (any (λ (q : Property). p.id == q.id) rows ≡ false)
    × (is_compliant p ≡ true)
    × History p.id p.moderation_status events
    × AllLogged events rows

pub record IsLogged (db : Db) : Type 0 where
  pub rows : AllLogged db.moderation_events db.properties

pub eq_of_same_moderation : (a b : ModerationStatus) → same_moderation a b ≡ true → a ≡ b
unfolding same_moderation
eq_of_same_moderation a b h = ground arith

pub same_moderation_iff : (a b : ModerationStatus) → (same_moderation a b ≡ true) ↔ (a ≡ b)
unfolding same_moderation
same_moderation_iff a b = ground arith

any-id-update :
    (id : ℕ) (new : Property) (rows : List Property)
    → any
        (λ (q : Property). id == q.id)
        (update_where (λ (p : Property). p.id == new.id) (λ _. new) rows)
      ≡ any (λ (q : Property). id == q.id) rows
any-id-update id new [] = refl
any-id-update id new (p ∷ rows) = ground (arith, any-id-update id new rows)

-- An event of another listing is none of this one's.
absent_row :
    (id : ℕ) (new : Property) (rows : List Property)
    → any (λ (q : Property). new.id == q.id) rows ≡ false
    → update_where (λ (p : Property). p.id == new.id) (λ _. new) rows ≡ rows
absent_row id new [] h = refl
absent_row id new (p ∷ rows) h =
    let rest = absent_row id new rows (ground arith) in ground (arith, rest)

pub History-other :
    (id : ℕ) (status : ModerationStatus) (e : ModerationEvent) (events : List ModerationEvent)
    → (e.property_id == id) ≡ false
    → History id status events
    → History id status (e ∷ events)
History-other id status e events h k = rw h k

pub History-own :
    (id : ℕ) (status : ModerationStatus) (e : ModerationEvent) (events : List ModerationEvent)
    → (e.property_id == id) ≡ true
    → (e.to_status ≡ status)
      × (is_listed e.from_status status ≡ true)
      × (status ≡ ModerationStatus.rejected → is_some e.reason_code ≡ true)
      × History id e.from_status events
    → History id status (e ∷ events)
History-own id status e events h k = rw h k

-- The log may change as long as it tells the other listings' stories as before.
abbrev pub OthersKept : ℕ → List ModerationEvent → List ModerationEvent → Type 0
OthersKept id events events' =
    (other : ℕ) (s : ModerationStatus)
    → (id == other) ≡ false
    → History other s events
    → History other s events'

rest-AllLogged :
    (id : ℕ) (events events' : List ModerationEvent) (rows : List Property)
    → OthersKept id events events'
    → any (λ (q : Property). id == q.id) rows ≡ false
    → AllLogged events rows
    → AllLogged events' rows
rest-AllLogged id events events' [] kept h l = tt
rest-AllLogged id events events' (p ∷ rows) kept h l = (
  l.0,
  l.1,
  kept p.id p.moderation_status (ground arith) l.2,
  rest-AllLogged id events events' rows kept (ground arith) l.3,
)

none_with_id :
    (id : ℕ) (p : Property → Bool) (rows : List Property)
    → any (λ (q : Property). id == q.id) rows ≡ false
    → find? (λ (q : Property). q.id == id && p q) rows ≡ none
none_with_id id p [] h = refl
none_with_id id p (q ∷ rows) h = ground (arith, none_with_id id p rows)

found_head :
    (id : ℕ) (p : Property → Bool) (q old : Property) (rows : List Property)
    → (q.id == id) ≡ true
    → any (λ (r : Property). id == r.id) rows ≡ false
    → find? (λ (r : Property). r.id == id && p r) (q ∷ rows) ≡ some old
    → q ≡ old
found_head id p q old rows same apart found = ground (arith, none_with_id id p rows apart)

History-at :
    (id : ℕ) (q old : Property) (events : List ModerationEvent)
    → q.id ≡ id
    → q ≡ old
    → History q.id q.moderation_status events
    → History id old.moderation_status events
History-at id q old events same e h =
    subst (λ (s : ModerationStatus). History id s events)
      (ap (λ (r : Property). r.moderation_status) e)
      (subst (λ (i : ℕ). History i q.moderation_status events) same h)

pub update-AllLogged :
    (events events' : List ModerationEvent) (p : Property → Bool) (rows : List Property)
    (old new : Property)
    → OthersKept new.id events events'
    → (History new.id old.moderation_status events → History new.id new.moderation_status events')
    → is_compliant new ≡ true
    → find? (λ (q : Property). q.id == new.id && p q) rows ≡ some old
    → AllLogged events rows
    → AllLogged events' (update_where (λ (q : Property). q.id == new.id) (λ _. new) rows)
update-AllLogged events events' p [] old new kept own good found l = tt
update-AllLogged events events' p (q ∷ rows) old new kept own good found l =
    elim (Bool-cases (q.id == new.id)) [
      | inl same ↦
          let here = (==_iff q.id new.id).0 same in
          let apart = subst (λ (i : ℕ). any (λ (r : Property). i == r.id) rows ≡ false) here l.0 in
          let is_old = found_head new.id p q old rows same apart found in
          rw (same, absent_row new.id new rows apart)
            (
              apart,
              good,
              own (History-at new.id q old events here is_old l.2),
              rest-AllLogged new.id events events' rows kept apart l.3,
            )
      | inr other ↦
          let rest =
            update-AllLogged events events' p rows old new kept own good (ground arith) l.3 in
          rw other (
            any-id-update q.id new rows ∙ l.0,
            l.1,
            kept q.id q.moderation_status (ground arith) l.2,
            rest,
          )
    ]
