-- ===== src/Moderation/Repository.antt =====
-- The statements of backend/src/modules/moderation/infrastructure/moderation.repository.ts, with
-- the triggers and the check of db/migrations/0016_moderation_compliance.sql that an UPDATE of
-- `properties` meets.
use last_chance_platform.Prelude.{
  ℕ, String, Bool, true, false, not, ◌&&◌, ◌||◌, Option, none, some, List, [], ◌∷◌, ◌++◌, any,
  find?, filter, ltb, ◌==◌, if◌then◌else◌, is_some, is_text, length,
}
use last_chance_platform.Prelude.Result.{ok, fail_if, ◌>>=◌, ◌>>◌}
use last_chance_platform.Prelude.Sql.{update_where}
use last_chance_platform.Errors.{SqlState}
use last_chance_platform.Domain.Inventory.{
  PropertyStatus, ModerationStatus, StayUnit, Property, HostProfile,
}
use last_chance_platform.Domain.Moderation.{
  ModerationReasonCode, PropertyDocumentType, PropertyDocument, same_moderation,
}
use last_chance_platform.World.Store.{Db}
use last_chance_platform.World.Effects.{M, Statement, exec, transaction}
use last_chance_platform.Moderation.Lifecycle.{property_moderation_transitions}

-- A gap that would block an approval.
pub data Blocker : Type 0 where
  national_address_missing permit_number_missing permit_expiry_missing permit_expired : Blocker
  deed_or_lease_missing permit_document_missing host_kyc_incomplete no_units : Blocker

-- The columns of `QUEUE_SELECT` that a decision depends on.
pub record QueueRow : Type 0 where
  pub property_id : ℕ
  pub moderation_status : ModerationStatus
  pub host_id : ℕ
  pub host_verified : Bool
  pub national_short_address : Option String
  pub tourism_permit_number : Option String
  pub tourism_permit_expires_at : Option ℕ
  pub unit_count : ℕ
  pub document_count : ℕ
  pub has_deed : Bool
  pub has_permit_doc : Bool
  pub permit_expired : Bool

-- `!value`, of a text that may be NULL
abbrev pub is_blank : Option String → Bool
is_blank none = true
is_blank (some s) = is_text (some s) ""

unfoldable pub is_deed : PropertyDocumentType → Bool
is_deed PropertyDocumentType.title_deed = true
is_deed PropertyDocumentType.lease_contract = true
is_deed _ = false

unfoldable pub is_permit : PropertyDocumentType → Bool
is_permit PropertyDocumentType.tourism_permit = true
is_permit _ = false

abbrev pub note_if : Bool → Blocker → List Blocker
note_if true b = b ∷ []
note_if false _ = []

-- `blockersFor`
unfoldable pub blockers_for : QueueRow → List Blocker
blockers_for row =
    note_if (is_blank row.national_short_address) Blocker.national_address_missing
    ++ (note_if (is_blank row.tourism_permit_number) Blocker.permit_number_missing
        ++ (note_if (not (is_some row.tourism_permit_expires_at)) Blocker.permit_expiry_missing
            ++ (note_if row.permit_expired Blocker.permit_expired
                ++ (note_if (not row.has_deed) Blocker.deed_or_lease_missing
                    ++ (note_if (not row.has_permit_doc) Blocker.permit_document_missing
                        ++ (note_if (not row.host_verified) Blocker.host_kyc_incomplete
                            ++ note_if (row.unit_count == 0) Blocker.no_units))))))

-- the property with the id, unless it is deleted
unfoldable pub live_property : ℕ → List Property → Option Property
live_property id rows = find? (λ (p : Property). p.id == id && not p.is_deleted) rows

unfoldable pub live_documents : ℕ → Db → List PropertyDocument
live_documents id db =
    filter (λ (d : PropertyDocument). d.property_id == id && not d.is_deleted) db.documents

-- `listUnitsWithPhotos`, of each unit its row
unfoldable pub list_units : ℕ → Db → List StayUnit
list_units id db = filter (λ (u : StayUnit). u.property_id == id && not u.is_deleted) db.units

unfoldable pub queue_row : ℕ → Property → HostProfile → Db → QueueRow
queue_row today p h db = record {
  property_id = p.id;
  moderation_status = p.moderation_status;
  host_id = h.user_id;
  host_verified = h.is_verified;
  national_short_address = p.national_short_address;
  tourism_permit_number = p.tourism_permit_number;
  tourism_permit_expires_at = p.tourism_permit_expires_at;
  unit_count = length (list_units p.id db);
  document_count = length (live_documents p.id db);
  has_deed = any (λ (d : PropertyDocument). is_deed d.document_type) (live_documents p.id db);
  has_permit_doc =
      any (λ (d : PropertyDocument). is_permit d.document_type) (live_documents p.id db);
  permit_expired = elim p.tourism_permit_expires_at [ none ↦ false | some t ↦ ltb t today ];
}

-- `findOne`, on the day `today`: no row is its `PropertyNotFoundError`
unfoldable pub find_one : ℕ → ℕ → Db → Option QueueRow
find_one today id db = elim (live_property id db.properties) [
  | none ↦ none
  | some p ↦ elim (find? (λ (h : HostProfile). h.user_id == p.host_id) db.hosts) [
    | none ↦ none
    | some h ↦ some (queue_row today p h db)
  ]
]

-- `currentStatus`
unfoldable pub current_status : ℕ → Db → Option ModerationStatus
current_status id db = elim (live_property id db.properties) [
  | none ↦ none
  | some p ↦ some p.moderation_status
]

-- `hostIdFor`
unfoldable pub host_id_for : ℕ → Db → Option ℕ
host_id_for id db = elim (live_property id db.properties) [ none ↦ none | some p ↦ some p.host_id ]

-- `storageKeyFor`
unfoldable pub storage_key_for : ℕ → ℕ → Db → Option (String × String × String)
storage_key_for property_id document_id db =
    elim (find?
      (λ (d : PropertyDocument).
        (d.id == document_id && d.property_id == property_id) && not d.is_deleted)
      db.documents) [ none ↦ none | some d ↦ some (d.storage_key, d.content_type, d.file_name) ]

-- `property_moderation_transitions` has the row
abbrev pub is_listed : ModerationStatus → ModerationStatus → Bool
is_listed from to =
    any (λ row. same_moderation row.0 from && same_moderation row.1 to)
      property_moderation_transitions

-- `properties_approved_requires_compliance`
unfoldable pub is_compliant : Property → Bool
is_compliant p =
    not (same_moderation p.moderation_status ModerationStatus.approved)
    || (is_some p.national_short_address
        && (is_some p.tourism_permit_number && is_some p.tourism_permit_expires_at))

-- `NULLIF(…, '')`
abbrev pub null_if_empty : Option String → Option String
null_if_empty none = none
null_if_empty (some s) = if is_text (some s) "" then none else some s

-- The row that `fn_property_moderation_log` adds, if the status changed.
unfoldable pub log_decision :
    Property → Property → Option ModerationReasonCode → Option String → Statement (Unit {0})
log_decision old new reason notes db =
    if same_moderation old.moderation_status new.moderation_status then ok (tt, db) else (do
      fail_if
          (same_moderation new.moderation_status ModerationStatus.rejected && not (is_some reason))
          SqlState.lc411
      ok (
        tt,
        record db {
          moderation_events =
              record {
                property_id = new.id;
                from_status = old.moderation_status;
                to_status = new.moderation_status;
                reason_code = reason;
                notes = null_if_empty notes;
              }
              ∷ db.moderation_events;
        },
      ))

-- What an UPDATE of one row of `properties` to `new` does: `fn_property_moderation_guard`, the
-- check, the write, and the log.
unfoldable pub write_property :
    Property
    → Property
    → Option ModerationReasonCode
    → Option String
    → Statement (Option ModerationStatus)
write_property old new reason notes db = do
  fail_if
      (not (same_moderation old.moderation_status new.moderation_status)
        && not (is_listed old.moderation_status new.moderation_status))
      SqlState.lc410
  fail_if (not (is_compliant new)) SqlState.check_violation
  logged ← log_decision old new reason notes (record db {
    properties = update_where (λ (p : Property). p.id == new.id) (λ _. new) db.properties;
  })
  ok (some new.moderation_status, logged.1)

pub record Transition : Type 0 where
  pub property_id : ℕ
  pub from : ModerationStatus
  pub to : ModerationStatus
  pub reason_code : Option ModerationReasonCode
  pub notes : Option String
  pub activate : Bool

unfoldable pub moved : Transition → Property → Property
moved t p = record p {
  moderation_status = t.to;
  status = if t.activate then PropertyStatus.active else p.status;
}

unfoldable pub write_matched : Transition → Option Property → Statement (Option ModerationStatus)
write_matched t none db = ok (none, db)
write_matched t (some p) db = write_property p (moved t p) t.reason_code t.notes db

-- The UPDATE of `transition`, by its id and the status that was read.
unfoldable pub update_moderation : Transition → Statement (Option ModerationStatus)
update_moderation t db =
    write_matched t
      (find?
        (λ (p : Property).
          p.id == t.property_id && (not p.is_deleted && same_moderation p.moderation_status t.from))
        db.properties)
      db

-- `transition`: `set_config` reaches the trigger as the reason and the notes.
unfoldable pub transition_property : Transition → M (Option ModerationStatus)
transition_property t = transaction (exec (update_moderation t))
