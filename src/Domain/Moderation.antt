-- ===== src/Domain/Moderation.antt =====
-- backend/src/modules/moderation/domain/types.ts, and what a decision tells the host
-- (backend/src/modules/notifications/domain/notification.port.ts).
use last_chance_platform.Prelude.{ℕ, String, Bool, true, false, Option}
use last_chance_platform.Domain.Inventory.{ModerationStatus}

pub data ModerationReasonCode : Type 0 where
  document_illegible document_expired deed_name_mismatch : ModerationReasonCode
  permit_invalid permit_not_found national_address_mismatch : ModerationReasonCode
  location_mismatch photos_insufficient prohibited_content : ModerationReasonCode
  duplicate_listing other : ModerationReasonCode

pub data PropertyDocumentType : Type 0 where
  title_deed lease_contract tourism_permit national_address_cert : PropertyDocumentType
  other : PropertyDocumentType

pub record PropertyDocument : Type 0 where
  pub id : ℕ
  pub property_id : ℕ
  pub document_type : PropertyDocumentType
  pub storage_key : String
  pub file_name : String
  pub content_type : String
  pub is_deleted : Bool

-- A row of `property_moderation_events`, without its actor and its request.
pub record ModerationEvent : Type 0 where
  pub property_id : ℕ
  pub from_status : ModerationStatus
  pub to_status : ModerationStatus
  pub reason_code : Option ModerationReasonCode
  pub notes : Option String

unfoldable pub same_moderation : ModerationStatus → ModerationStatus → Bool
same_moderation ModerationStatus.draft ModerationStatus.draft = true
same_moderation ModerationStatus.pending_approval ModerationStatus.pending_approval = true
same_moderation ModerationStatus.approved ModerationStatus.approved = true
same_moderation ModerationStatus.rejected ModerationStatus.rejected = true
same_moderation ModerationStatus.suspended ModerationStatus.suspended = true
same_moderation _ _ = false

pub data NotificationChannel : Type 0 where
  sms email : NotificationChannel

-- What a message is about: a decision on a listing with its reason, or a code.
pub data MessageKind : Type 0 where
  listing_approved : ℕ → MessageKind
  listing_rejected listing_suspended : ℕ → ModerationReasonCode → MessageKind
  one_time_code : String → MessageKind

-- `NotificationMessage`, without the wording
pub record Message : Type 0 where
  pub channel : NotificationChannel
  pub to : Option String
  pub kind : MessageKind
