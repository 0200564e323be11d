-- ===== src/Moderation/Service.antt =====
-- backend/src/modules/moderation/application/moderation.service.ts. The search indexer
-- (backend/src/modules/search), which speaks to OpenSearch, and the notification port are arguments.
pub mod Keeps
pub mod History
pub mod Outcome
use last_chance_platform.Prelude.{
  ℕ, zero, suc, String, Bool, true, false, not, Option, none, some, List, [], ◌∷◌, ◌==◌, ltb,
  if◌then◌else◌,
}
use last_chance_platform.Prelude.Action.{pure, throw, or_throw, throw_if, ◌>>=◌, ◌>>◌}
use last_chance_platform.Errors.{DomainError, domain}
use last_chance_platform.Domain.Inventory.{ModerationStatus, StayUnit}
use last_chance_platform.Domain.Moderation.{ModerationReasonCode}
use last_chance_platform.World.Effects.{M, Env, select, pause, attempt}
use last_chance_platform.Moderation.Lifecycle.{assert_moderation}
use last_chance_platform.Moderation.Repository.{
  Blocker, blockers_for, find_one, current_status, host_id_for, list_units, Transition,
  transition_property,
}
use last_chance_platform.Moderation.Notify.{
  NotificationPort, notify_approved, notify_rejected, notify_suspended,
}

-- What one process has: the day by the database's clock, the port, and the indexer.
pub record Desk : Type 0 where
  pub env : Env
  pub today : ℕ
  pub port : NotificationPort
  pub index_unit : ℕ → M (Unit {0})

abbrev pub is_none : List Blocker → Bool
is_none [] = true
is_none (_ ∷ _) = false

unfoldable pub status_or_throw : ℕ → M ModerationStatus
status_or_throw id = do
  found ← select (current_status id)
  or_throw found (domain DomainError.property_not_found)

-- Zero rows: the status moved between the read and the write.
unfoldable pub applied_or_conflict : Option ModerationStatus → M ModerationStatus
applied_or_conflict applied = or_throw applied (domain DomainError.moderation_conflict)

-- `move`
unfoldable pub move :
    Desk
    → ℕ
    → ModerationStatus
    → Option ModerationReasonCode
    → Option String
    → Bool
    → M ModerationStatus
move desk id to reason notes activate = do
  from ← status_or_throw id
  assert_moderation from to
  pause desk.env 1
  applied ← transition_property (record {
    property_id = id;
    from = from;
    to = to;
    reason_code = reason;
    notes = notes;
    activate = activate;
  })
  applied_or_conflict applied

-- `assertHostOwns`
unfoldable pub assert_host_owns : ℕ → ℕ → M (Unit {0})
assert_host_owns id user = do
  found ← select (host_id_for id)
  host ← or_throw found (domain DomainError.property_not_found)
  throw_if (not (host == user)) (domain DomainError.forbidden)

-- `findOne`, and the refusal of a listing with gaps
unfoldable pub assert_no_blockers : Desk → ℕ → M (Unit {0})
assert_no_blockers desk id = do
  found ← select (find_one desk.today id)
  row ← or_throw found (domain DomainError.property_not_found)
  throw_if (not (is_none (blockers_for row))) (domain DomainError.validation_failed)

-- `reindex`: best effort, unit by unit
unfoldable pub index_each : Desk → List StayUnit → M (Unit {0})
index_each desk [] = pure tt
index_each desk (u ∷ rest) = attempt (desk.index_unit u.id) >> index_each desk rest

unfoldable pub reindex : Desk → ℕ → M (Unit {0})
reindex desk id = attempt (do units ← select (list_units id); index_each desk units)

unfoldable pub submit : Desk → ℕ → ℕ → M ModerationStatus
submit desk id user = do
  assert_host_owns id user
  pause desk.env 2
  assert_no_blockers desk id
  pause desk.env 3
  move desk id ModerationStatus.pending_approval none none false

unfoldable pub withdraw : Desk → ℕ → ℕ → M ModerationStatus
withdraw desk id user = do
  assert_host_owns id user
  pause desk.env 2
  move desk id ModerationStatus.draft none none false

unfoldable pub approve : Desk → ℕ → M ModerationStatus
approve desk id = do
  assert_no_blockers desk id
  pause desk.env 3
  result ← move desk id ModerationStatus.approved none none true
  notify_approved desk.port id
  reindex desk id
  pure result

unfoldable pub reject_with : Desk → ℕ → ModerationReasonCode → Option String → M ModerationStatus
reject_with desk id reason notes = do
  result ← move desk id ModerationStatus.rejected (some reason) notes false
  notify_rejected desk.port id reason
  reindex desk id
  pure result

unfoldable pub reject : Desk → ℕ → Option ModerationReasonCode → Option String → M ModerationStatus
reject desk id none notes = throw (domain DomainError.rejection_reason_required)
reject desk id (some reason) notes = reject_with desk id reason notes

unfoldable pub suspend : Desk → ℕ → ModerationReasonCode → Option String → M ModerationStatus
suspend desk id reason notes = do
  result ← move desk id ModerationStatus.suspended (some reason) notes false
  notify_suspended desk.port id reason
  reindex desk id
  pure result

unfoldable pub reinstate : Desk → ℕ → Option String → M ModerationStatus
reinstate desk id notes = do
  result ← move desk id ModerationStatus.approved none notes true
  reindex desk id
  pure result

unfoldable pub require_re_review : Desk → ℕ → Option String → M ModerationStatus
require_re_review desk id notes = move desk id ModerationStatus.pending_approval none notes false
