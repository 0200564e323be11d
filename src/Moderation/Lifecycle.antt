-- ===== src/Moderation/Lifecycle.antt =====
-- The rows of `property_moderation_transitions` (db/migrations/0016_moderation_compliance.sql) and
-- the engine that loads them (backend/src/modules/moderation/application/moderation-fsm.engine.ts).
use last_chance_platform.Prelude.{Bool, not, List, [], ◌∷◌}
use last_chance_platform.Prelude.Action.{throw_if}
use last_chance_platform.Errors.{DomainError, domain}
use last_chance_platform.Domain.Inventory.{ModerationStatus}
use last_chance_platform.Domain.Moderation.{same_moderation}
use last_chance_platform.Fsm.{Transitions, load, can_transition, allowed_from}
use last_chance_platform.World.Effects.{M}

abbrev pub property_moderation_transitions : List (ModerationStatus × ModerationStatus)
property_moderation_transitions =
    (ModerationStatus.draft, ModerationStatus.pending_approval)
    ∷ (ModerationStatus.pending_approval, ModerationStatus.approved)
    ∷ (ModerationStatus.pending_approval, ModerationStatus.rejected)
    ∷ (ModerationStatus.pending_approval, ModerationStatus.draft)
    ∷ (ModerationStatus.rejected, ModerationStatus.pending_approval)
    ∷ (ModerationStatus.approved, ModerationStatus.suspended)
    ∷ (ModerationStatus.approved, ModerationStatus.pending_approval)
    ∷ (ModerationStatus.suspended, ModerationStatus.approved)
    ∷ (ModerationStatus.suspended, ModerationStatus.rejected)
    ∷ []

-- `ModerationFsmEngine.transitions`, after boot
unfoldable pub moderation_fsm : Transitions same_moderation
moderation_fsm = load same_moderation property_moderation_transitions

-- `ModerationFsmEngine.canTransition`
unfoldable pub may_become : ModerationStatus → ModerationStatus → Bool
may_become from to = can_transition same_moderation moderation_fsm from to

-- `ModerationFsmEngine.assertTransition`
unfoldable pub assert_moderation : ModerationStatus → ModerationStatus → M (Unit {0})
assert_moderation from to =
    throw_if (not (may_become from to)) (domain DomainError.invalid_moderation_transition)

-- `ModerationFsmEngine.allowedFrom`
unfoldable pub allowed_next : ModerationStatus → List ModerationStatus
allowed_next from = allowed_from same_moderation moderation_fsm from
