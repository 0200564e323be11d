-- ===== src/Moderation/Service/History.antt =====
-- Any sequence of calls of the moderation service, each at its own desk, as hosts and reviewers
-- make them.
use last_chance_platform.Prelude.{ℕ, String, Bool, Option, List, [], ◌∷◌, All, any, ◌==◌, ◌&&◌}
use last_chance_platform.Domain.Inventory.{ModerationStatus}
use last_chance_platform.Domain.Moderation.{ModerationReasonCode, ModerationEvent, same_moderation}
use last_chance_platform.World.Store.{Db, World}
use last_chance_platform.World.Keeps.{Preserves}
use last_chance_platform.Moderation.Repository.{Transition, transition_property}
use last_chance_platform.Moderation.Log.{IsLogged}
use last_chance_platform.Moderation.Log.Writes.{transition_property-IsLogged}
use last_chance_platform.Moderation.Service.{
  Desk, submit, withdraw, approve, reject, suspend, reinstate, require_re_review,
}
use last_chance_platform.Moderation.Service.Keeps.{
  DeskPreserves, submit-Preserves, withdraw-Preserves, approve-Preserves, reject-Preserves,
  suspend-Preserves, reinstate-Preserves, require_re_review-Preserves,
}

-- A request, with the listing, and the host who makes it or the reason and the notes.
pub data Decision : Type 0 where
  submitted withdrawn : ℕ → ℕ → Decision
  approved : ℕ → Decision
  rejected : ℕ → Option ModerationReasonCode → Option String → Decision
  suspended : ℕ → ModerationReasonCode → Option String → Decision
  reinstated sent_back : ℕ → Option String → Decision

-- The world after a call, whether it returned or threw.
unfoldable pub decide : Desk → Decision → World → World
decide desk (Decision.submitted id user) w = (submit desk id user w).1
decide desk (Decision.withdrawn id user) w = (withdraw desk id user w).1
decide desk (Decision.approved id) w = (approve desk id w).1
decide desk (Decision.rejected id reason notes) w = (reject desk id reason notes w).1
decide desk (Decision.suspended id reason notes) w = (suspend desk id reason notes w).1
decide desk (Decision.reinstated id notes) w = (reinstate desk id notes w).1
decide desk (Decision.sent_back id notes) w = (require_re_review desk id notes w).1

unfoldable pub decide_all : List (Desk × Decision) → World → World
decide_all [] w = w
decide_all ((desk, d) ∷ rest) w = decide_all rest (decide desk d w)

module _ {P : Db → Type 0} (writes : (t : Transition) → Preserves P (transition_property t)) where
  decide-keeps :
      (desk : Desk) (d : Decision) (w : World)
      → DeskPreserves P desk
      → P w.db
      → P (decide desk d w).db
  unfolding decide
  decide-keeps desk (Decision.submitted id user) w k =
      (submit-Preserves writes desk k id user).after w
  decide-keeps desk (Decision.withdrawn id user) w k =
      (withdraw-Preserves writes desk k id user).after w
  decide-keeps desk (Decision.approved id) w k = (approve-Preserves writes desk k id).after w
  decide-keeps desk (Decision.rejected id reason notes) w k =
      (reject-Preserves writes desk k id reason notes).after w
  decide-keeps desk (Decision.suspended id reason notes) w k =
      (suspend-Preserves writes desk k id reason notes).after w
  decide-keeps desk (Decision.reinstated id notes) w k =
      (reinstate-Preserves writes desk k id notes).after w
  decide-keeps desk (Decision.sent_back id notes) w k =
      (require_re_review-Preserves writes desk k id notes).after w

  decide_all-keeps :
      (calls : List (Desk × Decision)) (w : World)
      → All (λ c. DeskPreserves P c.0) calls
      → P w.db
      → P (decide_all calls w).db
  unfolding decide_all
  decide_all-keeps [] w k h = h
  decide_all-keeps ((desk, d) ∷ rest) w k h =
      decide_all-keeps rest (decide desk d w) k.1 (decide-keeps desk d w k.0 h)

-- After any sequence of calls of the moderation service (submissions, withdrawals, approvals,
-- rejections, suspensions, reinstatements, re-reviews), each returning or throwing, the log of
-- decisions still tells of every listing how it came from a draft, along rows of the transition
-- table, to the status that it has, no rejection of it without a reason, and an approved listing
-- has its address and its permit; provided that it was so at first, and that whatever runs at the
-- awaits, and the indexer, keep it so.
pub decide_all-IsLogged :
    (calls : List (Desk × Decision)) (w : World)
    → All (λ c. DeskPreserves IsLogged c.0) calls
    → IsLogged w.db
    → IsLogged (decide_all calls w).db
decide_all-IsLogged = decide_all-keeps transition_property-IsLogged

-- The log says that the listing was submitted for review.
abbrev pub was_submitted : ℕ → List ModerationEvent → Bool
was_submitted id events =
    any
      (λ (e : ModerationEvent).
        e.property_id == id && same_moderation e.to_status ModerationStatus.pending_approval)
      events
