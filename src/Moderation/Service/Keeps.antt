-- ===== src/Moderation/Service/Keeps.antt =====
-- About the methods of the moderation service: what its one UPDATE keeps of the tables, and the
-- indexer and the other requests keep, each method keeps.
use last_chance_platform.Prelude.{ℕ, String, Bool, Option, none, some, List, [], ◌∷◌}
use last_chance_platform.Prelude.Result.{Result}
use last_chance_platform.Errors.{Failure}
use last_chance_platform.Domain.Inventory.{ModerationStatus, StayUnit}
use last_chance_platform.Domain.Moderation.{
  ModerationReasonCode, NotificationChannel, MessageKind, Message,
}
use last_chance_platform.World.Store.{Db, World}
use last_chance_platform.World.Keeps.{
  Preserves, EnvPreserves, Preserves-pure, Preserves-bind, Preserves-attempt, preserves_rules,
}
use last_chance_platform.Moderation.Lifecycle.{assert_moderation}
use last_chance_platform.Moderation.Repository.{Transition, transition_property}
use last_chance_platform.Moderation.Notify.{
  HostContact, NotificationPort, targets_of, send, fan_out, tell, notify_host, notify_approved,
  notify_rejected, notify_suspended,
}
use last_chance_platform.Moderation.Service.{
  Desk, status_or_throw, applied_or_conflict, move, assert_host_owns, assert_no_blockers,
  index_each, reindex, submit, withdraw, approve, reject_with, reject, suspend, reinstate,
  require_re_review,
}

module _ {P : Db → Type 0} where
  status_or_throw-Preserves : (id : ℕ) → Preserves P (status_or_throw id)
  unfolding status_or_throw
  status_or_throw-Preserves id = search preserves_rules

  assert_moderation-Preserves :
      (from to : ModerationStatus) → Preserves P (assert_moderation from to)
  unfolding assert_moderation
  assert_moderation-Preserves from to = search preserves_rules

  applied_or_conflict-Preserves :
      (o : Option ModerationStatus) → Preserves P (applied_or_conflict o)
  unfolding applied_or_conflict
  applied_or_conflict-Preserves o = search preserves_rules

  assert_host_owns-Preserves : (id user : ℕ) → Preserves P (assert_host_owns id user)
  unfolding assert_host_owns
  assert_host_owns-Preserves id user = search preserves_rules depth 9

  assert_no_blockers-Preserves : (desk : Desk) (id : ℕ) → Preserves P (assert_no_blockers desk id)
  unfolding assert_no_blockers
  assert_no_blockers-Preserves desk id = search preserves_rules depth 9

  send-Preserves : (port : NotificationPort) (m : Message) → Preserves P (send port m)
  unfolding send
  send-Preserves port m = record { after = λ w h. by_answer w h (port m) }
    where
      by_answer : (w : World) → P w.db → (r : Result Failure Bool) → P (send (λ _. r) m w).1.db
      by_answer w h (Result.ok _) = h
      by_answer w h (Result.err _) = h

  fan_out-Preserves :
      (port : NotificationPort) (kind : MessageKind)
      (targets : List (NotificationChannel × Option String))
      → Preserves P (fan_out port kind targets)
  unfolding fan_out
  fan_out-Preserves port kind [] = Preserves-pure tt
  fan_out-Preserves port kind ((channel, to) ∷ rest) =
      Preserves-bind _ _ (Preserves-attempt _ (send-Preserves port _))
        (λ _. fan_out-Preserves port kind rest)

  tell-Preserves :
      (port : NotificationPort) (kind : MessageKind) (o : Option HostContact)
      → Preserves P (tell port kind o)
  unfolding tell
  tell-Preserves port kind none = Preserves-pure tt
  tell-Preserves port kind (some c) = fan_out-Preserves port kind (targets_of c)

  notify_host-Preserves :
      (port : NotificationPort) (id : ℕ) (kind : MessageKind)
      → Preserves P (notify_host port id kind)
  unfolding notify_host
  notify_host-Preserves port id kind = search (preserves_rules, tell-Preserves)

  notify_approved-Preserves :
      (port : NotificationPort) (id : ℕ) → Preserves P (notify_approved port id)
  unfolding notify_approved
  notify_approved-Preserves port id = notify_host-Preserves port id _

  notify_rejected-Preserves :
      (port : NotificationPort) (id : ℕ) (reason : ModerationReasonCode)
      → Preserves P (notify_rejected port id reason)
  unfolding notify_rejected
  notify_rejected-Preserves port id reason = notify_host-Preserves port id _

  notify_suspended-Preserves :
      (port : NotificationPort) (id : ℕ) (reason : ModerationReasonCode)
      → Preserves P (notify_suspended port id reason)
  unfolding notify_suspended
  notify_suspended-Preserves port id reason = notify_host-Preserves port id _

ruleset moderation_rules = (
  preserves_rules, status_or_throw-Preserves, assert_moderation-Preserves,
  applied_or_conflict-Preserves, assert_host_owns-Preserves, assert_no_blockers-Preserves,
  notify_approved-Preserves, notify_rejected-Preserves, notify_suspended-Preserves,
)

-- What the process itself may not break: whatever runs at its awaits, and its indexer.
pub record DeskPreserves (P : Db → Type 0) (desk : Desk) : Type 0 where
  pub others : EnvPreserves P desk.env
  pub indexes : (unit : ℕ) → Preserves P (desk.index_unit unit)

module _ {P : Db → Type 0} (writes : (t : Transition) → Preserves P (transition_property t))
    (desk : Desk) (kept : DeskPreserves P desk) where
  index_each-Preserves : (units : List StayUnit) → Preserves P (index_each desk units)
  unfolding index_each
  index_each-Preserves [] = Preserves-pure tt
  index_each-Preserves (u ∷ rest) =
      Preserves-bind _ _ (Preserves-attempt _ (kept.indexes u.id)) (λ _. index_each-Preserves rest)

  reindex-Preserves : (id : ℕ) → Preserves P (reindex desk id)
  unfolding reindex
  reindex-Preserves id = search (preserves_rules, index_each-Preserves)

  pub move-Preserves :
      (id : ℕ) (to : ModerationStatus) (reason : Option ModerationReasonCode)
      (notes : Option String) (activate : Bool)
      → Preserves P (move desk id to reason notes activate)
  unfolding move
  move-Preserves id to reason notes activate =
      let others = kept.others in search (moderation_rules, writes) depth 12

  pub submit-Preserves : (id user : ℕ) → Preserves P (submit desk id user)
  unfolding submit
  submit-Preserves id user =
      let others = kept.others in search (moderation_rules, move-Preserves) depth 12

  pub withdraw-Preserves : (id user : ℕ) → Preserves P (withdraw desk id user)
  unfolding withdraw
  withdraw-Preserves id user =
      let others = kept.others in search (moderation_rules, move-Preserves) depth 12

  pub approve-Preserves : (id : ℕ) → Preserves P (approve desk id)
  unfolding approve
  approve-Preserves id =
      let others = kept.others in
      search (moderation_rules, move-Preserves, reindex-Preserves) depth 14

  reject_with-Preserves :
      (id : ℕ) (reason : ModerationReasonCode) (notes : Option String)
      → Preserves P (reject_with desk id reason notes)
  unfolding reject_with
  reject_with-Preserves id reason notes =
      search (moderation_rules, move-Preserves, reindex-Preserves) depth 12

  pub reject-Preserves :
      (id : ℕ) (reason : Option ModerationReasonCode) (notes : Option String)
      → Preserves P (reject desk id reason notes)
  unfolding reject
  reject-Preserves id none notes = search preserves_rules
  reject-Preserves id (some reason) notes = reject_with-Preserves id reason notes

  pub suspend-Preserves :
      (id : ℕ) (reason : ModerationReasonCode) (notes : Option String)
      → Preserves P (suspend desk id reason notes)
  unfolding suspend
  suspend-Preserves id reason notes =
      search (moderation_rules, move-Preserves, reindex-Preserves) depth 12

  pub reinstate-Preserves : (id : ℕ) (notes : Option String) → Preserves P (reinstate desk id notes)
  unfolding reinstate
  reinstate-Preserves id notes =
      search (moderation_rules, move-Preserves, reindex-Preserves) depth 12

  pub require_re_review-Preserves :
      (id : ℕ) (notes : Option String) → Preserves P (require_re_review desk id notes)
  unfolding require_re_review
  require_re_review-Preserves id notes = move-Preserves id _ none notes _
