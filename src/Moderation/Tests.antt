-- ===== src/Moderation/Tests.antt =====
-- A listing from its submission to a booking's look at it, and the theorems at it.
use last_chance_platform.Prelude.{arith, true, false, ◌≡◌, refl, none, some, List, [], ◌∷◌, is_some}
use last_chance_platform.Prelude.Result.{ok}
use last_chance_platform.Prelude.Action.{pure, ◌>>=◌}
use last_chance_platform.Errors.{map_pg_error}
use last_chance_platform.Fsm.{can_transition, targets, load, load_onto, load_row, add_to, has, add}
use last_chance_platform.Domain.Inventory.{
  UnitStatus, PropertyStatus, ModerationStatus, StayUnit, Property, HostProfile,
}
use last_chance_platform.Domain.Moderation.{ModerationEvent, same_moderation}
use last_chance_platform.World.Store.{Db, World}
use last_chance_platform.World.Effects.{select, exec, pause, transaction, attempt}
use last_chance_platform.World.Keeps.{Preserves-pure}
use last_chance_platform.Booking.Repository.{unit_row}
use last_chance_platform.Booking.Service.{open_for_booking}
use last_chance_platform.Moderation.Repository.{
  Blocker, blockers_for, find_one, current_status, live_property, live_documents, list_units,
  queue_row, is_compliant, log_decision, write_property, moved, write_matched, update_moderation,
  transition_property,
}
use last_chance_platform.Moderation.Log.{IsLogged}
use last_chance_platform.Moderation.Lifecycle.{moderation_fsm, may_become, assert_moderation}
use last_chance_platform.Moderation.Service.{
  Desk, status_or_throw, applied_or_conflict, move, index_each, reindex, reinstate,
}
use last_chance_platform.Moderation.Service.Keeps.{DeskPreserves}
use last_chance_platform.Moderation.Service.History.{
  Decision, decide, decide_all, decide_all-IsLogged, was_submitted,
}
use last_chance_platform.Moderation.Service.Outcome.{
  Waiting, reinstate_skips_review, Decided, move-Decided,
}
use last_chance_platform.Moderation.Gate.{bookable_was_reviewed}
use last_chance_platform.Samples.{tables, world_of, alone}

abbrev listing : ModerationStatus → Property
listing s = record {
  id = 3;
  host_id = 9;
  status = PropertyStatus.draft;
  moderation_status = s;
  national_short_address = some "RIYD2342";
  tourism_permit_number = some "TP-1";
  tourism_permit_expires_at = some 20000;
  is_deleted = false;
}

abbrev host : HostProfile
host = record {
  user_id = 9;
  commission_pct_override = none;
  payout_provider_ref = none;
  is_verified = false;
}

abbrev submission : ModerationEvent
submission = record {
  property_id = 3;
  from_status = ModerationStatus.draft;
  to_status = ModerationStatus.pending_approval;
  reason_code = none;
  notes = none;
}

-- A listing that waits for review, of a host without KYC, with no documents and no units.
abbrev in_review : World
in_review = world_of (record (tables [] []) {
  properties = listing ModerationStatus.pending_approval ∷ [];
  hosts = host ∷ [];
  moderation_events = submission ∷ [];
})

abbrev desk : Desk
desk = record { env = alone; today = 100; port = λ _. ok true; index_unit = λ _. pure tt }

gaps :
    elim (find_one 100 3 in_review.db) as (λ _. List Blocker) [
      | none ↦ []
      | some row ↦ blockers_for row
    ]
    ≡ Blocker.deed_or_lease_missing ∷ Blocker.permit_document_missing ∷ Blocker.host_kyc_incomplete
      ∷ Blocker.no_units ∷ []
unfolding find_one live_property queue_row live_documents list_units blockers_for
gaps = refl

abbrev room : StayUnit
room = record {
  id = 7;
  property_id = 3;
  supports_hourly = false;
  supports_nightly = true;
  max_guests = 2;
  currency = "SAR";
  base_nightly_rate_minor = some 10000;
  base_hourly_rate_minor = none;
  min_hourly_duration_minutes = 60;
  turnaround_minutes = 60;
  status = UnitStatus.active;
  is_deleted = false;
}

-- The same with a room that is ready.
abbrev furnished : World
furnished = world_of (record in_review.db { units = room ∷ [] })

abbrev published : Property
published = record (listing ModerationStatus.approved) { status = PropertyStatus.active }

furnished-IsLogged : IsLogged furnished.db
unfolding is_compliant same_moderation
furnished-IsLogged = record {
  rows = (refl, refl, (refl, refl, (λ r. absurd (ground arith)), refl), tt);
}

desk-Preserves : {P : Db → Type 0} → DeskPreserves P desk
desk-Preserves = record {
  others = record { after = λ k w h. h };
  indexes = λ unit. Preserves-pure tt;
}

abbrev reinstated : List (Desk × Decision)
reinstated = (desk, Decision.reinstated 3 none) ∷ []

decide_all-IsLogged_example : IsLogged (decide_all reinstated furnished).db
decide_all-IsLogged_example =
    decide_all-IsLogged reinstated furnished (desk-Preserves, tt) furnished-IsLogged

furnished-Waiting : Waiting 3 furnished.db
unfolding live_property
furnished-Waiting = record {
  row = listing ModerationStatus.pending_approval;
  found = refl;
  pending = refl;
  address = refl;
  number = refl;
  expiry = refl;
}

reinstate_skips_review_example : (reinstate desk 3 none furnished).0 ≡ ok ModerationStatus.approved
reinstate_skips_review_example =
    reinstate_skips_review desk 3 none furnished furnished-Waiting furnished-Waiting

abbrev moved_on : World
moved_on = (move desk 3 ModerationStatus.approved none none true furnished).1

move_ok :
    (move desk 3 ModerationStatus.approved none none true furnished).0
    ≡ ok ModerationStatus.approved
unfolding move ◌>>=◌ status_or_throw select current_status live_property assert_moderation
    may_become can_transition targets moderation_fsm load load_onto load_row add_to same_moderation
    has add map_pg_error is_compliant log_decision moved transition_property update_moderation
    write_matched write_property applied_or_conflict exec pause transaction
move_ok = refl

move-Decided_example :
    (ModerationStatus.approved ≡ ModerationStatus.approved)
    × ((from : ModerationStatus) × (current_status 3 furnished.db ≡ some from)
        × Decided 3 from ModerationStatus.approved none true furnished.db moved_on.db)
move-Decided_example =
    move-Decided desk 3 ModerationStatus.approved none none true furnished ModerationStatus.approved
      move_ok

row_of_room : unit_row 7 (decide_all reinstated furnished).db ≡ some (room, published, host)
unfolding decide_all decide reinstate reindex index_each list_units attempt unit_row move ◌>>=◌
    status_or_throw select current_status live_property assert_moderation may_become can_transition
    targets moderation_fsm load load_onto load_row add_to same_moderation has add map_pg_error
    is_compliant log_decision moved transition_property update_moderation write_matched
    write_property applied_or_conflict exec pause transaction
row_of_room = refl

bookable_was_reviewed_example :
    (was_submitted 3 (decide_all reinstated furnished).db.moderation_events ≡ true)
    × (is_some published.national_short_address ≡ true)
    × (is_some published.tourism_permit_number ≡ true)
    × (is_some published.tourism_permit_expires_at ≡ true)
unfolding open_for_booking
bookable_was_reviewed_example =
    bookable_was_reviewed reinstated furnished 7 room published host (desk-Preserves, tt)
      furnished-IsLogged row_of_room refl
