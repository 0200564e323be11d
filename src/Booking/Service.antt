-- ===== src/Booking/Service.antt =====
-- backend/src/modules/booking/application/booking.service.ts and
-- backend/src/modules/booking/infrastructure/unit.repository.ts. Each `pause` is an await between
-- two statements; in `createHold` the first write of the transaction comes after its pause, so
-- that a rollback undoes the call's own writes.
pub mod Keeps
pub mod History
pub mod Progress
pub mod Outcome
pub mod Succeeds
mod Tests
use last_chance_platform.Prelude.{
  ℕ, ◌+◌, ◌-◌, ◌*◌, String, Bool, true, false, not, ◌&&◌, ◌||◌, Option, none, some, List, [], ◌∷◌,
  filter, map, ltb, leb, ◌==◌, or_else, if◌then◌else◌,
}
use last_chance_platform.Prelude.Result.{Result, ok, err}
use last_chance_platform.Prelude.Action.{pure, throw, or_throw, throw_if, lift, ◌>>=◌, ◌>>◌}
use last_chance_platform.Errors.{DomainError, Failure, domain}
use last_chance_platform.Domain.Booking.{
  BookingStatus, same_status, BookingType, BookingSource, ActorType, Booking, BookableUnit,
}
use last_chance_platform.Domain.Inventory.{
  UnitStatus, PropertyStatus, ModerationStatus, StayUnit, Property, HostProfile,
}
use last_chance_platform.World.Store.{
  Job, expire_hold, create_payout, create_refund, hold_placed, booking_confirmed,
  inventory_released, World,
}
use last_chance_platform.Domain.Payment.{by_cancellation}
use last_chance_platform.World.Effects.{
  M, Env, exec, query, transaction, select, pause, add_job, publish, attempt,
}
use last_chance_platform.Lock.{AcquiredLock, with_lock}
use last_chance_platform.Booking.Pricing.{PlatformSettings, PriceQuote, quote}
use last_chance_platform.Booking.Lifecycle.{assert_transition}
use last_chance_platform.Booking.Repository.{
  InsertHoldParams, has_conflict, insert_hold, find_by_id, confirm_hold, transition, cancel_row,
  hold_lapsed, expire_if_lapsed, find_parties, unit_row,
}

-- `claim` gives the count that the closure of `DealService.claim` keeps.
pub record FlashDealContext : Type 0 where
  pub deal_id : ℕ
  pub discount_pct : ℕ
  pub claim : M ℕ

pub record CreateHoldCommand : Type 0 where
  pub guest_id : ℕ
  pub unit_id : ℕ
  pub booking_type : BookingType
  pub check_in_utc : ℕ
  pub check_out_utc : ℕ
  pub guests_count : ℕ
  pub source : Option BookingSource
  pub flash_deal : Option FlashDealContext

abbrev pub unit_lock_ttl_ms : ℕ
unit_lock_ttl_ms = 5000

-- `unit_status`, `property_status` and `property_moderation_status` of `findBookable`
unfoldable pub open_for_booking : StayUnit → Property → Bool
open_for_booking u p = elim u.status [
  | UnitStatus.active ↦ elim p.status [
    | PropertyStatus.active ↦ elim p.moderation_status [
      | ModerationStatus.approved ↦ true
      | _ ↦ false
    ]
    | _ ↦ false
  ]
  | _ ↦ false
]

unfoldable pub bookable : StayUnit → Property → HostProfile → BookableUnit
bookable u p h = record {
  id = u.id;
  property_id = u.property_id;
  supports_hourly = u.supports_hourly;
  supports_nightly = u.supports_nightly;
  max_guests = u.max_guests;
  currency = u.currency;
  base_nightly_rate_minor = u.base_nightly_rate_minor;
  base_hourly_rate_minor = u.base_hourly_rate_minor;
  min_hourly_duration_minutes = u.min_hourly_duration_minutes;
  turnaround_minutes = u.turnaround_minutes;
  host_id = p.host_id;
  commission_pct_override = h.commission_pct_override;
}

-- `UnitRepository.findBookable`
unfoldable pub find_bookable : ℕ → M BookableUnit
find_bookable unit_id = do
  found ← select (unit_row unit_id)
  (u, p, h) ← or_throw found (domain DomainError.unit_not_bookable)
  throw_if (not (open_for_booking u p)) (domain DomainError.unit_not_bookable)
  pure (bookable u p h)

-- What a hold asks of the row that it inserts.
unfoldable pub hold_params : CreateHoldCommand → BookableUnit → PriceQuote → ℕ → InsertHoldParams
hold_params cmd unit q expires = record {
  guest_id = cmd.guest_id;
  unit_id = cmd.unit_id;
  property_id = unit.property_id;
  booking_type = cmd.booking_type;
  source = or_else cmd.source BookingSource.api;
  check_in_utc = cmd.check_in_utc;
  check_out_utc = cmd.check_out_utc;
  turnaround_minutes = unit.turnaround_minutes;
  guests_count = cmd.guests_count;
  hold_expires_at = expires;
  quote = q;
  flash_deal_id = elim cmd.flash_deal [ none ↦ none | some ctx ↦ some ctx.deal_id ];
}

unfoldable pub run_claim : Option FlashDealContext → M ℕ
run_claim none = pure 0
run_claim (some ctx) = ctx.claim

-- The transaction of `createHold`.
unfoldable pub hold_section :
    Env → CreateHoldCommand → BookableUnit → PriceQuote → ℕ → M (Booking × ℕ)
hold_section env cmd unit q expires = do
  conflict ←
      select (has_conflict cmd.unit_id cmd.check_in_utc cmd.check_out_utc unit.turnaround_minutes)
  throw_if conflict (domain DomainError.unit_unavailable)
  pause env 10
  transaction (do
    claimed ← run_claim cmd.flash_deal
    booking ← exec (insert_hold env.new_id (hold_params cmd unit q expires))
    pure (booking, claimed))

-- `scheduleExpiry`: a failure is logged and no more
unfoldable pub schedule_expiry : Env → ℕ → ℕ → M (Unit {0})
schedule_expiry env id expires = attempt (add_job env (expire_hold id (expires - env.now 2 + 2000)))

-- `createHold`, with what the claim left in its closure
unfoldable pub place_hold : Env → PlatformSettings → CreateHoldCommand → M (Booking × ℕ)
place_hold env settings cmd = do
  throw_if (leb cmd.check_out_utc cmd.check_in_utc) (domain DomainError.validation_failed)
  throw_if (ltb cmd.check_in_utc (env.now 0)) (domain DomainError.validation_failed)
  unit ← find_bookable cmd.unit_id
  throw_if (ltb cmd.guests_count 1 || ltb unit.max_guests cmd.guests_count)
      (domain DomainError.validation_failed)
  q ← lift (
      quote settings unit cmd.booking_type cmd.check_in_utc cmd.check_out_utc
        (elim cmd.flash_deal [ none ↦ none | some ctx ↦ some ctx.discount_pct ]))
  let expires = env.now 1 + settings.hold_minutes * 60000
  pause env 9
  placed ← with_lock env cmd.unit_id unit_lock_ttl_ms 9 (λ _. hold_section env cmd unit q expires)
  schedule_expiry env placed.0.id expires
  publish (hold_placed placed.0.id)
  pure placed

unfoldable pub create_hold : Env → PlatformSettings → CreateHoldCommand → M Booking
create_hold env settings cmd = do placed ← place_hold env settings cmd; pure placed.0

unfoldable pub must_find : ℕ → M Booking
must_find id = do
  found ← select (find_by_id id)
  or_throw found (domain DomainError.booking_not_found)

abbrev pub is_expiry_of : ℕ → Job → Bool
is_expiry_of id (expire_hold other _) = other == id
is_expiry_of id _ = false

-- `cancelScheduledExpiry`: best effort
unfoldable pub cancel_scheduled_expiry : Env → ℕ → M (Unit {0})
cancel_scheduled_expiry env id w = (
  ok tt,
  record w { jobs = if env.queue_up then filter (λ j. not (is_expiry_of id j)) w.jobs else w.jobs },
)

-- Which error a lost confirmation is, from the row as it is now.
unfoldable pub lost_confirmation : ℕ → Booking → DomainError
lost_confirmation now b =
    if same_status b.status BookingStatus.expired
    then DomainError.hold_expired
    else if same_status b.status BookingStatus.pending_payment && hold_lapsed now b.hold_expires_at
    then DomainError.hold_expired
    else DomainError.stale_state

unfoldable pub after_confirm : Env → ℕ → Option Booking → M Booking
after_confirm env id none = do
  pause env 2
  now ← must_find id
  throw (domain (lost_confirmation (env.now 0) now))
after_confirm env id (some confirmed) = do
  cancel_scheduled_expiry env id
  publish (booking_confirmed confirmed.id)
  pure confirmed

unfoldable pub confirm : Env → ℕ → M Booking
confirm env id = do
  current ← must_find id
  assert_transition current.status BookingStatus.confirmed
  pause env 1
  done ← query (confirm_hold env.db_now id)
  after_confirm env id done

-- Who the caller is on the booking.
unfoldable pub role_of : ℕ → ℕ × ℕ → M ActorType
role_of user_id (guest_id, host_id) =
    if guest_id == user_id
    then pure ActorType.guest
    else if host_id == user_id
    then pure ActorType.host
    else throw (domain DomainError.forbidden)

unfoldable pub authorize_actor : ℕ → ℕ → Bool → M ActorType
authorize_actor id user_id true = pure ActorType.admin
authorize_actor id user_id false = do
  found ← select (find_parties id)
  parties ← or_throw found (domain DomainError.booking_not_found)
  role_of user_id parties

-- `if (!updated) …`: the row moved between the read and the write
unfoldable pub or_stale : Env → ℕ → Option Booking → M Booking
or_stale env id none = do pause env 2; must_find id; throw (domain DomainError.stale_state)
or_stale env id (some b) = pure b

unfoldable pub cancel : Env → ℕ → ActorType → Option String → M Booking
cancel env id cancelled_by reason = do
  current ← must_find id
  assert_transition current.status BookingStatus.cancelled
  pause env 1
  done ← query (cancel_row env.db_now id current.status cancelled_by reason)
  cancelled ← or_stale env id done
  cancel_scheduled_expiry env id
  add_job env (create_refund id (by_cancellation cancelled_by))
  publish (inventory_released cancelled.id)
  pure cancelled

-- `simpleTransition`; `markRefunded` has the same body
unfoldable pub simple_transition : Env → ℕ → BookingStatus → M Booking
simple_transition env id to = do
  current ← must_find id
  assert_transition current.status to
  pause env 1
  done ← query (transition id current.status to)
  or_stale env id done

unfoldable pub check_in : Env → ℕ → M Booking
check_in env id = simple_transition env id BookingStatus.checked_in

unfoldable pub complete : Env → ℕ → M Booking
complete env id = do
  booking ← simple_transition env id BookingStatus.completed
  add_job env (create_payout id)
  publish (inventory_released booking.id)
  pure booking

unfoldable pub mark_refunded : Env → ℕ → M Booking
mark_refunded env id = simple_transition env id BookingStatus.refunded

unfoldable pub after_expiry : Option Booking → M Bool
after_expiry none = pure false
after_expiry (some expired) = do publish (inventory_released expired.id); pure true

-- `expireHold`, of the delayed job
unfoldable pub expire_booking : Env → ℕ → M Bool
expire_booking env id = do expired ← query (expire_if_lapsed env.db_now id); after_expiry expired
