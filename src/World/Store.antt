-- ===== src/World/Store.antt =====
-- The records of the shared state. `Job` is what is added to the queues of
-- backend/src/infrastructure/queue/queue.module.ts, `PlatformEvent` what is published on Redis.
use last_chance_platform.Prelude.{ℕ, Option, List}
use last_chance_platform.Domain.Booking.{Booking}
use last_chance_platform.Domain.Inventory.{StayUnit, Property, HostProfile, AvailabilityBlock}
use last_chance_platform.Domain.Payment.{
  RefundReason, Payment, Refund, Payout, WebhookEventRecord, LedgerEntry,
}
use last_chance_platform.Domain.Deal.{FlashDeal}
use last_chance_platform.Domain.Auth.{User, RedisKey, RedisEntry}
use last_chance_platform.Domain.Moderation.{PropertyDocument, ModerationEvent, Message}

pub record Db : Type 0 where
  pub bookings : List Booking
  pub units : List StayUnit
  pub properties : List Property
  pub hosts : List HostProfile
  pub blocks : List AvailabilityBlock
  pub payments : List Payment
  pub refunds : List Refund
  pub payouts : List Payout
  pub webhook_events : List WebhookEventRecord
  pub ledger : List LedgerEntry
  pub deals : List FlashDeal
  pub users : List User
  pub documents : List PropertyDocument
  pub moderation_events : List ModerationEvent

pub data Job : Type 0 where
  -- the booking, and the delay in milliseconds
  expire_hold : ℕ → ℕ → Job
  process_webhook : ℕ → Job
  create_payout : ℕ → Job
  execute_payout : ℕ → ℕ → Job
  create_refund : ℕ → RefundReason → Job

pub data PlatformEvent : Type 0 where
  hold_placed booking_confirmed inventory_released : ℕ → PlatformEvent
  -- the deal, and the quantity that remains
  deal_activated deal_claimed deal_sold_out deal_ended : ℕ → ℕ → PlatformEvent

-- A key of Redis that a lock holds: the owner's token, and when it lapses.
pub record LockEntry : Type 0 where
  pub key : ℕ
  pub token : ℕ
  pub expires_at : ℕ

pub record World : Type 0 where
  pub db : Db
  pub jobs : List Job
  pub events : List PlatformEvent
  pub locks : List LockEntry
  -- `${key}:fence`, the counter of each key
  pub fences : ℕ → ℕ
  -- the other keys of Redis
  pub redis : RedisKey → Option RedisEntry
  -- what was handed to the notification port, the newest first
  pub messages : List Message
