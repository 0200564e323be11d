-- ===== src/Lock/Tests.antt =====
-- Two processes and one key.
use last_chance_platform.Prelude.{ℕ, ◌+◌, ◌<◌, ◌≡◌, refl, true, none, some, [], arith}
use native.Mathlib.Nat.{le_refl}
use last_chance_platform.Prelude.Result.{ok}
use last_chance_platform.World.Store.{World, Db}
use last_chance_platform.World.Effects.{answered, Env, pause}
use last_chance_platform.Lock.{
  AcquiredLock, holder, set_nx, next_fence, sent, try_set, granted, acquire_from, acquire, release,
}
use last_chance_platform.Lock.Exclusion.{owner, release-fences}
use last_chance_platform.Prelude.Action.{pure, ◌>>=◌}
use last_chance_platform.Lock.Acquire.{after_set}
use last_chance_platform.Lock.Fences.{acquire_fences_rise, late_incr_overtakes}

abbrev no_tables : Db
no_tables = record {
  bookings = [];
  units = [];
  properties = [];
  hosts = [];
  blocks = [];
  payments = [];
  refunds = [];
  payouts = [];
  webhook_events = [];
  ledger = [];
  deals = [];
  users = [];
  documents = [];
  moderation_events = [];
}

abbrev idle : World
idle = record {
  db = no_tables;
  jobs = [];
  events = [];
  locks = [];
  fences = λ _. 4;
  redis = λ _. none;
  messages = [];
}

-- A process with its token, alone.
abbrev client : ℕ → Env
client token = record {
  now = λ k. 1000 + k;
  redis_now = λ k. 1000 + k;
  db_now = 1000;
  new_id = 1;
  new_group = 1;
  lock_token = token;
  set_reply = λ _. answered;
  incr_reply = λ _. answered;
  release_reply = answered;
  queue_up = true;
  meanwhile = λ _ w. w;
}

abbrev taken : World
taken = (set_nx 1000 7 11 5000 idle).1

abbrev first_lock : AcquiredLock
first_lock = record { key = 7; token = 11; fence = 5; ttl_ms = 5000 }

abbrev second_lock : AcquiredLock
second_lock = record { key = 7; token = 12; fence = 6; ttl_ms = 5000 }

acquire_fences_rise_example : first_lock.fence < second_lock.fence
acquire_fences_rise_example =
    acquire_fences_rise (client 11) (client 12) 7 5000 5000 8 8 (release 1100 first_lock) idle
      (acquire (client 11) 7 5000 8 idle).1
      (acquire (client 12) 7 5000 8
        (release 1100 first_lock (acquire (client 11) 7 5000 8 idle).1)).1
      first_lock second_lock (λ k w. le_refl _) (λ k w. le_refl _)
      (λ v. rw release-fences (le_refl _))
      (unfold acquire acquire_from try_set granted sent pause pure ◌>>=◌ next_fence set_nx holder in
        refl)
      (unfold acquire acquire_from try_set granted sent pause pure ◌>>=◌ next_fence set_nx holder
          release in
        refl)

-- It acquires the key after the end of the first lock.
abbrev late_client : Env
late_client = record (client 12) { redis_now = λ k. 9000 + k }

-- It waits for so long between its SET and its INCR.
abbrev slow_client : Env
slow_client = record (client 11) { meanwhile = λ _ v. (acquire late_client 7 5000 8 v).1 }

late_incr_overtakes_example :
    (first : AcquiredLock) × (second : AcquiredLock) × ((acquire slow_client 7 5000 8 idle).0
      ≡ ok first)
    × ((acquire late_client 7 5000 8 (after_set slow_client 7 5000 0 idle)).0 ≡ ok second)
    × (owner 13000 7 (acquire slow_client 7 5000 8 idle).1 ≡ some 12)
    × (second.fence < first.fence)
late_incr_overtakes_example =
    late_incr_overtakes slow_client late_client 7 5000 5000 8 8 13000 idle (refl, refl) (refl, refl)
      (unfold owner holder in refl) (omega arith) refl refl (omega arith)
