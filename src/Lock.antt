-- ===== src/Lock.antt =====
-- backend/src/infrastructure/redis/redis-lock.service.ts over the keys of Redis: a lock is a key
-- with its owner's token and its end, and a counter of fences. Redis is one server that runs each
-- command alone. The random waits between two tries are the awaits at which others run.
pub mod Exclusion
pub mod Acquire
pub mod Fences
pub mod Preserves
mod Tests
use last_chance_platform.Prelude.{
  ℕ, zero, suc, ◌+◌, Bool, true, false, not, ◌&&◌, Option, none, some, List, [], ◌∷◌, find?, filter,
  leb, ◌==◌, is_some, if◌then◌else◌,
}
use last_chance_platform.Prelude.Result.{Result, ok, err}
use last_chance_platform.Prelude.Action.{pure, throw, ◌>>=◌, ◌>>◌}
use last_chance_platform.Errors.{DomainError, domain, plain}
use last_chance_platform.World.Store.{LockEntry, World}
use last_chance_platform.World.Effects.{M, Reply, answered, unanswered, unsent, Env, pause}

pub record AcquiredLock : Type 0 where
  pub key : ℕ
  pub token : ℕ
  pub fence : ℕ
  pub ttl_ms : ℕ

-- the `retries` that `withLock` leaves at its default
abbrev pub default_retries : ℕ
default_retries = 8

-- `GET key`: an entry past its end is gone
unfoldable pub holder : ℕ → ℕ → List LockEntry → Option LockEntry
holder now key locks = find? (λ (e : LockEntry). e.key == key && leb now e.expires_at) locks

abbrev pub without : ℕ → List LockEntry → List LockEntry
without key locks = filter (λ (e : LockEntry). not (e.key == key)) locks

-- `SET key token PX ttl NX`
unfoldable pub set_nx : ℕ → ℕ → ℕ → ℕ → World → Bool × World
set_nx now key token ttl w = if is_some (holder now key w.locks) then (false, w) else (
  true,
  record w {
    locks = record { key = key; token = token; expires_at = now + ttl } ∷ without key w.locks;
  },
)

-- `INCR key:fence`
unfoldable pub next_fence : ℕ → World → ℕ × World
next_fence key w =
    (w.fences key + 1, record w { fences = λ k. if k == key then w.fences k + 1 else w.fences k })

-- A command that is sent.
unfoldable pub sent : {A : Type 0} → Reply → (World → A × World) → M A
sent answered f w = let (a, w') = f w in (ok a, w')
sent unanswered f w = (err plain, (f w).1)
sent unsent f w = (err plain, w)

-- The number of the await between the SET of a try and its INCR.
abbrev pub before_incr : ℕ → ℕ
before_incr attempt = 1000 + attempt

-- After a SET that took.
unfoldable pub granted : Env → ℕ → ℕ → ℕ → M AcquiredLock
granted env key ttl attempt = do
  pause env (before_incr attempt)
  fence ← sent (env.incr_reply attempt) (next_fence key)
  pure (record { key = key; token = env.lock_token; fence = fence; ttl_ms = ttl })

-- `await this.redis.set(…)`
unfoldable pub try_set : Env → ℕ → ℕ → ℕ → M Bool
try_set env key ttl attempt =
    sent (env.set_reply attempt) (set_nx (env.redis_now attempt) key env.lock_token ttl)

-- The loop of `acquire`, from an attempt on, with the retries that are left.
unfoldable pub acquire_from : Env → ℕ → ℕ → ℕ → ℕ → M AcquiredLock
acquire_from env key ttl attempt zero = do
  took ← try_set env key ttl attempt
  if took then granted env key ttl attempt else throw (domain DomainError.lock_not_acquired)
acquire_from env key ttl attempt (suc retries) =
    let later = acquire_from env key ttl (attempt + 1) retries in
    do
      took ← try_set env key ttl attempt
      if took then granted env key ttl attempt else (pause env attempt >> later)

-- `acquire`
unfoldable pub acquire : Env → ℕ → ℕ → ℕ → M AcquiredLock
acquire env key ttl retries = acquire_from env key ttl 0 retries

-- `RELEASE_SCRIPT`: the key is deleted only if the token is still ours
unfoldable pub release : ℕ → AcquiredLock → World → World
release now lock w = elim (holder now lock.key w.locks) [
  | none ↦ w
  | some e ↦ if e.token == lock.token then record w { locks = without lock.key w.locks } else w
]

abbrev extended : ℕ → ℕ → LockEntry → LockEntry
extended key until e = if e.key == key then record e { expires_at = until } else e

abbrev extend_all : ℕ → ℕ → List LockEntry → List LockEntry
extend_all key until [] = []
extend_all key until (e ∷ locks) = extended key until e ∷ extend_all key until locks

-- `extend`, by `EXTEND_SCRIPT`
unfoldable pub extend : ℕ → AcquiredLock → ℕ → World → Bool × World
extend now lock ttl w = elim (holder now lock.key w.locks) [
  | none ↦ (false, w)
  | some e ↦
      if e.token == lock.token
      then (true, record w { locks = extend_all lock.key (now + ttl) w.locks })
      else (false, w)
]

-- the `try … finally` of `withLock`; a release that throws is only logged
unfoldable pub run_locked : {A : Type 0} → Reply → ℕ → (AcquiredLock → M A) → AcquiredLock → M A
run_locked reply now fn lock w =
    let (r, w') = fn lock w in (r, (sent reply (λ v. (tt, release now lock v)) w').1)

-- `withLock`; `release_at` is the number of the clock's reading at the release
unfoldable pub with_lock : {A : Type 0} → Env → ℕ → ℕ → ℕ → (AcquiredLock → M A) → M A
with_lock env key ttl release_at fn =
    acquire env key ttl default_retries
    >>= run_locked env.release_reply (env.redis_now release_at) fn
