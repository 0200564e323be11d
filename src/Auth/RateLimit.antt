-- ===== src/Auth/RateLimit.antt =====
-- backend/src/common/auth/rate-limit.guard.ts. Which of its commands Redis answers is an argument:
-- INCR is 0, PEXPIRE is 1, PTTL is 2.
pub mod Window
pub mod Bounds
use last_chance_platform.Prelude.{
  ℕ, ◌+◌, ◌*◌, ◌/◌, Bool, true, false, String, ltb, leb, ◌==◌, if◌then◌else◌,
}
use last_chance_platform.Prelude.Action.{pure, throw, ◌>>=◌, ◌>>◌}
use last_chance_platform.Errors.{DomainError, Failure, domain}
use last_chance_platform.Domain.Auth.{RedisKey}
use last_chance_platform.World.Effects.{M, Env, pause, recover}
use last_chance_platform.World.Redis.{Remaining, gone, endless, left, incr, pexpire, pttl, command}

pub record RateLimitSpec : Type 0 where
  pub limit : ℕ
  pub window_sec : ℕ

abbrev pub default_limit : RateLimitSpec
default_limit = record { limit = 120; window_sec = 60 }

-- `Math.max(1, Math.ceil(ms / 1000))`, or the whole window where Redis names no end
unfoldable pub seconds_left : RateLimitSpec → Remaining → ℕ
seconds_left spec gone = spec.window_sec
seconds_left spec endless = spec.window_sec
seconds_left spec (left ms) =
    if ms == 0 then spec.window_sec else (let s = (ms + 999) / 1000 in if leb 1 s then s else 1)

module _ (env : Env) (answers : ℕ → Bool) (spec : RateLimitSpec) (key : RedisKey) where
  -- `retryAfterSec`
  unfoldable pub retry_after : M ℕ
  retry_after = do
    ttl ← command (answers 2) (pttl (env.redis_now 2) key)
    pure (seconds_left spec ttl)

  unfoldable pub open_window : ℕ → M (Unit {0})
  open_window count =
      if count == 1
      then command (answers 1) (pexpire (env.redis_now 1) key (spec.window_sec * 1000))
      else pure tt

  unfoldable pub refuse : M Bool
  refuse = do seconds ← retry_after; throw (domain (DomainError.rate_limited seconds))

  unfoldable pub admit : ℕ → M Bool
  admit count = if ltb spec.limit count then refuse else pure true

  -- the body of the `try`
  unfoldable pub count_request : M Bool
  count_request = do
    count ← command (answers 0) (incr (env.redis_now 0) key)
    pause env 20
    open_window count
    pause env 21
    admit count

-- the `catch`: fail open, unless it is the refusal itself
unfoldable pub fail_open : Failure → M Bool
fail_open (domain (DomainError.rate_limited s)) = throw (domain (DomainError.rate_limited s))
fail_open _ = pure true

-- `canActivate` of a request over HTTP, of a route by an address
unfoldable pub can_activate : Env → (ℕ → Bool) → RateLimitSpec → String → String → M Bool
can_activate env answers spec route ip =
    recover (count_request env answers spec (RedisKey.rate route ip)) fail_open
