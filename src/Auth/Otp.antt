-- ===== src/Auth/Otp.antt =====
-- The one-time codes of backend/src/modules/auth/otp.service.ts. The keyed digest (`createHmac`)
-- and the random code are arguments; Redis answers every command.
pub mod Guesses
pub mod Limits
use last_chance_platform.Prelude.{
  ℕ, suc, ◌*◌, Bool, true, false, String, Option, none, some, ltb, leb, ◌==◌, if◌then◌else◌,
  same_text,
}
use last_chance_platform.Prelude.Action.{pure, throw, throw_if, ◌>>=◌, ◌>>◌}
use last_chance_platform.Errors.{DomainError, domain, plain}
use last_chance_platform.Domain.Auth.{RedisKey, RedisValue, counter, stored_otp}
use last_chance_platform.World.Effects.{M, Env, pause}
use last_chance_platform.World.Redis.{
  Remaining, gone, endless, left, incr, pexpire, ttl, get, set_ex, del, command,
}

abbrev pub otp_ttl_seconds : ℕ
otp_ttl_seconds = 120

abbrev pub max_attempts : ℕ
max_attempts = 5

abbrev pub max_sends_per_hour : ℕ
max_sends_per_hour = 5

abbrev pub resend_cooldown_seconds : ℕ
resend_cooldown_seconds = 60

abbrev pub send_window_seconds : ℕ
send_window_seconds = 3600

pub record OtpChallenge : Type 0 where
  pub expires_in_sec : ℕ
  pub resend_after_sec : ℕ

-- `ttl > 0 ? ttl : other`
unfoldable pub seconds_or : Remaining → ℕ → ℕ
seconds_or (left s) other = if ltb 0 s then s else other
seconds_or _ other = other

abbrev pub sends_of : Option RedisValue → ℕ
sends_of (some (counter n)) = n
sends_of _ = 0

module _ (env : Env) (phone : String) where
  unfoldable pub assert_cooled_down : Remaining → M (Unit {0})
  assert_cooled_down (left s) = throw_if (ltb 0 s) (domain (DomainError.rate_limited s))
  assert_cooled_down _ = pure tt

  unfoldable pub assert_sends : ℕ → M (Unit {0})
  assert_sends sends =
      if leb max_sends_per_hour sends
      then (do
        window ← command true (ttl (env.redis_now 2) (RedisKey.otp_sends phone))
        throw (domain (DomainError.rate_limited (seconds_or window send_window_seconds))))
      else pure tt

  -- `assertMaySend`
  unfoldable pub assert_may_send : M (Unit {0})
  assert_may_send = do
    cooldown ← command true (ttl (env.redis_now 0) (RedisKey.otp_cooldown phone))
    assert_cooled_down cooldown
    sends ← command true (get (env.redis_now 1) (RedisKey.otp_sends phone))
    assert_sends (sends_of sends)

  unfoldable pub open_send_window : ℕ → M (Unit {0})
  open_send_window sends =
      if sends == 1
      then command true
          (pexpire (env.redis_now 6) (RedisKey.otp_sends phone) (send_window_seconds * 1000))
      else pure tt

  module _ (digest : String → String → String) where
    unfoldable pub issue : String → M (String × OtpChallenge)
    issue code = do
      assert_may_send
      pause env 30
      command true (
          set_ex (env.redis_now 3) (RedisKey.otp_code phone) (stored_otp (digest phone code) 0)
            otp_ttl_seconds)
      command true (
          set_ex (env.redis_now 4) (RedisKey.otp_cooldown phone) (counter 1)
            resend_cooldown_seconds)
      sends ← command true (incr (env.redis_now 5) (RedisKey.otp_sends phone))
      open_send_window sends
      pure (
        code,
        record { expires_in_sec = otp_ttl_seconds; resend_after_sec = resend_cooldown_seconds },
      )

    -- a right code is consumed
    unfoldable pub consume : M Bool
    consume = do
      command true (del (RedisKey.otp_code phone))
      command true (del (RedisKey.otp_sends phone))
      pure true

    unfoldable pub burn : M Bool
    burn = do
      command true (del (RedisKey.otp_code phone))
      throw (domain DomainError.validation_failed)

    -- a wrong code is counted, under the end that the key has
    unfoldable pub count_guess : String → ℕ → M Bool
    count_guess hash attempts = do
      window ← command true (ttl (env.redis_now 1) (RedisKey.otp_code phone))
      pause env 32
      command true (
          set_ex (env.redis_now 2) (RedisKey.otp_code phone) (stored_otp hash attempts)
            (seconds_or window otp_ttl_seconds))
      pure false

    unfoldable pub check_guess : String → String → ℕ → M Bool
    check_guess submitted hash attempts =
        if same_text hash (digest phone submitted)
        then consume
        else if leb max_attempts (suc attempts)
        then burn
        else count_guess hash (suc attempts)

    unfoldable pub check_stored : String → Option RedisValue → M Bool
    check_stored submitted none = throw (domain DomainError.validation_failed)
    check_stored submitted (some (counter _)) = throw plain
    check_stored submitted (some (stored_otp hash attempts)) = check_guess submitted hash attempts

    unfoldable pub verify : String → M Bool
    verify submitted = do
      raw ← command true (get (env.redis_now 0) (RedisKey.otp_code phone))
      pause env 31
      check_stored submitted raw
