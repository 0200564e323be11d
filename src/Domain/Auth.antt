-- ===== src/Domain/Auth.antt =====
-- The rows of `users` and what Redis holds for the guards and the one-time codes
-- (backend/src/modules/auth, backend/src/common/auth, db/migrations/0004_identity.sql, 0017).
use last_chance_platform.Prelude.{ℕ, String, Bool, false, Option, ◌&&◌, same_text}

pub data UserStatus : Type 0 where
  active suspended deactivated : UserStatus

pub data PlatformRole : Type 0 where
  user admin : PlatformRole

pub data AuthProvider : Type 0 where
  password phone oauth : AuthProvider

pub record User : Type 0 where
  pub id : ℕ
  pub email : Option String
  pub phone : Option String
  pub full_name : String
  pub password_hash : Option String
  pub auth_provider : AuthProvider
  pub status : UserStatus
  pub platform_role : PlatformRole
  pub phone_verified_at : Option ℕ
  pub last_login_at : Option ℕ
  pub is_deleted : Bool

-- `otp:code:…`, `otp:cooldown:…`, `otp:sends:…` with the phone, `rl:…` with the route and the ip
pub data RedisKey : Type 0 where
  otp_code otp_cooldown otp_sends : String → RedisKey
  rate : String → String → RedisKey

unfoldable pub same_key : RedisKey → RedisKey → Bool
same_key (RedisKey.otp_code a) (RedisKey.otp_code b) = same_text a b
same_key (RedisKey.otp_cooldown a) (RedisKey.otp_cooldown b) = same_text a b
same_key (RedisKey.otp_sends a) (RedisKey.otp_sends b) = same_text a b
same_key (RedisKey.rate r i) (RedisKey.rate s j) = same_text r s && same_text i j
same_key _ _ = false

-- A counter, or `StoredOtp`: the digest of a code and the wrong guesses so far.
pub data RedisValue : Type 0 where
  counter : ℕ → RedisValue
  stored_otp : String → ℕ → RedisValue

-- What a key of Redis holds, and the instant of its end in milliseconds.
pub record RedisEntry : Type 0 where
  pub value : RedisValue
  pub expires_at : Option ℕ
