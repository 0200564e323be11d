-- ===== src/Auth/Service.antt =====
-- backend/src/modules/auth/auth.service.ts, and `sendOtp` of
-- backend/src/modules/notifications/application/otp-notifier.service.ts. The hashing of passwords
-- (password.service.ts, over scrypt), the signing of tokens (token.service.ts, over jose), the keyed
-- digest and the collation of `citext` are arguments.
pub mod SignIn
use last_chance_platform.Prelude.{
  ℕ, Bool, true, false, not, ◌&&◌, ◌||◌, String, Option, none, some, List, ◌∷◌, any, find?, ◌==◌,
  if◌then◌else◌, or_else,
}
use last_chance_platform.Prelude.Result.{Result, ok, err}
use last_chance_platform.Prelude.Action.{pure, throw, or_throw, throw_if, lift, ◌>>=◌, ◌>>◌}
use last_chance_platform.Errors.{DomainError, Failure, domain, plain}
use last_chance_platform.Domain.Booking.{ActorType}
use last_chance_platform.Domain.Inventory.{HostProfile}
use last_chance_platform.Domain.Auth.{PlatformRole, User}
use last_chance_platform.Domain.Moderation.{NotificationChannel, MessageKind, Message}
use last_chance_platform.World.Store.{Db}
use last_chance_platform.World.Effects.{M, Env, select, query, pause}
use last_chance_platform.Moderation.Notify.{NotificationPort}
use last_chance_platform.Auth.Accounts.{
  is_active, is_platform_admin, insert_user, find_by_email, touch_login, upsert_phone_user,
}
use last_chance_platform.Auth.Otp.{OtpChallenge, issue, verify}
use last_chance_platform.Auth.Phone.{normalise_phone}

pub record AuthClaims : Type 0 where
  pub sub : ℕ
  pub email : Option String
  pub actor_type : ActorType
  pub role : PlatformRole

pub record AuthResult : Type 0 where
  pub access_token : String
  pub id : ℕ
  pub email : Option String
  pub phone : Option String
  pub full_name : String
  pub actor_type : ActorType

-- The services that `AuthService` is built from.
pub record AuthPorts : Type 0 where
  pub same_email : String → String → Bool
  pub hash : String → String
  pub verify_password : String → String → Bool
  pub dummy_hash : String
  pub sign : AuthClaims → String
  pub digest : String → String → String
  pub notifier : NotificationPort

abbrev pub is_host_user : ℕ → Db → Bool
is_host_user id db = any (λ (h : HostProfile). h.user_id == id) db.hosts

unfoldable pub actor_of : PlatformRole → Bool → ActorType
actor_of role owns =
    if is_platform_admin role
    then ActorType.admin
    else if owns
    then ActorType.host
    else ActorType.guest

-- The SELECT of `issueFor`.
unfoldable pub claims_row : ℕ → Db → Option (User × Bool)
claims_row id db = elim (find? (λ (u : User). u.id == id) db.users) [
  | none ↦ none
  | some u ↦ some (u, is_host_user u.id db)
]

unfoldable pub result_of : AuthPorts → User → Bool → AuthResult
result_of ports u owns =
    let actor = actor_of u.platform_role owns in
    record {
      access_token =
          ports.sign
            (record { sub = u.id; email = u.email; actor_type = actor; role = u.platform_role });
      id = u.id;
      email = u.email;
      phone = u.phone;
      full_name = u.full_name;
      actor_type = actor;
    }

-- `issueFor`: a row that is not there makes `u.id` throw
unfoldable pub issue_for : AuthPorts → ℕ → M AuthResult
issue_for ports id = do
  found ← select (claims_row id)
  row ← or_throw found plain
  pure (result_of ports row.0 row.1)

module _ (env : Env) (ports : AuthPorts) where
  unfoldable pub register : String → String → String → M AuthResult
  register email password full_name = do
    created ← query (insert_user ports.same_email env.new_id email (ports.hash password) full_name)
    id ← or_throw created (domain DomainError.email_taken)
    pause env 33
    issue_for ports id

  -- `user?.password_hash ?? '…'`
  unfoldable pub stored_hash : Option User → String
  stored_hash none = ports.dummy_hash
  stored_hash (some u) = or_else u.password_hash ports.dummy_hash

  unfoldable pub checked_user : String → Option User → M User
  checked_user password none = throw (domain DomainError.invalid_credentials)
  checked_user password (some u) =
      if ports.verify_password password (stored_hash (some u)) && is_active u.status
      then pure u
      else throw (domain DomainError.invalid_credentials)

  unfoldable pub login : String → String → M AuthResult
  login email password = do
    found ← select (find_by_email ports.same_email email)
    user ← checked_user password found
    pause env 34
    query (touch_login env.db_now user.id)
    pause env 35
    issue_for ports user.id

  -- `sendOtp`
  unfoldable pub send_otp : String → String → M (Unit {0})
  send_otp phone code w =
      let m : Message = record {
        channel = NotificationChannel.sms;
        to = some phone;
        kind = MessageKind.one_time_code code;
      } in
      elim (ports.notifier m) [
        | ok true ↦ (ok tt, record w { messages = m ∷ w.messages })
        | ok false ↦
            (err (domain DomainError.validation_failed), record w { messages = m ∷ w.messages })
        | err e ↦ (err e, record w { messages = m ∷ w.messages })
      ]

  -- `normalisePhone`, which throws
  unfoldable pub phone_of : String → M String
  phone_of raw w = elim (normalise_phone raw) [ ok p ↦ (ok p, w) | err e ↦ (err (domain e), w) ]

  unfoldable pub request_phone_otp : String → String → M OtpChallenge
  request_phone_otp code raw = do
    phone ← phone_of raw
    issued ← issue env phone ports.digest code
    pause env 36
    send_otp phone issued.0
    pure issued.1

  unfoldable pub verify_phone_otp : String → String → M AuthResult
  verify_phone_otp raw code = do
    phone ← phone_of raw
    right ← verify env phone ports.digest code
    throw_if (not right) (domain DomainError.invalid_credentials)
    pause env 37
    id ← query (upsert_phone_user env.db_now env.new_id phone)
    pause env 38
    issue_for ports id
