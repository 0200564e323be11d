-- ===== src/Auth/Tests.antt =====
-- Counters, codes and numbers as a request finds them, and the theorems at them.
use last_chance_platform.Prelude.{
  ◌==◌, ◌≡◌, ◌≤◌, refl, true, false, String, none, some, [], ◌∷◌, arith,
}
use last_chance_platform.Prelude.Result.{ok, err}
use last_chance_platform.Errors.{DomainError}
use last_chance_platform.Domain.Auth.{RedisKey, counter, stored_otp}
use last_chance_platform.World.Store.{World}
use last_chance_platform.World.Redis.{live}
use last_chance_platform.Auth.RateLimit.{RateLimitSpec, can_activate}
use last_chance_platform.Auth.RateLimit.Window.{
  Quiet, always, counted, at_instant, Counts, can_activate-refines,
}
use last_chance_platform.Auth.RateLimit.Bounds.{
  admitted, admitted_le_limit, lost_expiry_never_reopens,
}
use last_chance_platform.Auth.Otp.{verify}
use last_chance_platform.Auth.Otp.Guesses.{Alone}
use last_chance_platform.Auth.Otp.Limits.{compared, compared-le-room, Holds, late_guess_renews}
use last_chance_platform.Auth.Phone.{
  strip, dial_out, has_country, with_country, all_digits, length, is_e164, normalise_phone,
}
use last_chance_platform.Auth.Phone.Normal.{normalise_phone_stable}
use last_chance_platform.Prelude.{Option, same_text, if◌then◌else◌}
use last_chance_platform.Prelude.Action.{pure, throw, or_throw, ◌>>=◌}
use last_chance_platform.Errors.{domain}
use last_chance_platform.Domain.Booking.{ActorType}
use last_chance_platform.Domain.Auth.{UserStatus, PlatformRole, AuthProvider, User}
use last_chance_platform.World.Effects.{select, query, pause}
use last_chance_platform.Auth.Accounts.{find_by_email, touch_login}
use last_chance_platform.Auth.Service.{
  AuthClaims, AuthResult, AuthPorts, actor_of, claims_row, result_of, issue_for, stored_hash,
  checked_user, login, verify_phone_otp,
}
use last_chance_platform.Auth.Service.SignIn.{Opens, login-Opens, phone_sign_in_any_status}
use last_chance_platform.Auth.Guards.{
  GuardedRequest, after_prefix, bearer, claims_of_token, authenticate, has_role, check_roles,
  admitted_by_guards, Bearer, admitted_iff_Bearer,
}
use last_chance_platform.Samples.{tables, world_of, alone}

abbrev tight : RateLimitSpec
tight = record { limit = 3; window_sec = 60 }

-- A window which has seen two requests and ends at 5000.
abbrev two_seen : World
two_seen = record (world_of (tables [] [])) {
  redis = λ _. some (record { value = counter 2; expires_at = some 5000 });
}

alone-Quiet : Quiet alone
alone-Quiet = record { alone = refl; forward = omega arith }

can_activate-refines_example :
    Counts alone tight
      (RedisKey.rate "otp" "10.0.0.1")
      (can_activate alone always tight "otp" "10.0.0.1" two_seen)
      (counted 1001 60000 (at_instant 1000 (some (2, 5000))))
can_activate-refines_example =
    can_activate-refines alone alone-Quiet tight "otp" "10.0.0.1" two_seen (some (2, 5000))
      (refl, omega arith)

admitted_le_limit_example : admitted tight "otp" "10.0.0.1" (alone ∷ alone ∷ []) two_seen ≤ 1
admitted_le_limit_example =
    admitted_le_limit tight "otp" "10.0.0.1" (alone ∷ alone ∷ []) two_seen 2 5000
      (alone-Quiet, (alone-Quiet, tt)) (omega arith, (omega arith, tt)) (refl, omega arith)

abbrev fresh : World
fresh = world_of (tables [] [])

lost_expiry_never_reopens_example :
    ((can_activate alone (λ k. k == 0) tight "otp" "10.0.0.1" fresh).0 ≡ ok true)
    × (admitted tight "otp" "10.0.0.1"
          (alone ∷ [])
          (can_activate alone (λ k. k == 0) tight "otp" "10.0.0.1" fresh).1
        ≤ 2)
unfolding live
lost_expiry_never_reopens_example =
    lost_expiry_never_reopens alone tight "otp" "10.0.0.1" (alone ∷ []) fresh alone-Quiet refl
      (alone-Quiet, tt)

-- A digest that shows its inputs.
abbrev shown : String → String → String
shown phone code = code

-- A code which has seen three wrong guesses and ends at 1100.
abbrev asked : World
asked = record (world_of (tables [] [])) {
  redis = λ _. some (record { value = stored_otp "123456" 3; expires_at = some 1100 });
}

alone-Alone : Alone alone
alone-Alone = record { alone = refl }

compared-le-room_example :
    compared shown "+966512345678"
      ((alone, "111111") ∷ (alone, "222222") ∷ (alone, "123456") ∷ [])
      asked
    ≤ 2
compared-le-room_example =
    compared-le-room shown "+966512345678"
      ((alone, "111111") ∷ (alone, "222222") ∷ (alone, "123456") ∷ []) asked
      (alone-Alone, (alone-Alone, (alone-Alone, tt))) refl

late_guess_renews_example :
    ((verify alone "+966512345678" shown "111111" asked).0 ≡ ok false)
    × Holds alone alone-Alone shown "+966512345678" "123456" 4 121002
        (verify alone "+966512345678" shown "111111" asked).1
late_guess_renews_example =
    late_guess_renews alone alone-Alone shown "+966512345678" "111111" "123456" 3 1100 asked refl
      (omega arith) (omega arith) (omega arith) refl (omega arith)

local_number : normalise_phone "051 234-5678" ≡ ok "+966512345678"
unfolding normalise_phone strip dial_out has_country with_country all_digits length is_e164
local_number = refl

dialled_number : normalise_phone "00966512345678" ≡ ok "+966512345678"
unfolding normalise_phone strip dial_out has_country with_country all_digits length is_e164
dialled_number = refl

country_number : normalise_phone "966512345678" ≡ ok "+966512345678"
unfolding normalise_phone strip dial_out has_country with_country all_digits length is_e164
country_number = refl

short_number : normalise_phone "05" ≡ err DomainError.validation_failed
unfolding normalise_phone strip dial_out has_country with_country all_digits length is_e164
short_number = refl

normalise_phone_stable_example :
    (is_e164 "+966512345678" ≡ true) × (normalise_phone "+966512345678" ≡ ok "+966512345678")
normalise_phone_stable_example = normalise_phone_stable "051 234-5678" "+966512345678" local_number

abbrev guest_user : UserStatus → User
guest_user status = record {
  id = 50;
  email = some "guest@example.com";
  phone = some "+966512345678";
  full_name = "Guest";
  password_hash = some "secret";
  auth_provider = AuthProvider.password;
  status = status;
  platform_role = PlatformRole.user;
  phone_verified_at = none;
  last_login_at = none;
  is_deleted = false;
}

abbrev ports : AuthPorts
ports = record {
  same_email = same_text;
  hash = λ password. password;
  verify_password = same_text;
  dummy_hash = "";
  sign = λ c. "token";
  digest = shown;
  notifier = λ m. ok true;
}

abbrev home_of : UserStatus → World
home_of status = record asked { db = record asked.db { users = guest_user status ∷ [] } }

active_login :
    (login alone ports "guest@example.com" "secret" (home_of UserStatus.active)).0
    ≡ ok (
        result_of ports (record (guest_user UserStatus.active) { last_login_at = some 1000 }) false)
unfolding login ◌>>=◌ select find_by_email checked_user stored_hash pure pause query touch_login
    issue_for claims_row or_throw result_of actor_of
active_login = refl

login-Opens_example :
    (u : User) × Opens alone ports "guest@example.com" "secret" u (home_of UserStatus.active).db
    × (50 ≡ u.id)
unfolding result_of
login-Opens_example =
    login-Opens alone ports "guest@example.com" "secret" (home_of UserStatus.active)
      (result_of ports (record (guest_user UserStatus.active) { last_login_at = some 1000 }) false)
      active_login

-- A suspended account, which a password does not open, opens by a code.
suspended_login :
    (login alone ports "guest@example.com" "secret" (home_of UserStatus.suspended)).0
    ≡ err (domain DomainError.invalid_credentials)
unfolding login ◌>>=◌ select find_by_email checked_user stored_hash throw
suspended_login = refl

phone_sign_in_any_status_example :
    (r : AuthResult) × ((verify_phone_otp alone ports "051 234-5678" "123456"
        (home_of UserStatus.suspended)).0
      ≡ ok r)
    × (r.id ≡ 50)
phone_sign_in_any_status_example =
    phone_sign_in_any_status alone ports alone-Alone "051 234-5678" "+966512345678" "123456"
      "123456" 3 1100 (guest_user UserStatus.suspended) (home_of UserStatus.suspended) local_number
      refl (omega arith) refl refl

abbrev operator : AuthClaims
operator = record { sub = 1; email = none; actor_type = ActorType.guest; role = PlatformRole.admin }

abbrev known_token : String → Option AuthClaims
known_token token = if same_text token "abc" then some operator else none

abbrev console_request : GuardedRequest
console_request = record { authorization = some "Bearer abc"; context_actor = some ActorType.admin }

console_admitted :
    admitted_by_guards known_token false
      (record { is_public = false; roles = ActorType.admin ∷ [] })
      console_request
    ≡ ok tt
unfolding admitted_by_guards authenticate claims_of_token bearer after_prefix check_roles has_role
console_admitted = refl

admitted_iff_Bearer_example : Bearer known_token console_request (ActorType.admin ∷ [])
admitted_iff_Bearer_example =
    (admitted_iff_Bearer known_token console_request ActorType.admin []).0 console_admitted
