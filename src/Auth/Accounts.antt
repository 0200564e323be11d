-- ===== src/Auth/Accounts.antt =====
-- The rows of `users` that backend/src/modules/auth/auth.service.ts reads and writes, with the checks
-- and the unique keys of db/migrations/0004_identity.sql and 0017_phone_auth.sql. How the collation of
-- `citext` compares two addresses is an argument.
use Prim.Native.Char.{code}
use Prim.Native.String.{◌++◌}
use last_chance_platform.Prelude.{
  ℕ, Bool, true, false, not, ◌&&◌, ◌||◌, String, Option, none, some, ◌∷◌, any, find?, leb, ◌==◌,
  if◌then◌else◌, is_text, is_space,
}
use last_chance_platform.Prelude.Sql.{update_where}
use last_chance_platform.Prelude.Result.{ok, fail_if, ◌>>◌}
use last_chance_platform.Errors.{SqlState}
use last_chance_platform.Domain.Auth.{UserStatus, PlatformRole, AuthProvider, User}
use last_chance_platform.World.Store.{Db}
use last_chance_platform.World.Effects.{Statement}
use last_chance_platform.Auth.Phone.{is_e164, length}

-- `[^@[:space:]]*`
unfoldable pub is_plain : String → Bool
is_plain String.[] = true
is_plain (String.◌∷◌ c s) =
    let rest = is_plain s in not (is_space (code c) || code c == b'@') && rest

-- a dot that is not the last character
unfoldable pub dot_inside : String → Bool
dot_inside String.[] = false
dot_inside (String.◌∷◌ c s) =
    let rest = dot_inside s in (code c == b'.' && leb 1 (length s)) || rest

-- `[^@[:space:]]+\.[^@[:space:]]+$`
unfoldable pub is_domain : String → Bool
is_domain String.[] = false
is_domain (String.◌∷◌ c s) = is_plain (String.◌∷◌ c s) && dot_inside s

unfoldable pub after_at : String → Bool
after_at String.[] = false
after_at (String.◌∷◌ c s) =
    let rest = after_at s in if code c == b'@' then is_domain s else not (is_space (code c)) && rest

-- `email ~ '^[^@[:space:]]+@[^@[:space:]]+\.[^@[:space:]]+$'`
unfoldable pub is_email : String → Bool
is_email String.[] = false
is_email (String.◌∷◌ c s) = not (code c == b'@') && after_at (String.◌∷◌ c s)

abbrev pub is_active : UserStatus → Bool
is_active UserStatus.active = true
is_active _ = false

abbrev pub is_platform_admin : PlatformRole → Bool
is_platform_admin PlatformRole.admin = true
is_platform_admin PlatformRole.user = false

-- `phone.slice(-4)`
unfoldable pub last_four : String → String
last_four String.[] = ""
last_four (String.◌∷◌ c s) =
    let rest = last_four s in if leb 4 (length s) then rest else String.◌∷◌ c s

module _ (same_email : String → String → Bool) where
  abbrev pub has_email : String → User → Bool
  has_email email u = elim u.email [ none ↦ false | some e ↦ same_email e email ]

  -- The INSERT of `register`: no row when the address is taken.
  unfoldable pub insert_user : ℕ → String → String → String → Statement (Option ℕ)
  insert_user id email password_hash full_name db =
      if any (has_email email) db.users then ok (none, db) else (do
        fail_if (any (λ (u : User). id == u.id) db.users) SqlState.unique_violation
        fail_if (not (is_email email)) SqlState.check_violation
        fail_if (not (leb 1 (length full_name) && leb (length full_name) 200))
            SqlState.check_violation
        let new : User = record {
          id = id;
          email = some email;
          phone = none;
          full_name = full_name;
          password_hash = some password_hash;
          auth_provider = AuthProvider.password;
          status = UserStatus.active;
          platform_role = PlatformRole.user;
          phone_verified_at = none;
          last_login_at = none;
          is_deleted = false;
        }
        ok (some id, record db { users = new ∷ db.users }))

  -- The SELECT of `login`.
  unfoldable pub find_by_email : String → Db → Option User
  find_by_email email db = find? (λ (u : User). has_email email u && not u.is_deleted) db.users

-- The UPDATE of `login`.
unfoldable pub touch_login : ℕ → ℕ → Statement (Unit {0})
touch_login now id db =
    let set = λ (u : User). record u { last_login_at = some now } in
    ok (tt, record db { users = update_where (λ (u : User). id == u.id) set db.users })

abbrev pub has_phone : String → User → Bool
has_phone phone u = is_text u.phone phone

abbrev pub phone_verified : ℕ → User → User
phone_verified now u = record u { phone_verified_at = some now; last_login_at = some now }

-- The INSERT of `verifyPhoneOtp` when no account has the number.
unfoldable pub insert_phone_user : ℕ → ℕ → String → Statement ℕ
insert_phone_user now id phone db = do
  fail_if (any (λ (u : User). id == u.id) db.users) SqlState.unique_violation
  fail_if (not (is_e164 phone)) SqlState.check_violation
  let new : User = record {
    id = id;
    email = none;
    phone = some phone;
    full_name = "Guest " ++ last_four phone;
    password_hash = none;
    auth_provider = AuthProvider.phone;
    status = UserStatus.active;
    platform_role = PlatformRole.user;
    phone_verified_at = some now;
    last_login_at = none;
    is_deleted = false;
  }
  ok (id, record db { users = new ∷ db.users })

-- `ON CONFLICT (phone) DO UPDATE`
unfoldable pub upsert_phone_user : ℕ → ℕ → String → Statement ℕ
upsert_phone_user now id phone db = elim (find? (has_phone phone) db.users) [
  | none ↦ insert_phone_user now id phone db
  | some u ↦
      ok (u.id, record db { users = update_where (has_phone phone) (phone_verified now) db.users })
]
