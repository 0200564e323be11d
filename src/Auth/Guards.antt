-- ===== src/Auth/Guards.antt =====
-- The guards of a request over HTTP after the rate limit: backend/src/common/auth/jwt-auth.guard.ts,
-- then roles.guard.ts. The verification of a token (token.service.ts, over jose) is an argument.
use Prim.Native.Char.{code}
use last_chance_platform.Prelude.{
  Bool, true, false, ◌||◌, ◌≡◌, ◌↔◌, String, Option, none, some, List, [], ◌∷◌, any, ◌==◌,
  if◌then◌else◌, arith, Option-cases, inl, inr,
}
use last_chance_platform.Prelude.Result.{Result, ok, err, ◌>>=◌}
use last_chance_platform.Errors.{DomainError}
use last_chance_platform.Domain.Booking.{ActorType}
use last_chance_platform.Auth.Accounts.{is_platform_admin}
use last_chance_platform.Auth.Service.{AuthClaims}

-- What the decorators say of a handler: `@Public()` and `@Roles(…)`.
pub record Route : Type 0 where
  pub is_public : Bool
  pub roles : List ActorType

-- What the guards read of a request: the header `authorization`, and the actor type of the context,
-- which only the headers of the development mode set before a token is verified.
pub record GuardedRequest : Type 0 where
  pub authorization : Option String
  pub context_actor : Option ActorType

-- The text after a prefix, if it has the prefix.
unfoldable pub after_prefix : String → String → Option String
after_prefix String.[] s = some s
after_prefix (String.◌∷◌ _ _) String.[] = none
after_prefix (String.◌∷◌ a prefix) (String.◌∷◌ b s) =
    let rest = after_prefix prefix s in if code a == code b then rest else none

-- `header?.startsWith('Bearer ')` and `header.slice(7)`
unfoldable pub bearer : Option String → Option String
bearer none = none
bearer (some header) = after_prefix "Bearer " header

abbrev pub same_actor : ActorType → ActorType → Bool
same_actor ActorType.guest ActorType.guest = true
same_actor ActorType.host ActorType.host = true
same_actor ActorType.admin ActorType.admin = true
same_actor ActorType.support ActorType.support = true
same_actor ActorType.system ActorType.system = true
same_actor _ _ = false

-- `required.includes(actorType)`
abbrev pub includes : List ActorType → ActorType → Bool
includes roles actor = any (same_actor actor) roles

module _ (verify_token : String → Option AuthClaims) (dev_fallback : Bool) where
  unfoldable pub claims_of_token : String → Result DomainError (Option AuthClaims)
  claims_of_token token = elim (verify_token token) [
    | none ↦ err DomainError.unauthorized
    | some c ↦ ok (some c)
  ]

  -- `JwtAuthGuard.canActivate`: the claims that it leaves on the request
  unfoldable pub authenticate : Route → GuardedRequest → Result DomainError (Option AuthClaims)
  authenticate route request =
      if route.is_public then ok none else elim (bearer request.authorization) [
        | some token ↦ claims_of_token token
        | none ↦ if dev_fallback then ok none else err DomainError.unauthorized
      ]

-- `RolesGuard.canActivate`
unfoldable pub has_role : List ActorType → GuardedRequest → Option AuthClaims → Bool
has_role roles request (some c) = is_platform_admin c.role || includes roles c.actor_type
has_role roles request none = elim request.context_actor [
  | none ↦ includes roles ActorType.guest
  | some actor ↦ includes roles actor || same_actor actor ActorType.admin
]

unfoldable pub check_roles :
    List ActorType → GuardedRequest → Option AuthClaims → Result DomainError (Unit {0})
check_roles [] request claims = ok tt
check_roles (r ∷ roles) request claims =
    if has_role (r ∷ roles) request claims then ok tt else err DomainError.forbidden

-- Both guards, in the order of the module.
unfoldable pub admitted_by_guards :
    (String → Option AuthClaims) → Bool → Route → GuardedRequest → Result DomainError (Unit {0})
admitted_by_guards verify_token dev_fallback route request = do
  claims ← authenticate verify_token dev_fallback route request
  check_roles route.roles request claims

-- A bearer of the roles: a token that verifies, of a platform admin or of an actor among them.
pub record Bearer (verify_token : String → Option AuthClaims) (request : GuardedRequest)
    (roles : List ActorType) : Type 0 where
  pub token : String
  pub claims : AuthClaims
  pub sent : bearer request.authorization ≡ some token
  pub verified : verify_token token ≡ some claims
  pub allowed : (is_platform_admin claims.role || includes roles claims.actor_type) ≡ true

module _ (verify_token : String → Option AuthClaims) (request : GuardedRequest) (r : ActorType)
    (roles : List ActorType) where
  abbrev pub guarded : Route
  guarded = record { is_public = false; roles = r ∷ roles }

  bearer-admitted :
      Bearer verify_token request (r ∷ roles)
      → admitted_by_guards verify_token false guarded request ≡ ok tt
  unfolding admitted_by_guards authenticate claims_of_token check_roles has_role
  bearer-admitted b = ground (arith, b.sent, b.verified, b.allowed)

  admitted-bearer :
      admitted_by_guards verify_token false guarded request ≡ ok tt
      → Bearer verify_token request (r ∷ roles)
  unfolding admitted_by_guards authenticate claims_of_token check_roles has_role
  admitted-bearer h = elim (Option-cases (bearer request.authorization)) [
    | inl bare ↦ absurd (ground arith)
    | inr (token, sent) ↦ elim (Option-cases (verify_token token)) [
      | inl refused ↦ absurd (ground arith)
      | inr (c, verified) ↦ record {
        token = token;
        claims = c;
        sent = sent;
        verified = verified;
        allowed = ground arith;
      }
    ]
  ]

  -- Without the fallback for development, the guards let a request to a handler that is not public
  -- and names roles pass exactly when it bears a token that verifies, with claims of a platform
  -- admin or of an actor type among the roles.
  pub admitted_iff_Bearer :
      (admitted_by_guards verify_token false guarded request ≡ ok tt)
      ↔ Bearer verify_token request (r ∷ roles)
  admitted_iff_Bearer = (admitted-bearer, bearer-admitted)
