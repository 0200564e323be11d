-- ===== src/Web/Middleware.antt =====
-- web/src/middleware.ts: where a request for a page is sent. Whether the cookie of a session still
-- yields claims (`decodePayload`: it decodes and has not expired) is a part of the request.
pub mod Redirects
use Prim.Native.Char.{code}
use last_chance_platform.Prelude.{
  ℕ, suc, Bool, true, false, not, ◌&&◌, ◌||◌, String, Option, none, some, ◌==◌, if◌then◌else◌,
  is_some, same_text,
}

-- The claims that the middleware reads.
pub record Claims : Type 0 where
  pub actor_type : String
  pub role : String

-- The cookie of a request: none, one that yields no claims, or one that does.
pub data SessionCookie : Type 0 where
  absent stale : SessionCookie
  usable : Claims → SessionCookie

pub data NextResponse : Type 0 where
  proceed : NextResponse
  redirect : String → NextResponse

unfoldable pub starts_with : String → String → Bool
starts_with s String.[] = true
starts_with String.[] (String.◌∷◌ _ _) = false
starts_with (String.◌∷◌ a s) (String.◌∷◌ b prefix) =
    let rest = starts_with s prefix in (code a == code b) && rest

abbrev pub claims_of : SessionCookie → Option Claims
claims_of (SessionCookie.usable c) = some c
claims_of _ = none

-- `claims?.['role']` and `claims?.['actorType']`, with `?? ''`
abbrev pub is_admin : Option Claims → Bool
is_admin none = false
is_admin (some c) = same_text c.role "ADMIN"

abbrev pub is_host : Option Claims → Bool
is_host none = false
is_host (some c) = same_text c.actor_type "HOST"

-- Where this actor belongs when they land somewhere they should not be.
unfoldable pub home : Option Claims → String
home c = if is_admin c then "/admin" else if is_host c then "/host" else "/discover"

abbrev pub is_sign_in : String → Bool
is_sign_in path = same_text path "/login" || same_text path "/register"

abbrev pub is_guest_page : String → Bool
is_guest_page path = starts_with path "/bookings" || starts_with path "/book/"

abbrev pub is_admin_page : String → Bool
is_admin_page path = starts_with path "/admin"

abbrev pub is_host_page : String → Bool
is_host_page path = starts_with path "/host"

-- `middleware`
unfoldable pub middleware : String → Option Claims → NextResponse
middleware path claims =
    if is_sign_in path
    then (if is_some claims then NextResponse.redirect (home claims) else NextResponse.proceed)
    else if is_guest_page path
    then (if is_some claims then NextResponse.proceed else NextResponse.redirect "/login")
    else if is_admin_page path
    then (if not (is_some claims)
        then NextResponse.redirect "/login"
        else if is_admin claims
        then NextResponse.proceed
        else NextResponse.redirect (home claims))
    else if is_host_page path
    then (if not (is_some claims)
        then NextResponse.redirect "/login"
        else if is_admin claims || is_host claims
        then NextResponse.proceed
        else NextResponse.redirect (home claims))
    else NextResponse.proceed

-- A stale cookie is deleted by the response.
unfoldable pub cookie_after : SessionCookie → SessionCookie
cookie_after SessionCookie.stale = SessionCookie.absent
cookie_after cookie = cookie
