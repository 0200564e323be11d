-- ===== src/Web/Tests.antt =====
-- Requests for pages, and the theorem at one.
use last_chance_platform.Prelude.{◌≡◌, refl, ltb, String, some}
use last_chance_platform.Web.Middleware.{
  Claims, SessionCookie, NextResponse, starts_with, home, middleware,
}
use last_chance_platform.Web.Middleware.Redirects.{follow, follow_arrives}

abbrev host_claims : Claims
host_claims = record { actor_type = "HOST"; role = "USER" }

-- A host who asks for the console of the operators is sent home.
host_at_admin : middleware "/admin/users" (some host_claims) ≡ NextResponse.redirect "/host"
unfolding middleware home starts_with
host_at_admin = refl

-- The same with a session that ends after the first request.
follow_arrives_example :
    (page : String) × (follow (λ k. ltb 1 k) 3 "/admin/users" (SessionCookie.usable host_claims)
      ≡ some page)
follow_arrives_example =
    follow_arrives (λ k. ltb 1 k) "/admin/users" (SessionCookie.usable host_claims)
