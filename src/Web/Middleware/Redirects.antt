-- ===== src/Web/Middleware/Redirects.antt =====
-- About a browser that follows the redirects.
use last_chance_platform.Prelude.{
  ℕ, suc, ◌≡◌, refl, Bool, true, false, String, Option, none, some, arith, Bool-cases, inl, inr,
  ◌⊎◌,
}
use last_chance_platform.Web.Middleware.{
  Claims, SessionCookie, claims_of, NextResponse, middleware, cookie_after, home, is_admin, is_host,
  starts_with,
}

-- The cookie at the next request: one that was usable may have expired by then.
abbrev pub at_request : Bool → SessionCookie → SessionCookie
at_request true cookie = cookie
at_request false (SessionCookie.usable _) = SessionCookie.stale
at_request false cookie = cookie

-- The page that a browser comes to when it follows so many redirects at most; `fresh` says of each
-- request whether a session that was usable has not expired at it.
unfoldable pub follow : (ℕ → Bool) → ℕ → String → SessionCookie → Option String
follow fresh ℕ.zero path cookie = none
follow fresh (suc n) path cookie =
    let now = at_request (fresh n) cookie in
    elim (middleware path (claims_of now)) [
      | NextResponse.proceed ↦ some path
      | NextResponse.redirect to ↦ follow fresh n to (cookie_after now)
    ]

-- The browser arrives at some page.
abbrev pub Arrives : (ℕ → Bool) → ℕ → String → SessionCookie → Type 0
Arrives fresh n path cookie = (page : String) × (follow fresh n path cookie ≡ some page)

-- where a redirect may lead
visitor-login : (path to : String) → middleware path none ≡ NextResponse.redirect to → to ≡ "/login"
unfolding middleware
visitor-login path to h = ground arith

member-home :
    (path : String) (c : Claims) (to : String)
    → middleware path (some c) ≡ NextResponse.redirect to
    → to ≡ home (some c)
unfolding middleware
member-home path c to h = ground arith

home-proceeds : (c : Claims) → middleware (home (some c)) (some c) ≡ NextResponse.proceed
unfolding middleware home starts_with
home-proceeds c = elim (Bool-cases (is_admin (some c))) [
  | inl admin ↦ rw admin refl
  | inr other ↦ elim (Bool-cases (is_host (some c))) [
    | inl host ↦ rw (other, host) refl
    | inr guest ↦ rw (other, guest) refl
  ]
]

home-visitor :
    (c : Claims)
    → (middleware (home (some c)) none ≡ NextResponse.proceed)
      ⊎ (middleware (home (some c)) none ≡ NextResponse.redirect "/login")
unfolding middleware home starts_with
home-visitor c = elim (Bool-cases (is_admin (some c))) [
  | inl admin ↦ rw admin (inr refl)
  | inr other ↦ elim (Bool-cases (is_host (some c))) [
    | inl host ↦ rw (other, host) (inr refl)
    | inr guest ↦ rw (other, guest) (inl refl)
  ]
]

step-proceeds :
    (fresh : ℕ → Bool) (n : ℕ) (path : String) (cookie : SessionCookie)
    → middleware path (claims_of (at_request (fresh n) cookie)) ≡ NextResponse.proceed
    → Arrives fresh (suc n) path cookie
unfolding follow
step-proceeds fresh n path cookie h = (path, rw (follow, h) refl)

step-redirects :
    (fresh : ℕ → Bool) (n : ℕ) (path to : String) (cookie : SessionCookie)
    → middleware path (claims_of (at_request (fresh n) cookie)) ≡ NextResponse.redirect to
    → Arrives fresh n to (cookie_after (at_request (fresh n) cookie))
    → Arrives fresh (suc n) path cookie
unfolding follow
step-redirects fresh n path to cookie h (page, later) = (page, rw (follow, h) later)

absent-stays : (b : Bool) → at_request b SessionCookie.absent ≡ SessionCookie.absent
absent-stays true = refl
absent-stays false = refl

login-Arrives : (fresh : ℕ → Bool) (n : ℕ) → Arrives fresh (suc n) "/login" SessionCookie.absent
unfolding middleware
login-Arrives fresh n =
    step-proceeds fresh n "/login" SessionCookie.absent (rw (absent-stays (fresh n)) refl)

-- a session that has expired is gone after one more redirect
expired-Arrives :
    (fresh : ℕ → Bool) (c : Claims)
    → fresh 1 ≡ false
    → Arrives fresh 2 (home (some c)) (SessionCookie.usable c)
unfolding cookie_after
expired-Arrives fresh c over = elim (home-visitor c) [
  | inl shown ↦ step-proceeds fresh 1 (home (some c)) (SessionCookie.usable c) (rw over shown)
  | inr sent ↦
      step-redirects fresh 1 (home (some c)) "/login" (SessionCookie.usable c) (rw over sent)
        (rw over (login-Arrives fresh 0))
]

home-Arrives :
    (fresh : ℕ → Bool) (c : Claims) → Arrives fresh 2 (home (some c)) (SessionCookie.usable c)
home-Arrives fresh c = elim (Bool-cases (fresh 1)) [
  | inl still ↦
      step-proceeds fresh 1 (home (some c)) (SessionCookie.usable c) (rw still (home-proceeds c))
  | inr over ↦ expired-Arrives fresh c over
]

-- after a redirect: to the form when no claims were there, and home when they were
redirected-Arrives :
    (fresh : ℕ → Bool) (now : SessionCookie) (path to : String)
    → middleware path (claims_of now) ≡ NextResponse.redirect to
    → Arrives fresh 2 to (cookie_after now)
unfolding cookie_after
redirected-Arrives fresh SessionCookie.absent path to h =
    rw (visitor-login path to h) (login-Arrives fresh 1)
redirected-Arrives fresh SessionCookie.stale path to h =
    rw (visitor-login path to h) (login-Arrives fresh 1)
redirected-Arrives fresh (SessionCookie.usable c) path to h =
    rw (member-home path c to h) (home-Arrives fresh c)

answered-Arrives :
    (fresh : ℕ → Bool) (path : String) (cookie : SessionCookie) (answer : NextResponse)
    → middleware path (claims_of (at_request (fresh 2) cookie)) ≡ answer
    → Arrives fresh 3 path cookie
answered-Arrives fresh path cookie NextResponse.proceed h = step-proceeds fresh 2 path cookie h
answered-Arrives fresh path cookie (NextResponse.redirect to) h =
    step-redirects fresh 2 path to cookie h
      (redirected-Arrives fresh (at_request (fresh 2) cookie) path to h)

-- From any path and with any cookie, and at whichever request a session expires, a browser that
-- follows the redirects of the middleware is let through to a page within three requests.
pub follow_arrives :
    (fresh : ℕ → Bool) (path : String) (cookie : SessionCookie)
    → (page : String) × (follow fresh 3 path cookie ≡ some page)
follow_arrives fresh path cookie = answered-Arrives fresh path cookie _ refl
