-- ===== src/Auth/RateLimit/Bounds.antt =====
-- About the guard over many requests, the delay that a refusal names, and a lost PEXPIRE.
use last_chance_platform.Prelude.{
  ℕ, suc, ◌+◌, ◌-◌, ◌≤◌, ◌<◌, ◌≡◌, refl, ◌∙◌, Bool, true, String, Option, none, some, List, [], ◌∷◌,
  ltb, leb, ◌==◌, if◌then◌else◌, All, arith, Bool-cases, inl, inr,
}
use last_chance_platform.Prelude.Result.{Result, ok, err}
use last_chance_platform.Prelude.Action.{pure, throw, ◌>>=◌}
use last_chance_platform.Errors.{DomainError, Failure, domain}
use last_chance_platform.Domain.Auth.{RedisKey, counter, RedisEntry}
use last_chance_platform.World.Store.{World}
use last_chance_platform.World.Effects.{Env}
use last_chance_platform.World.Redis.{live, remaining, incr, pttl, command}
use last_chance_platform.World.Steps.{>>=-ok, >>=-err, recover-ok, recover-err}
use last_chance_platform.Auth.RateLimit.{
  RateLimitSpec, seconds_left, can_activate, count_request, open_window, fail_open, admit, refuse,
  retry_after,
}
use last_chance_platform.Auth.RateLimit.Window.{
  Quiet, always, Shows, verdict, can_activate-refines, with_entry, pause-quiet, counted-admit,
  open_next, put_self,
}

abbrev pub is_admitted : Result Failure Bool → ℕ
is_admitted (ok true) = 1
is_admitted _ = 0

module _ (spec : RateLimitSpec) (route ip : String) where
  -- How many of the requests the guard lets pass.
  unfoldable pub admitted : List Env → World → ℕ
  admitted [] w = 0
  admitted (env ∷ rest) w =
      let (answer, w') = can_activate env always spec route ip w in
      is_admitted answer + admitted rest w'

  verdict_room :
      (env : Env) (n t later : ℕ)
      → later ≤ spec.limit - suc n
      → is_admitted (verdict env spec (suc n) t) + later ≤ spec.limit - n
  verdict_room env n t later h = elim (Bool-cases (ltb spec.limit (suc n))) [
    | inl over ↦ rw over (ground arith)
    | inr within ↦ rw within (ground arith)
  ]

  -- Of any requests to a route by an address that come by the end of a window which has seen `n` of
  -- them, one after another and with Redis answering, the guard lets at most the limit less `n`
  -- through.
  pub admitted_le_limit :
      (calls : List Env) (w : World) (n t : ℕ)
      → All Quiet calls
      → All (λ env. env.redis_now 0 ≤ t) calls
      → Shows (w.redis (RedisKey.rate route ip)) (some (n, t))
      → admitted calls w ≤ spec.limit - n
  unfolding admitted
  admitted_le_limit [] w n t quiet within h = omega arith
  admitted_le_limit (env ∷ rest) w n t quiet within h =
      let runs : leb (env.redis_now 0) t ≡ true = ground arith in
      let counts = rw runs at (can_activate-refines env quiet.0 spec route ip w (some (n, t)) h) in
      rw counts.answered (
        verdict_room env n t _ (
          admitted_le_limit rest (can_activate env always spec route ip w).1 (suc n) t quiet.1
            within.1 counts.shown))

-- An entry of a counter that never ends.
abbrev pub endless_count : ℕ → Option RedisEntry
endless_count n = some (record { value = counter n; expires_at = none })

module _ (env : Env) (quiet : Quiet env) (spec : RateLimitSpec) (route ip : String) where
  -- Redis answers INCR and then no more.
  abbrev only_first : ℕ → Bool
  only_first k = k == 0

  lost_expiry :
      (w : World)
      → live (env.redis_now 0) (w.redis (RedisKey.rate route ip)) ≡ none
      → (w' : World) × (can_activate env only_first spec route ip w ≡ (ok true, w'))
        × (w'.redis (RedisKey.rate route ip) ≡ endless_count 1)
  unfolding can_activate count_request incr command pure fail_open open_window
  lost_expiry w h =
      let w1 = with_entry env quiet spec route ip (endless_count 1) w in
      (
        w1,
        recover-err _ fail_open w w1 _ (
            >>=-ok _ _ w w1 1 (rw h refl)
            ∙ (>>=-ok _ _ w1 w1 tt (pause-quiet env quiet spec route ip 20 w1)
                ∙ >>=-err _ _ w1 w1 _ refl)),
        put_self route ip (endless_count 1) w.redis,
      )

  abbrev endless_verdict : ℕ → Result Failure Bool
  endless_verdict n =
      if ltb spec.limit n then err (domain (DomainError.rate_limited spec.window_sec)) else ok true

  endless_incr :
      (n : ℕ) (w : World)
      → w.redis (RedisKey.rate route ip) ≡ endless_count n
      → command true (incr (env.redis_now 0) (RedisKey.rate route ip)) w
        ≡ (ok (suc n), with_entry env quiet spec route ip (endless_count (suc n)) w)
  unfolding incr command live
  endless_incr n w h = rw h refl

  endless_admit :
      (n : ℕ) (w : World)
      → w.redis (RedisKey.rate route ip) ≡ endless_count n
      → admit env always spec (RedisKey.rate route ip) n w ≡ (endless_verdict n, w)
  unfolding admit refuse retry_after pttl command ◌>>=◌ pure live remaining seconds_left
  endless_admit n w h = elim (Bool-cases (ltb spec.limit n)) [
    | inl over ↦ rw (over, h) refl
    | inr within ↦ rw within refl
  ]

  endless_step :
      (n : ℕ) (w : World)
      → 0 < n
      → w.redis (RedisKey.rate route ip) ≡ endless_count n
      → (w' : World) × (can_activate env always spec route ip w ≡ (endless_verdict (suc n), w'))
        × (w'.redis (RedisKey.rate route ip) ≡ endless_count (suc n))
  unfolding can_activate fail_open throw
  endless_step n w pos h =
      let w1 = with_entry env quiet spec route ip (endless_count (suc n)) w in
      let holds = put_self route ip (endless_count (suc n)) w.redis in
      let run =
        counted-admit env quiet spec route ip (suc n) w w1 w1 (endless_incr n w h)
          (open_next env quiet spec route ip n w1 pos)
        ∙ endless_admit (suc n) w1 holds in
      (
        w1,
        elim (Bool-cases (ltb spec.limit (suc n))) [
          | inl over ↦ rw over (
              recover-err _ fail_open w w1 (domain (DomainError.rate_limited spec.window_sec))
                (run ∙ rw over refl))
          | inr within ↦ rw within (recover-ok _ fail_open w w1 true (run ∙ rw within refl))
        ],
        holds,
      )

endless_room :
    (spec : RateLimitSpec) (n later : ℕ)
    → later ≤ spec.limit - suc n
    → is_admitted (
          if ltb spec.limit (suc n)
          then err (domain (DomainError.rate_limited spec.window_sec))
          else ok true)
        + later
      ≤ spec.limit - n
endless_room spec n later h = elim (Bool-cases (ltb spec.limit (suc n))) [
  | inl over ↦ rw over (ground arith)
  | inr within ↦ rw within (ground arith)
]

endless_admitted :
    (spec : RateLimitSpec) (route ip : String) (calls : List Env) (w : World) (n : ℕ)
    → All Quiet calls
    → 0 < n
    → w.redis (RedisKey.rate route ip) ≡ endless_count n
    → admitted spec route ip calls w ≤ spec.limit - n
unfolding admitted
endless_admitted spec route ip [] w n quiet pos h = omega arith
endless_admitted spec route ip (env ∷ rest) w n quiet pos h =
    let (w', run, holds) = endless_step env quiet.0 spec route ip n w pos h in
    rw run (
      endless_room spec n _
        (endless_admitted spec route ip rest w' (suc n) quiet.1 (omega arith) holds))

-- When Redis takes the INCR of the first request and then fails, the request is let through, but
-- the key never ends: of any later requests, one after another and however late, at most the limit
-- less one are let through.
pub lost_expiry_never_reopens :
    (env : Env) (spec : RateLimitSpec) (route ip : String) (calls : List Env) (w : World)
    → Quiet env
    → live (env.redis_now 0) (w.redis (RedisKey.rate route ip)) ≡ none
    → All Quiet calls
    → ((can_activate env (λ k. k == 0) spec route ip w).0 ≡ ok true)
      × (admitted spec route ip calls (can_activate env (λ k. k == 0) spec route ip w).1
          ≤ spec.limit - 1)
lost_expiry_never_reopens env spec route ip calls w quiet fresh later =
    let (w', run, holds) = lost_expiry env quiet spec route ip w fresh in
    rw run (refl, endless_admitted spec route ip calls w' 1 later (omega arith) holds)
