-- ===== src/Auth/RateLimit/Window.antt =====
-- About the guard and a fixed window: a counter with an end.
use last_chance_platform.Prelude.{
  ℕ, suc, ◌+◌, ◌-◌, ◌*◌, ◌/◌, ◌≤◌, leb, ◌<◌, ◌≡◌, refl, ◌∙◌, Bool, true, false, String, Option,
  none, some, ltb, ◌==◌, if◌then◌else◌, arith, same_text_refl, Bool-cases, inl, inr,
}
use last_chance_platform.Prelude.Result.{Result, ok, err}
use last_chance_platform.Prelude.Action.{pure, throw, ◌>>=◌}
use last_chance_platform.Errors.{DomainError, Failure, domain}
use last_chance_platform.Domain.Auth.{RedisKey, same_key, counter, RedisEntry}
use last_chance_platform.World.Store.{World}
use last_chance_platform.World.Effects.{Env, pause}
use last_chance_platform.World.Redis.{
  Redis, live, put, incr, pexpire, pttl, remaining, end_at, command,
}
use last_chance_platform.World.Steps.{>>=-ok, recover-ok, recover-err}
use last_chance_platform.Auth.RateLimit.{
  RateLimitSpec, seconds_left, retry_after, open_window, refuse, admit, count_request, fail_open,
  can_activate,
}

-- The abstract limiter: how many requests this window has seen, and its end. `none` is no window.
abbrev pub Window : Type 0
Window = Option (ℕ × ℕ)

-- A window whose end has passed is none.
abbrev pub at_instant : ℕ → Window → Window
at_instant now none = none
at_instant now (some (n, t)) = if leb now t then some (n, t) else none

-- A request opens a window or is counted in the one that is open.
abbrev pub counted : ℕ → ℕ → Window → ℕ × ℕ
counted opens length none = (1, opens + length)
counted opens length (some (n, t)) = (suc n, t)

-- What Redis holds of a key is a window, which has seen a request.
abbrev pub Shows : Option RedisEntry → Window → Type 0
Shows e none = e ≡ none
Shows e (some (n, t)) = (e ≡ some (record { value = counter n; expires_at = some t })) × (0 < n)

-- No other request runs between the commands of this one, and the clock does not run back.
pub record Quiet (env : Env) : Type 0 where
  pub alone : env.meanwhile ≡ λ k w. w
  pub forward : env.redis_now 0 ≤ env.redis_now 1

abbrev pub always : ℕ → Bool
always _ = true

-- The seconds from an instant to the window's end, the last one begun counted whole; the whole
-- window, if the end is no longer ahead.
abbrev pub wait : ℕ → RateLimitSpec → ℕ → ℕ
wait now spec t = if ltb now t then (t - now + 999) / 1000 else spec.window_sec

abbrev pub refusal : Env → RateLimitSpec → ℕ → Failure
refusal env spec t = domain (DomainError.rate_limited (wait (env.redis_now 2) spec t))

-- What the guard is told of the window's end, when it asks.
seconds_left-wait :
    (now : ℕ) (spec : RateLimitSpec) (n t : ℕ)
    → seconds_left spec
        (remaining now (live now (some (record { value = counter n; expires_at = some t }))))
      ≡ wait now spec t
unfolding seconds_left remaining live
seconds_left-wait now spec n t = elim (Bool-cases (leb now t)) [
  | inl there ↦ rw there (ground arith)
  | inr over ↦ rw over (ground arith)
]

-- What the guard answers to a request after which the window is `(n, t)`.
abbrev pub verdict : Env → RateLimitSpec → ℕ → ℕ → Result Failure Bool
verdict env spec n t = if ltb spec.limit n then err (refusal env spec t) else ok true

-- The window after a request, and what the guard does.
pub record Counts (env : Env) (spec : RateLimitSpec) (key : RedisKey)
    (run : Result Failure Bool × World) (next : ℕ × ℕ) : Type 0 where
  pub answered : run.0 ≡ verdict env spec next.0 next.1
  pub shown : Shows (run.1.redis key) (some next)

live-Shows :
    (now : ℕ) (e : Option RedisEntry) (v : Window)
    → Shows e v
    → Shows (live now e) (at_instant now v)
unfolding live
live-Shows now e none h = rw h refl
live-Shows now e (some (n, t)) h = elim (Bool-cases (leb now t)) [
  | inl running ↦ rw (h.0, running) (refl, h.1)
  | inr over ↦ rw (h.0, over) refl
]

same_key_refl :
    (route ip : String) → same_key (RedisKey.rate route ip) (RedisKey.rate route ip) ≡ true
unfolding same_key
same_key_refl route ip = rw (same_text_refl route, same_text_refl ip) refl

pub put_self :
    (route ip : String) (e : Option RedisEntry) (r : Redis)
    → put (RedisKey.rate route ip) e r (RedisKey.rate route ip) ≡ e
unfolding put
put_self route ip e r = rw (same_key_refl route ip) refl

module _ (env : Env) (quiet : Quiet env) (spec : RateLimitSpec) (route ip : String) where
  abbrev pub key : RedisKey
  key = RedisKey.rate route ip

  abbrev pub stored : ℕ → ℕ → Option RedisEntry
  stored n t = some (record { value = counter n; expires_at = some t })

  abbrev pub with_entry : Option RedisEntry → World → World
  with_entry e w = record w { redis = put key e w.redis }

  pub pause-quiet : (k : ℕ) (w : World) → pause env k w ≡ (ok tt, w)
  unfolding pause
  pause-quiet k w = rw quiet.alone refl

  -- what is left to do once the request is counted and the window is open
  pub counted-admit :
      (n : ℕ) (w w1 w2 : World)
      → command true (incr (env.redis_now 0) key) w ≡ (ok n, w1)
      → open_window env always spec key n w1 ≡ (ok tt, w2)
      → count_request env always spec key w ≡ admit env always spec key n w2
  unfolding count_request
  counted-admit n w w1 w2 counts opens =
      >>=-ok _ _ w w1 n counts
      ∙ (>>=-ok _ _ w1 w1 tt (pause-quiet 20 w1)
          ∙ (>>=-ok _ _ w1 w2 tt opens ∙ >>=-ok _ _ w2 w2 tt (pause-quiet 21 w2)))

  admit-verdict :
      (n t : ℕ) (w : World)
      → w.redis key ≡ stored n t
      → admit env always spec key n w ≡ (verdict env spec n t, w)
  unfolding admit refuse retry_after pttl command ◌>>=◌ pure
  admit-verdict n t w h = elim (Bool-cases (ltb spec.limit n)) [
    | inl over ↦ rw (over, h, seconds_left-wait (env.redis_now 2) spec n t) refl
    | inr within ↦ rw within refl
  ]

  incr_first :
      (w : World)
      → live (env.redis_now 0) (w.redis key) ≡ none
      → command true (incr (env.redis_now 0) key) w
        ≡ (ok 1, with_entry (some (record { value = counter 1; expires_at = none })) w)
  unfolding incr command
  incr_first w h = rw h refl

  incr_next :
      (n t : ℕ) (w : World)
      → live (env.redis_now 0) (w.redis key) ≡ stored n t
      → command true (incr (env.redis_now 0) key) w ≡ (ok (suc n), with_entry (stored (suc n) t) w)
  unfolding incr command
  incr_next n t w h = rw h refl

  open_first :
      (w : World)
      → w.redis key ≡ some (record { value = counter 1; expires_at = none })
      → open_window env always spec key 1 w
        ≡ (ok tt, with_entry (stored 1 (env.redis_now 1 + spec.window_sec * 1000)) w)
  unfolding open_window pexpire command live end_at
  open_first w h = rw h refl

  pub open_next :
      (n : ℕ) (w : World) → 0 < n → open_window env always spec key (suc n) w ≡ (ok tt, w)
  unfolding open_window pure
  open_next n w h = let more : (suc n == 1) ≡ false = ground arith in rw more refl

  -- the `try` round the body
  guard-verdict :
      (n t : ℕ) (w w' : World)
      → count_request env always spec key w ≡ (verdict env spec n t, w')
      → can_activate env always spec route ip w ≡ (verdict env spec n t, w')
  unfolding can_activate fail_open throw
  guard-verdict n t w w' h = elim (Bool-cases (ltb spec.limit n)) [
    | inl over ↦ rw over (recover-err _ fail_open w w' (refusal env spec t) (h ∙ rw over refl))
    | inr within ↦ rw within (recover-ok _ fail_open w w' true (h ∙ rw within refl))
  ]

  guard-first :
      (w : World)
      → live (env.redis_now 0) (w.redis key) ≡ none
      → let t = env.redis_now 1 + spec.window_sec * 1000 in
        (w' : World) × (can_activate env always spec route ip w ≡ (verdict env spec 1 t, w'))
        × (w'.redis key ≡ stored 1 t)
  guard-first w h =
      let t = env.redis_now 1 + spec.window_sec * 1000 in
      let w1 = with_entry (some (record { value = counter 1; expires_at = none })) w in
      let w2 = with_entry (stored 1 t) w1 in
      let holds = put_self route ip (stored 1 t) w1.redis in
      (
        w2,
        guard-verdict 1 t w w2 (
            counted-admit 1 w w1 w2 (incr_first w h) (open_first w1 (put_self route ip _ w.redis))
            ∙ admit-verdict 1 t w2 holds),
        holds,
      )

  guard-next :
      (n t : ℕ) (w : World)
      → 0 < n
      → live (env.redis_now 0) (w.redis key) ≡ stored n t
      → (w' : World) × (can_activate env always spec route ip w ≡ (verdict env spec (suc n) t, w'))
        × (w'.redis key ≡ stored (suc n) t)
  guard-next n t w pos h =
      let w1 = with_entry (stored (suc n) t) w in
      let holds = put_self route ip (stored (suc n) t) w.redis in
      (
        w1,
        guard-verdict (suc n) t w w1 (
            counted-admit (suc n) w w1 w1 (incr_next n t w h) (open_next n w1 pos)
            ∙ admit-verdict (suc n) t w1 holds),
        holds,
      )

  counts :
      (w : World) (v : Window)
      → Shows (live (env.redis_now 0) (w.redis key)) v
      → Counts env spec key
          (can_activate env always spec route ip w)
          (counted (env.redis_now 1) (spec.window_sec * 1000) v)
  counts w none h =
      let (w', run, holds) = guard-first w h in
      rw run (record { answered = refl; shown = (holds, omega arith) })
  counts w (some (n, t)) h =
      let (w', run, holds) = guard-next n t w h.1 h.0 in
      rw run (record { answered = refl; shown = (holds, omega arith) })

  -- With Redis answering and no other request between its commands, the guard does what a fixed
  -- window does: when the key shows a window, or none, the request opens a window or is counted in
  -- the one that runs, the key shows that afterwards, and the request is let through exactly when
  -- the count is within the limit, and otherwise refused, with the seconds to the window's end when
  -- it asks for them, rounded up, or with the whole window when the end has come by then.
  pub can_activate-refines :
      (w : World) (v : Window)
      → Shows (w.redis key) v
      → Counts env spec key
          (can_activate env always spec route ip w)
          (counted (env.redis_now 1) (spec.window_sec * 1000) (at_instant (env.redis_now 0) v))
  can_activate-refines w v h = counts w _ (live-Shows (env.redis_now 0) (w.redis key) v h)
