-- ===== src/Auth/Otp/Limits.antt =====
-- About what the checks of a one-time code allow: how many guesses, how often, until when.
use last_chance_platform.Prelude.{
  ℕ, suc, ◌+◌, ◌≤◌, ◌<◌, ◌≡◌, refl, sym, ◌∙◌, true, false, String, none, some, List, [], ◌∷◌, leb,
  All, arith, same_text, same_text_refl,
}
use last_chance_platform.Prelude.Result.{ok}
use last_chance_platform.Domain.Auth.{RedisKey, stored_otp, RedisEntry}
use last_chance_platform.World.Store.{World}
use last_chance_platform.World.Effects.{Env}
use last_chance_platform.World.Redis.{live, remaining, in_seconds}
use last_chance_platform.Auth.Otp.{
  otp_ttl_seconds, seconds_or, max_attempts, check_stored, check_guess, verify,
}
use last_chance_platform.Auth.Otp.Guesses.{
  Alone, room, is_usable, is_there, right-consumed, wrong-counted, verify-check, verify-UsesOne,
}

module _ (digest : String → String → String) (phone : String) where
  -- How many of the submissions were compared with a code.
  unfoldable pub compared : List (Env × String) → World → ℕ
  compared [] w = 0
  compared ((env, submitted) ∷ rest) w =
      is_there (live (env.redis_now 0) (w.redis (RedisKey.otp_code phone)))
      + compared rest (verify env phone digest submitted w).1

  -- When a phone's key holds nothing or a code with less than five wrong guesses, then of any
  -- submissions, one after another and at any times, at most five less those guesses are compared
  -- with the code, and none when there is no code.
  pub compared-le-room :
      (calls : List (Env × String)) (w : World)
      → All (λ c. Alone c.0) calls
      → is_usable (w.redis (RedisKey.otp_code phone)) ≡ true
      → compared calls w ≤ room (w.redis (RedisKey.otp_code phone))
  unfolding compared
  compared-le-room [] w alone h = omega arith
  compared-le-room ((env, submitted) ∷ rest) w alone h =
      let (usable, spent) = verify-UsesOne env alone.0 digest phone w h submitted in
      let later = compared-le-room rest (verify env phone digest submitted w).1 alone.1 usable in
      omega arith

module _ (env : Env) (alone : Alone env) (digest : String → String → String) (phone : String) where
  -- The key holds a code with this digest and so many wrong guesses, until `t`.
  abbrev pub Holds : String → ℕ → ℕ → World → Type 0
  Holds hash attempts t w =
      w.redis (RedisKey.otp_code phone)
      ≡ some (record { value = stored_otp hash attempts; expires_at = some t })

  verify-at :
      (submitted hash : String) (attempts t : ℕ) (w : World)
      → Holds hash attempts t w
      → env.redis_now 0 < t
      → verify env phone digest submitted w ≡ check_guess env phone digest submitted hash attempts w
  unfolding live check_stored
  verify-at submitted hash attempts t w h runs =
      let running : leb (env.redis_now 0) t ≡ true = ground arith in
      verify-check env alone digest phone submitted w ∙ rw (h, running) refl

  pub right_code-verified :
      (submitted hash : String) (attempts t : ℕ) (w : World)
      → Holds hash attempts t w
      → env.redis_now 0 < t
      → hash ≡ digest phone submitted
      → (w' : World) × (verify env phone digest submitted w ≡ (ok true, w'))
        × (w'.redis (RedisKey.otp_code phone) ≡ none)
        × (w'.db ≡ w.db)
  right_code-verified submitted hash attempts t w h runs same =
      let (w', run, consumed, kept) =
        right-consumed env alone digest phone submitted hash attempts w
          (rw same (same_text_refl (digest phone submitted))) in
      (w', verify-at submitted hash attempts t w h runs ∙ run, consumed, kept)

  -- less than half a second is none in whole seconds
  renewed :
      (t : ℕ) (e : RedisEntry)
      → e.expires_at ≡ some t
      → env.redis_now 1 < t
      → t < env.redis_now 1 + 500
      → seconds_or
          (in_seconds (remaining (env.redis_now 1) (live (env.redis_now 1) (some e))))
          otp_ttl_seconds
        ≡ 120
  unfolding live remaining in_seconds seconds_or
  renewed t e ends still soon = ground arith

  -- A wrong guess, not the last that is allowed, in the last half second of a code is counted and
  -- answered by false, and the code then ends 120 seconds after that guess.
  pub late_guess_renews :
      (submitted hash : String) (attempts t : ℕ) (w : World)
      → Holds hash attempts t w
      → env.redis_now 0 < t
      → env.redis_now 1 < t
      → t < env.redis_now 1 + 500
      → same_text hash (digest phone submitted) ≡ false
      → suc attempts < max_attempts
      → ((verify env phone digest submitted w).0 ≡ ok false)
        × Holds hash
            (suc attempts)
            (env.redis_now 2 + 120000)
            (verify env phone digest submitted w).1
  late_guess_renews submitted hash attempts t w h runs still soon wrong more =
      let (w', run, kept) =
        wrong-counted env alone digest phone submitted hash attempts w wrong (ground arith) in
      let whole = rw (sym h) at (
        renewed t (record { value = stored_otp hash attempts; expires_at = some t }) refl still
          soon) in
      rw (verify-at submitted hash attempts t w h runs, run) (refl, kept ∙ rw whole refl)
