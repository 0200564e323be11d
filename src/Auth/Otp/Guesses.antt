-- ===== src/Auth/Otp/Guesses.antt =====
-- About the guesses at one code.
use last_chance_platform.Prelude.{
  ℕ, suc, ◌+◌, ◌-◌, ◌*◌, ◌≤◌, ◌<◌, ◌≡◌, refl, ◌∙◌, Bool, true, false, String, Option, none, some,
  ltb, leb, arith, same_text, same_text_refl, Bool-cases, inl, inr,
}
use last_chance_platform.Prelude.Result.{ok, err}
use last_chance_platform.Prelude.Action.{pure, throw, ◌>>=◌}
use last_chance_platform.Errors.{DomainError, domain}
use last_chance_platform.Domain.Auth.{
  RedisKey, same_key, RedisValue, counter, stored_otp, RedisEntry,
}
use last_chance_platform.World.Store.{World}
use last_chance_platform.World.Effects.{Env, pause}
use last_chance_platform.World.Redis.{
  Redis, live, put, value_of, remaining, in_seconds, ttl, get, set_ex, del, command,
}
use last_chance_platform.World.Steps.{>>=-ok}
use last_chance_platform.Auth.Otp.{
  seconds_or, otp_ttl_seconds, max_attempts, consume, burn, count_guess, check_guess, check_stored,
  verify,
}

-- No other request of the phone runs between the commands of a check.
pub record Alone (env : Env) : Type 0 where
  pub alone : env.meanwhile ≡ λ k w. w

-- What Redis holds under the key of the code after a check, by what it held.
same_key_code :
    (phone : String) → same_key (RedisKey.otp_code phone) (RedisKey.otp_code phone) ≡ true
unfolding same_key
same_key_code phone = same_text_refl phone

put_code :
    (phone : String) (e : Option RedisEntry) (r : Redis)
    → put (RedisKey.otp_code phone) e r (RedisKey.otp_code phone) ≡ e
unfolding put
put_code phone e r = rw (same_key_code phone) refl

put_sends :
    (phone : String) (e : Option RedisEntry) (r : Redis)
    → put (RedisKey.otp_sends phone) e r (RedisKey.otp_code phone) ≡ r (RedisKey.otp_code phone)
unfolding put same_key
put_sends phone e r = refl

-- How many guesses at the code are left, and whether what stands under its key is such a code.
abbrev pub room : Option RedisEntry → ℕ
room none = 0
room (some e) = elim e.value [ counter _ ↦ 0 | stored_otp _ attempts ↦ max_attempts - attempts ]

abbrev pub is_usable : Option RedisEntry → Bool
is_usable none = true
is_usable (some e) = elim e.value [
  | counter _ ↦ false
  | stored_otp _ attempts ↦ ltb attempts max_attempts
]

abbrev pub is_there : Option RedisEntry → ℕ
is_there none = 0
is_there (some _) = 1

live-eq : (now : ℕ) (e : Option RedisEntry) (x : RedisEntry) → live now e ≡ some x → e ≡ some x
unfolding live
live-eq now none x h = cc
live-eq now (some e) x h = ground arith

no_counter : (x : RedisEntry) (n : ℕ) → x.value ≡ counter n → is_usable (some x) ≡ true → ⊥
no_counter x n e h = ground arith

code_below :
    (x : RedisEntry) (hash : String) (attempts : ℕ)
    → x.value ≡ stored_otp hash attempts
    → is_usable (some x) ≡ true
    → attempts < max_attempts
code_below x hash attempts e h = ground arith

module _ (env : Env) (alone : Alone env) (digest : String → String → String) (phone : String) where
  abbrev pub code_key : RedisKey
  code_key = RedisKey.otp_code phone

  abbrev with_code : Option RedisEntry → World → World
  with_code e w = record w { redis = put code_key e w.redis }

  pause-alone : (k : ℕ) (w : World) → pause env k w ≡ (ok tt, w)
  unfolding pause
  pause-alone k w = rw alone.alone refl

  pub verify-check :
      (submitted : String) (w : World)
      → verify env phone digest submitted w
        ≡ check_stored env phone digest submitted
            (value_of (live (env.redis_now 0) (w.redis code_key)))
            w
  unfolding verify get command
  verify-check submitted w =
      >>=-ok _ _ w w (value_of (live (env.redis_now 0) (w.redis code_key))) refl
      ∙ >>=-ok _ _ w w tt (pause-alone 31 w)

  pub right-consumed :
      (submitted hash : String) (attempts : ℕ) (w : World)
      → same_text hash (digest phone submitted) ≡ true
      → (w' : World) × (check_guess env phone digest submitted hash attempts w ≡ (ok true, w'))
        × (w'.redis code_key ≡ none)
        × (w'.db ≡ w.db)
  unfolding check_guess consume del command ◌>>=◌ pure
  right-consumed submitted hash attempts w h = (
    record w { redis = put (RedisKey.otp_sends phone) none (put code_key none w.redis) },
    rw h refl,
    put_sends phone none (put code_key none w.redis) ∙ put_code phone none w.redis,
    refl,
  )

  last-burned :
      (submitted hash : String) (attempts : ℕ) (w : World)
      → same_text hash (digest phone submitted) ≡ false
      → leb max_attempts (suc attempts) ≡ true
      → (w' : World) × (check_guess env phone digest submitted hash attempts w
          ≡ (err (domain DomainError.validation_failed), w'))
        × (w'.redis code_key ≡ none)
  unfolding check_guess burn del command ◌>>=◌ throw
  last-burned submitted hash attempts w h full =
      (with_code none w, rw (h, full) refl, put_code phone none w.redis)

  -- the end that a wrong guess leaves
  abbrev pub new_end : World → ℕ
  new_end w =
      env.redis_now 2
      + seconds_or
          (in_seconds (remaining (env.redis_now 1) (live (env.redis_now 1) (w.redis code_key))))
          otp_ttl_seconds
        * 1000

  abbrev pub counted_code : String → ℕ → World → Option RedisEntry
  counted_code hash attempts w =
      some (record { value = stored_otp hash attempts; expires_at = some (new_end w) })

  count_guess-run :
      (hash : String) (attempts : ℕ) (w : World)
      → count_guess env phone digest hash attempts w
        ≡ (ok false, with_code (counted_code hash attempts w) w)
  unfolding count_guess ttl set_ex command pure
  count_guess-run hash attempts w =
      >>=-ok _ _ w w
        (in_seconds (remaining (env.redis_now 1) (live (env.redis_now 1) (w.redis code_key)))) refl
      ∙ (>>=-ok _ _ w w tt (pause-alone 32 w)
          ∙ >>=-ok _ _ w (with_code (counted_code hash attempts w) w) tt refl)

  pub wrong-counted :
      (submitted hash : String) (attempts : ℕ) (w : World)
      → same_text hash (digest phone submitted) ≡ false
      → leb max_attempts (suc attempts) ≡ false
      → (w' : World) × (check_guess env phone digest submitted hash attempts w ≡ (ok false, w'))
        × (w'.redis code_key ≡ counted_code hash (suc attempts) w)
  unfolding check_guess
  wrong-counted submitted hash attempts w h more = (
    with_code (counted_code hash (suc attempts) w) w,
    rw (h, more) (count_guess-run hash (suc attempts) w),
    put_code phone (counted_code hash (suc attempts) w) w.redis,
  )

  -- One check uses up one guess, if there is a code to guess.
  abbrev pub UsesOne : World → Type 0
  UsesOne w =
      (submitted : String)
      → (is_usable ((verify env phone digest submitted w).1.redis code_key) ≡ true)
        × (is_there (live (env.redis_now 0) (w.redis code_key))
              + room ((verify env phone digest submitted w).1.redis code_key)
            ≤ room (w.redis code_key))

  guess-used :
      (submitted hash : String) (attempts : ℕ) (w : World)
      → attempts < max_attempts
      → (is_usable ((check_guess env phone digest submitted hash attempts w).1.redis code_key)
          ≡ true)
        × (1 + room ((check_guess env phone digest submitted hash attempts w).1.redis code_key)
            ≤ max_attempts - attempts)
  guess-used submitted hash attempts w h =
      elim (Bool-cases (same_text hash (digest phone submitted))) [
        | inl right ↦
            let (w', run, none_left, kept) = right-consumed submitted hash attempts w right in
            rw (run, none_left) (refl, omega arith)
        | inr wrong ↦ elim (Bool-cases (leb max_attempts (suc attempts))) [
          | inl last ↦
              let (w', run, none_left) = last-burned submitted hash attempts w wrong last in
              rw (run, none_left) (refl, omega arith)
          | inr more ↦
              let (w', run, kept) = wrong-counted submitted hash attempts w wrong more in
              rw (run, kept) (ground arith, ground arith)
        ]
      ]

  pub verify-UsesOne : (w : World) → is_usable (w.redis code_key) ≡ true → UsesOne w
  unfolding check_stored throw
  verify-UsesOne w h submitted = by_live (live (env.redis_now 0) (w.redis code_key)) refl
    where
      by_live :
          (o : Option RedisEntry)
          → live (env.redis_now 0) (w.redis code_key) ≡ o
          → (is_usable ((verify env phone digest submitted w).1.redis code_key) ≡ true)
            × (is_there (live (env.redis_now 0) (w.redis code_key))
                  + room ((verify env phone digest submitted w).1.redis code_key)
                ≤ room (w.redis code_key))
      by_live none e = rw (verify-check submitted w, e) (h, omega arith)
      by_live (some x) e = by_value x.value refl
        where
          by_value :
              (v : RedisValue)
              → x.value ≡ v
              → (is_usable ((verify env phone digest submitted w).1.redis code_key) ≡ true)
                × (is_there (live (env.redis_now 0) (w.redis code_key))
                      + room ((verify env phone digest submitted w).1.redis code_key)
                    ≤ room (w.redis code_key))
          by_value (counter n) ev =
              absurd
                (no_counter x n ev (rw (live-eq (env.redis_now 0) (w.redis code_key) x e) at h))
          by_value (stored_otp hash attempts) ev =
              let there = live-eq (env.redis_now 0) (w.redis code_key) x e in
              let below = code_below x hash attempts ev (rw there at h) in
              rw (verify-check submitted w, e, there, ev)
                (guess-used submitted hash attempts w below)
