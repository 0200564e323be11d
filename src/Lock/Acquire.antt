-- ===== src/Lock/Acquire.antt =====
-- How `acquire` ends, whatever the other processes do between its commands, and whichever of its
-- commands Redis answers.
use last_chance_platform.Prelude.{
  ℕ, zero, suc, ◌+◌, ◌≤◌, ◌≡◌, ◌∙◌, ap, refl, true, false, some, ◌≢◌, ◌⊎◌, is_some, arith, inl, inr,
}
use last_chance_platform.Prelude.Result.{Result, ok, err}
use last_chance_platform.Prelude.Action.{pure}
use last_chance_platform.Errors.{DomainError, Failure, domain, plain}
use last_chance_platform.World.Store.{World}
use last_chance_platform.World.Effects.{Reply, answered, unanswered, unsent, Env, pause}
use last_chance_platform.World.Steps.{>>=-ok, >>=-err}
use last_chance_platform.Lock.{
  AcquiredLock, set_nx, next_fence, sent, granted, before_incr, try_set,
}
use last_chance_platform.Lock.Exclusion.{owner}

-- No process takes the key from the caller, or frees it, while it carries the caller's token.
abbrev pub LeavesOurs : Env → ℕ → Type 0
LeavesOurs env key =
    (k later : ℕ) (w : World)
    → owner later key w ≡ some env.lock_token
    → owner later key (env.meanwhile k w) ≡ some env.lock_token

-- What the owner of a new lock may rely on: the token is its own, the key is its own until the
-- end that was set at some try, and the fence is the key's counter.
pub record IsGranted (env : Env) (key ttl : ℕ) (lock : AcquiredLock) (w : World) : Type 0 where
  pub tried : ℕ
  pub ours : lock.token ≡ env.lock_token
  pub on_key : lock.key ≡ key
  pub owned :
      (later : ℕ) → later ≤ env.redis_now tried + ttl → owner later key w ≡ some env.lock_token
  pub fenced : lock.fence ≡ w.fences key

-- Some command of the acquisition got no answer.
pub record LostReply (env : Env) : Type 0 where
  pub try : ℕ
  pub lost : (env.set_reply try ≢ answered) ⊎ (env.incr_reply try ≢ answered)

-- At each try that is left Redis answers, and the key is held; a refused SET changes nothing.
abbrev pub BusyThrough : Env → ℕ → ℕ → ℕ → World → Type 0
BusyThrough env key attempt zero w =
    (env.set_reply attempt ≡ answered) × (is_some (owner (env.redis_now attempt) key w) ≡ true)
BusyThrough env key attempt (suc retries) w =
    (env.set_reply attempt ≡ answered)
    × (is_some (owner (env.redis_now attempt) key w) ≡ true)
    × BusyThrough env key (attempt + 1) retries (env.meanwhile attempt w)

-- How an acquisition may end, from a world, with an attempt and so many retries to go.
abbrev pub Ended : Env → ℕ → ℕ → ℕ → ℕ → World → Result Failure AcquiredLock × World → Type 0
Ended env key ttl attempt retries w (ok lock, w') = IsGranted env key ttl lock w'
Ended env key ttl attempt retries w (err e, w') =
    ((e ≡ domain DomainError.lock_not_acquired) × BusyThrough env key attempt retries w)
    ⊎ ((e ≡ plain) × LostReply env)

pub set_nx_by_owner :
    (now key mine ttl : ℕ) (w : World)
    → ((is_some (owner now key w) ≡ true) × (set_nx now key mine ttl w ≡ (false, w)))
      ⊎ ((is_some (owner now key w) ≡ false) × ((set_nx now key mine ttl w).0 ≡ true))
unfolding set_nx owner
set_nx_by_owner now key mine ttl w = ground arith

-- How one command comes back.
pub sent_cases :
    {A : Type 0} (reply : Reply) (f : World → A × World) (w : World)
    → ((reply ≡ answered) × (sent reply f w ≡ (ok (f w).0, (f w).1)))
      ⊎ ((reply ≢ answered) × (sent reply f w ≡ (err plain, (sent reply f w).1)))
unfolding sent
sent_cases answered f w = inl (refl, refl)
sent_cases unanswered f w = inr (λ h. cc, refl)
sent_cases unsent f w = inr (λ h. cc, refl)

abbrev pub lock_of : Env → ℕ → ℕ → ℕ → AcquiredLock
lock_of env key ttl fence = record {
  key = key;
  token = env.lock_token;
  fence = fence;
  ttl_ms = ttl;
}

module _ (env : Env) (key ttl attempt : ℕ) (w : World) where
  -- the world that the INCR meets
  abbrev pub met : World
  met = env.meanwhile (before_incr attempt) w

  pub granted-answered :
      env.incr_reply attempt ≡ answered
      → granted env key ttl attempt w
        ≡ (ok (lock_of env key ttl (met.fences key + 1)), (next_fence key met).1)
  unfolding granted pause sent next_fence pure
  granted-answered heard =
      >>=-ok _ _ w met tt refl
      ∙ >>=-ok _ _ met (next_fence key met).1 (met.fences key + 1) (rw heard refl)

  pub granted-lost :
      env.incr_reply attempt ≢ answered → (granted env key ttl attempt w).0 ≡ err plain
  unfolding granted pause
  granted-lost lost = elim (sent_cases (env.incr_reply attempt) (next_fence key) met) [
    | inl (heard, run) ↦ absurd (lost heard)
    | inr (_, run) ↦ ap (λ r. r.0) (>>=-ok _ _ w met tt refl ∙ >>=-err _ _ met _ plain run)
  ]

  abbrev pub after_set : World
  after_set = (set_nx (env.redis_now attempt) key env.lock_token ttl w).1

  -- How the SET of a try comes back.
  pub try_set_cases :
      ((env.set_reply attempt ≢ answered)
        × (try_set env key ttl attempt w ≡ (err plain, (try_set env key ttl attempt w).1)))
      ⊎ (((set_nx (env.redis_now attempt) key env.lock_token ttl w).0 ≡ true)
          × (try_set env key ttl attempt w ≡ (ok true, after_set)))
      ⊎ ((env.set_reply attempt ≡ answered)
          × (is_some (owner (env.redis_now attempt) key w) ≡ true)
          × (try_set env key ttl attempt w ≡ (ok false, w)))
  unfolding try_set
  try_set_cases =
      let f = set_nx (env.redis_now attempt) key env.lock_token ttl in
      elim (sent_cases (env.set_reply attempt) f w) [
        | inr (lost, run) ↦ inl (lost, run)
        | inl (heard, run) ↦
            elim (set_nx_by_owner (env.redis_now attempt) key env.lock_token ttl w) [
              | inl (busy, refused) ↦ inr (inr (heard, busy, rw refused at run))
              | inr (free, took) ↦ inr (inl (took, run ∙ rw took refl))
            ]
      ]
