-- ===== src/Lock/Fences.antt =====
-- The order of the fences: SET and INCR are two commands, and others may run between them.
use last_chance_platform.Prelude.{
  ℕ, zero, suc, ◌+◌, ◌≤◌, ◌<◌, ◌≡◌, ◌∙◌, refl, some, is_some, arith, inl, inr, true, false, ap,
}
use native.Mathlib.Nat.{le_trans, le_refl}
use last_chance_platform.Prelude.Result.{Result, ok, err}
use last_chance_platform.Prelude.Action.{throw}
use last_chance_platform.Errors.{Failure, plain}
use last_chance_platform.World.Store.{World}
use last_chance_platform.World.Effects.{answered, Env, pause}
use last_chance_platform.World.Steps.{>>=-ok, >>=-err}
use last_chance_platform.Lock.{
  AcquiredLock, set_nx, next_fence, sent, granted, before_incr, try_set, acquire_from, acquire,
}
use last_chance_platform.Lock.Exclusion.{owner, set_nx-owner, set_nx-ended}
use last_chance_platform.Lock.Acquire.{
  lock_of, after_set, granted-answered, granted-lost, sent_cases, try_set_cases, set_nx_by_owner,
}

-- No process turns the counter back.
abbrev pub FencesGrow : Env → ℕ → Type 0
FencesGrow env key = (k : ℕ) (w : World) → w.fences key ≤ (env.meanwhile k w).fences key

abbrev Fenced : ℕ → ℕ → Result Failure AcquiredLock × World → Type 0
Fenced key before (ok lock, w) = (before < lock.fence) × (lock.fence ≡ w.fences key)
Fenced key before (err _, w) = Unit

failed-Fenced :
    (key before : ℕ) (r : Result Failure AcquiredLock × World)
    → r.0 ≡ err plain
    → Fenced key before r
failed-Fenced key before (ok lock, w) h = absurd (cc)
failed-Fenced key before (err e, w) h = tt

set_nx-fences :
    (now key token ttl : ℕ) (w : World) → (set_nx now key token ttl w).1.fences ≡ w.fences
unfolding set_nx
set_nx-fences now key token ttl w = ground arith

module _ (env : Env) (key ttl before : ℕ) (grow : FencesGrow env key) where
  granted-Fenced :
      (attempt : ℕ) (w : World)
      → before ≤ w.fences key
      → Fenced key before (granted env key ttl attempt w)
  granted-Fenced attempt w h =
      let kept = le_trans h (grow (before_incr attempt) w) in
      elim (sent_cases (env.incr_reply attempt) (next_fence key) w) [
        | inl (heard, _) ↦
            rw (granted-answered env key ttl attempt w heard) (unfold next_fence in ground arith)
        | inr (lost, _) ↦
            failed-Fenced key before (granted env key ttl attempt w)
              (granted-lost env key ttl attempt w lost)
      ]

  taken-Fenced :
      (attempt : ℕ) (w : World)
      → before ≤ w.fences key
      → Fenced key before (granted env key ttl attempt (after_set env key ttl attempt w))
  taken-Fenced attempt w h =
      granted-Fenced attempt (after_set env key ttl attempt w)
        (rw (set_nx-fences (env.redis_now attempt) key env.lock_token ttl w) h)

  acquire_from-Fenced :
      (attempt retries : ℕ) (w : World)
      → before ≤ w.fences key
      → Fenced key before (acquire_from env key ttl attempt retries w)
  unfolding acquire_from throw pause
  acquire_from-Fenced attempt zero w h = elim (try_set_cases env key ttl attempt w) [
    | inl (lost, run) ↦ rw (>>=-err _ _ w _ plain run) tt
    | inr (inl (took, run)) ↦
        rw (>>=-ok _ _ w (after_set env key ttl attempt w) true run) (taken-Fenced attempt w h)
    | inr (inr (heard, busy, run)) ↦ rw (>>=-ok _ _ w w false run) tt
  ]
  acquire_from-Fenced attempt (suc retries) w h =
      let rest =
        acquire_from-Fenced (attempt + 1) retries (env.meanwhile attempt w)
          (le_trans h (grow attempt w)) in
      let next =
        >>=-ok (pause env attempt) (λ _. acquire_from env key ttl (attempt + 1) retries) w
          (env.meanwhile attempt w) tt refl in
      elim (try_set_cases env key ttl attempt w) [
        | inl (lost, run) ↦ rw (>>=-err _ _ w _ plain run) tt
        | inr (inl (took, run)) ↦
            rw (>>=-ok _ _ w (after_set env key ttl attempt w) true run) (taken-Fenced attempt w h)
        | inr (inr (heard, busy, run)) ↦ rw (>>=-ok _ _ w w false run, next) rest
      ]

-- When one acquisition of a key has returned before another begins, the second has the larger
-- fence, whatever ran between and during the two, provided that it never turns the key's counter
-- back.
pub acquire_fences_rise :
    (env env' : Env) (key ttl ttl' retries retries' : ℕ) (between : World → World)
    (w w' w'' : World) (first second : AcquiredLock)
    → FencesGrow env key
    → FencesGrow env' key
    → ((v : World) → v.fences key ≤ (between v).fences key)
    → acquire env key ttl retries w ≡ (ok first, w')
    → acquire env' key ttl' retries' (between w') ≡ (ok second, w'')
    → first.fence < second.fence
unfolding acquire
acquire_fences_rise env env' key ttl ttl' retries retries' between w w' w'' first second grow grow'
      kept e e' =
    let one =
      rw e at (acquire_from-Fenced env key ttl (w.fences key) grow 0 retries w (le_refl _)) in
    let two =
      rw e' at (
        acquire_from-Fenced env' key ttl' (w'.fences key) grow' 0 retries' (between w')
          (kept w')) in
    omega arith

module _ (env : Env) (key ttl : ℕ) (w : World) (set_heard : env.set_reply 0 ≡ answered)
    (free : is_some (owner (env.redis_now 0) key w) ≡ false) where
  took_free : (set_nx (env.redis_now 0) key env.lock_token ttl w).0 ≡ true
  took_free = elim (set_nx_by_owner (env.redis_now 0) key env.lock_token ttl w) [
    | inl (busy, _) ↦ absurd (ground arith)
    | inr (_, took) ↦ took
  ]

  set-took : try_set env key ttl 0 w ≡ (ok true, after_set env key ttl 0 w)
  unfolding try_set sent
  set-took = rw (set_heard, took_free) refl

  -- The first try finds the key free.
  acquire-granted :
      (retries : ℕ)
      → acquire env key ttl retries w ≡ granted env key ttl 0 (after_set env key ttl 0 w)
  unfolding acquire acquire_from
  acquire-granted zero = >>=-ok _ _ w (after_set env key ttl 0 w) true set-took
  acquire-granted (suc retries) = >>=-ok _ _ w (after_set env key ttl 0 w) true set-took

-- An acquisition finds the key free, and waits between its SET and its INCR until the key has
-- ended; another acquires the key meanwhile, nobody else runs, and Redis answers both. Then both
-- return a lock, the key carries the token of the other until the end that the other set, and the
-- lock of the first, which owns nothing, has the larger fence.
pub late_incr_overtakes :
    (env env' : Env) (key ttl ttl' retries retries' later : ℕ) (w : World)
    → (env.set_reply 0 ≡ answered) × (env.incr_reply 0 ≡ answered)
    → (env'.set_reply 0 ≡ answered) × (env'.incr_reply 0 ≡ answered)
    → is_some (owner (env.redis_now 0) key w) ≡ false
    → env.redis_now 0 + ttl < env'.redis_now 0
    → env.meanwhile (before_incr 0) ≡ (λ v. (acquire env' key ttl' retries' v).1)
    → env'.meanwhile (before_incr 0) ≡ (λ v. v)
    → later ≤ env'.redis_now 0 + ttl'
    → (first : AcquiredLock) × (second : AcquiredLock) × ((acquire env key ttl retries w).0
        ≡ ok first)
      × ((acquire env' key ttl' retries' (after_set env key ttl 0 w)).0 ≡ ok second)
      × (owner later key (acquire env key ttl retries w).1 ≡ some env'.lock_token)
      × (second.fence < first.fence)
unfolding next_fence owner
late_incr_overtakes env env' key ttl ttl' retries retries' later w heard heard' free ended other
      alone soon =
    let now = env.redis_now 0 in
    let now' = env'.redis_now 0 in
    let took = took_free env key ttl w heard.0 free in
    let w1 = after_set env key ttl 0 w in
    let gone = set_nx-ended now now' key env.lock_token ttl w took ended in
    let free' : is_some (owner now' key w1) ≡ false = rw gone refl in
    let took' = took_free env' key ttl' w1 heard'.0 free' in
    let w2 = after_set env' key ttl' 0 w1 in
    let two = rw alone at (
      acquire-granted env' key ttl' w1 heard'.0 free' retries'
      ∙ granted-answered env' key ttl' 0 w2 heard'.1) in
    let one =
      rw (other, two) at
        (acquire-granted env key ttl w heard.0 free retries
          ∙ granted-answered env key ttl 0 w1 heard.1) in
    (
      lock_of env key ttl ((next_fence key w2).1.fences key + 1),
      lock_of env' key ttl' (w2.fences key + 1),
      ap (λ r. r.0) one,
      ap (λ r. r.0) two,
      rw one (set_nx-owner now' later key env'.lock_token ttl' w1 took' soon),
      ground arith,
    )
