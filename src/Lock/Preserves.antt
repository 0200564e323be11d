-- ===== src/Lock/Preserves.antt =====
-- The lock touches no table: what holds of the tables before `withLock` holds after it, if the
-- section under the lock and the other processes keep it.
use last_chance_platform.Prelude.{ℕ, zero, suc, ◌+◌, ◌≡◌, refl, arith}
use last_chance_platform.World.Store.{Db, World}
use last_chance_platform.World.Effects.{M, Reply, answered, unanswered, unsent, Env}
use last_chance_platform.World.Keeps.{
  Preserves, EnvPreserves, Preserves-bind, Preserves-pause, Preserves-pure, Preserves-throw,
  Preserves-if,
}
use last_chance_platform.Lock.{
  AcquiredLock, set_nx, next_fence, sent, before_incr, granted, try_set, acquire_from, acquire,
  release, run_locked, with_lock,
}

set_nx-db : (now key token ttl : ℕ) (w : World) → (set_nx now key token ttl w).1.db ≡ w.db
unfolding set_nx
set_nx-db now key token ttl w = ground arith

next_fence-db : (key : ℕ) (w : World) → (next_fence key w).1.db ≡ w.db
unfolding next_fence
next_fence-db key w = refl

release-db : (now : ℕ) (lock : AcquiredLock) (w : World) → (release now lock w).db ≡ w.db
unfolding release
release-db now lock w = ground arith

module _ {A : Type 0} {P : Db → Type 0} where
  sent-Preserves :
      (reply : Reply) (f : World → A × World)
      → ((w : World) → (f w).1.db ≡ w.db)
      → Preserves P (sent reply f)
  unfolding sent
  sent-Preserves answered f same = record { after = λ w h. rw (same w) h }
  sent-Preserves unanswered f same = record { after = λ w h. rw (same w) h }
  sent-Preserves unsent f same = record { after = λ w h. h }

module _ {P : Db → Type 0} (env : Env) (others : EnvPreserves P env) where
  granted-Preserves : (key ttl attempt : ℕ) → Preserves P (granted env key ttl attempt)
  unfolding granted
  granted-Preserves key ttl attempt =
      Preserves-bind _ _ (Preserves-pause env (before_incr attempt) others) (λ _.
        Preserves-bind _ _
          (sent-Preserves (env.incr_reply attempt) (next_fence key) (next_fence-db key))
          (λ fence. Preserves-pure _))

  try_set-Preserves : (key ttl attempt : ℕ) → Preserves P (try_set env key ttl attempt)
  unfolding try_set
  try_set-Preserves key ttl attempt =
      sent-Preserves (env.set_reply attempt) _
        (set_nx-db (env.redis_now attempt) key env.lock_token ttl)

  acquire_from-Preserves :
      (key ttl attempt retries : ℕ) → Preserves P (acquire_from env key ttl attempt retries)
  unfolding acquire_from
  acquire_from-Preserves key ttl attempt zero =
      Preserves-bind _ _ (try_set-Preserves key ttl attempt)
        (λ took. Preserves-if took _ _ (granted-Preserves key ttl attempt) (Preserves-throw _))
  acquire_from-Preserves key ttl attempt (suc retries) =
      let later = acquire_from-Preserves key ttl (attempt + 1) retries in
      Preserves-bind _ _ (try_set-Preserves key ttl attempt) (λ took.
        Preserves-if took _ _ (granted-Preserves key ttl attempt)
          (Preserves-bind _ _ (Preserves-pause env attempt others) (λ _. later)))

  pub acquire-Preserves : (key ttl retries : ℕ) → Preserves P (acquire env key ttl retries)
  unfolding acquire
  acquire-Preserves key ttl retries = acquire_from-Preserves key ttl 0 retries

module _ {A : Type 0} {P : Db → Type 0} where
  run_locked-Preserves :
      (reply : Reply) (now : ℕ) (fn : AcquiredLock → M A) (lock : AcquiredLock)
      → Preserves P (fn lock)
      → Preserves P (run_locked reply now fn lock)
  unfolding run_locked
  run_locked-Preserves reply now fn lock kept = record {
    after = λ w h.
        (sent-Preserves {P = P} reply (λ v. (tt, release now lock v)) (release-db now lock)).after
          (fn lock w).1 (kept.after w h);
  }

  pub with_lock-Preserves :
      (env : Env) (key ttl release_at : ℕ) (fn : AcquiredLock → M A)
      → EnvPreserves P env
      → ((lock : AcquiredLock) → Preserves P (fn lock))
      → Preserves P (with_lock env key ttl release_at fn)
  unfolding with_lock
  with_lock-Preserves env key ttl release_at fn others kept =
      let now = env.redis_now release_at in
      Preserves-bind (acquire env key ttl 8) (run_locked env.release_reply now fn)
        (acquire-Preserves env others key ttl 8)
        (λ lock. run_locked-Preserves env.release_reply now fn lock (kept lock))
