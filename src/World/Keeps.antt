-- ===== src/World/Keeps.antt =====
-- What every run of a method leaves true of the tables, whether it returns or throws: a rule for
-- each form that the methods are written in.
use last_chance_platform.Prelude.{
  ℕ, Bool, true, false, ◌≡◌, refl, Option, none, some, if◌then◌else◌,
}
use last_chance_platform.Prelude.Result.{Result, ok, err}
use last_chance_platform.Prelude.Action.{pure, throw, throw_if, or_throw, lift, continue, ◌>>=◌}
use last_chance_platform.Errors.{SqlState, Failure}
use last_chance_platform.World.Store.{Db, Job, PlatformEvent, World}
use last_chance_platform.World.Effects.{
  M, Env, Statement, exec, query, transaction, select, pause, add_job, publish, attempt, recover,
}

pub record Preserves {A : Type 0} (P : Db → Type 0) (m : M A) : Type 0 where
  pub after : (w : World) → P w.db → P (m w).1.db

-- A statement that takes effect leaves `P` true.
pub record StatementPreserves {A : Type 0} (P : Db → Type 0) (s : Statement A) : Type 0 where
  pub after : (d : Db) {a : A} {d' : Db} → s d ≡ ok (a, d') → P d → P d'

-- So does whatever runs at the awaits of a call.
pub record EnvPreserves (P : Db → Type 0) (env : Env) : Type 0 where
  pub after : (k : ℕ) (w : World) → P w.db → P (env.meanwhile k w).db

module _ {A : Type 0} {P : Db → Type 0} where
  pub Preserves-pure : (a : A) → Preserves P (pure a)
  unfolding pure
  Preserves-pure a = record { after = λ w h. h }

  pub Preserves-throw : (e : Failure) → Preserves P (throw {A = A} e)
  unfolding throw
  Preserves-throw e = record { after = λ w h. h }

  pub Preserves-or_throw : (o : Option A) (e : Failure) → Preserves P (or_throw o e)
  unfolding or_throw
  Preserves-or_throw none e = record { after = λ w h. h }
  Preserves-or_throw (some a) e = record { after = λ w h. h }

  pub Preserves-lift : (r : Result Failure A) → Preserves P (lift r)
  unfolding lift
  Preserves-lift r = record { after = λ w h. h }

  pub Preserves-select : (f : Db → A) → Preserves P (select f)
  unfolding select
  Preserves-select f = record { after = λ w h. h }

  pub Preserves-if :
      (b : Bool) (m n : M A) → Preserves P m → Preserves P n → Preserves P (if b then m else n)
  Preserves-if true m n hm hn = hm
  Preserves-if false m n hm hn = hn

  pub Preserves-exec : (s : Statement A) → StatementPreserves P s → Preserves P (exec s)
  unfolding exec
  Preserves-exec s hs = record { after = λ w h. by_outcome w h (s w.db) refl }
    where
      by_outcome :
          (w : World) → P w.db → (r : Result SqlState (A × Db)) → s w.db ≡ r → P (exec s w).1.db
      by_outcome w h (ok (a, d)) e = rw (e, exec) (hs.after w.db e h)
      by_outcome w h (err x) e = rw (e, exec) h

  pub Preserves-query : (s : Statement A) → StatementPreserves P s → Preserves P (query s)
  unfolding query
  Preserves-query s hs = record { after = λ w h. by_outcome w h (s w.db) refl }
    where
      by_outcome :
          (w : World) → P w.db → (r : Result SqlState (A × Db)) → s w.db ≡ r → P (query s w).1.db
      by_outcome w h (ok (a, d)) e = rw (e, query) (hs.after w.db e h)
      by_outcome w h (err x) e = rw (e, query) h

  pub Preserves-transaction : (m : M A) → Preserves P m → Preserves P (transaction m)
  unfolding transaction
  Preserves-transaction m hm = record { after = λ w h. by_outcome w h (m w).0 refl }
    where
      by_outcome :
          (w : World) → P w.db → (r : Result Failure A) → (m w).0 ≡ r → P (transaction m w).1.db
      by_outcome w h (ok a) e = rw (e, transaction) (hm.after w h)
      by_outcome w h (err x) e = rw (e, transaction) h

module _ {A B : Type 0} {P : Db → Type 0} where
  pub Preserves-bind :
      (m : M A) (f : A → M B)
      → Preserves P m
      → ((a : A) → Preserves P (f a))
      → Preserves P (m >>= f)
  unfolding ◌>>=◌
  Preserves-bind m f hm hf = record {
    after = λ w h. let (r, w') = m w in by_outcome r w' (hm.after w h);
  }
    where
      by_outcome : (r : Result Failure A) (w' : World) → P w'.db → P (continue r f w').1.db
      by_outcome (ok a) w' h' = (hf a).after w' h'
      by_outcome (err e) w' h' = h'

module _ {P : Db → Type 0} where
  pub Preserves-throw_if : (c : Bool) (e : Failure) → Preserves P (throw_if c e)
  unfolding throw_if
  Preserves-throw_if true e = record { after = λ w h. h }
  Preserves-throw_if false e = record { after = λ w h. h }

  pub Preserves-pause : (env : Env) (k : ℕ) → EnvPreserves P env → Preserves P (pause env k)
  unfolding pause
  Preserves-pause env k he = record { after = he.after k }

  pub Preserves-add_job : (env : Env) (j : Job) → Preserves P (add_job env j)
  unfolding add_job
  Preserves-add_job env j = record { after = λ w h. by_queue env.queue_up w h }
    where
      by_queue :
          (b : Bool) (w : World) → P w.db → P (add_job (record env { queue_up = b }) j w).1.db
      by_queue true w h = h
      by_queue false w h = h

  pub Preserves-publish : (e : PlatformEvent) → Preserves P (publish e)
  unfolding publish
  Preserves-publish e = record { after = λ w h. h }

  pub Preserves-attempt : (m : M (Unit {0})) → Preserves P m → Preserves P (attempt m)
  unfolding attempt
  Preserves-attempt m hm = record { after = hm.after }

module _ {A : Type 0} {P : Db → Type 0} where
  pub Preserves-recover :
      (m : M A) (handler : Failure → M A)
      → Preserves P m
      → ((e : Failure) → Preserves P (handler e))
      → Preserves P (recover m handler)
  unfolding recover
  Preserves-recover m handler hm hh = record { after = λ w h. by_outcome w h (m w).0 refl }
    where
      by_outcome :
          (w : World) → P w.db → (r : Result Failure A) → (m w).0 ≡ r → P (recover m handler w).1.db
      by_outcome w h (ok a) e = rw (e, recover) (hm.after w h)
      by_outcome w h (err x) e = rw (e, recover) ((hh x).after (m w).1 (hm.after w h))

pub ruleset preserves_rules = (
  Preserves-pure, Preserves-throw, Preserves-or_throw, Preserves-lift, Preserves-select,
  Preserves-if, Preserves-exec, Preserves-query, Preserves-transaction, Preserves-bind,
  Preserves-throw_if, Preserves-pause, Preserves-add_job, Preserves-publish, Preserves-attempt,
  Preserves-recover,
)
