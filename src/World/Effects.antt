-- ===== src/World/Effects.antt =====
-- The monad of the services' methods, and what runs under it: `DatabaseService.query` and
-- `transaction` (backend/src/infrastructure/database/database.service.ts), `queue.add`, `publish`.
use last_chance_platform.Prelude.{ℕ, Bool, ◌∷◌, if◌then◌else◌}
use last_chance_platform.Prelude.Result.{Result, ok, err}
use last_chance_platform.Prelude.Action.{Action}
use last_chance_platform.Errors.{SqlState, Failure, pg, plain, map_pg_error}
use last_chance_platform.World.Store.{Db, Job, PlatformEvent, World}

abbrev pub M : Type 0 → Type 0
M A = Action World Failure A

-- What becomes of a command to Redis: it runs and the answer comes back; or the call throws, with
-- the command run or not.
pub data Reply : Type 0 where
  answered unanswered unsent : Reply

-- What a call meets that its code does not decide: the clock of the process and that of Redis
-- (each reading has its number), the clock of the database, the id of a new row and of a new group of
-- ledger entries, a lock's token, what becomes of the commands of a lock (SET and INCR by the number
-- of the try, and the release),
-- whether Redis takes a job, and what the other requests and workers do to the world at the call's
-- awaits (each await has its number).
pub record Env : Type 0 where
  pub now : ℕ → ℕ
  pub redis_now : ℕ → ℕ
  pub db_now : ℕ
  pub new_id : ℕ
  pub new_group : ℕ
  pub lock_token : ℕ
  pub set_reply : ℕ → Reply
  pub incr_reply : ℕ → Reply
  pub release_reply : Reply
  pub queue_up : Bool
  pub meanwhile : ℕ → World → World

-- A statement: it fails and changes nothing, or it gives its rows and the new tables.
abbrev pub Statement : Type 0 → Type 0
Statement A = Db → Result SqlState (A × Db)

-- `client.query` inside a transaction
unfoldable pub exec : {A : Type 0} → Statement A → M A
exec s w = elim (s w.db) [ ok (a, d) ↦ (ok a, record w { db = d }) | err e ↦ (err (pg e), w) ]

-- `DatabaseService.query`
unfoldable pub query : {A : Type 0} → Statement A → M A
query s w = elim (s w.db) [
  | ok (a, d) ↦ (ok a, record w { db = d })
  | err e ↦ (err (map_pg_error (pg e)), w)
]

-- `DatabaseService.transaction`: a throw rolls the tables back, and only the tables.
unfoldable pub transaction : {A : Type 0} → M A → M A
transaction m w =
    let (r, w') = m w in
    elim r [ ok a ↦ (ok a, w') | err e ↦ (err (map_pg_error e), record w' { db = w.db }) ]

-- The rows of a SELECT.
unfoldable pub select : {A : Type 0} → (Db → A) → M A
select f w = (ok (f w.db), w)

-- An await at which others may run.
unfoldable pub pause : Env → ℕ → M (Unit {0})
pause env k w = (ok tt, env.meanwhile k w)

-- `await queue.add(…)`
unfoldable pub add_job : Env → Job → M (Unit {0})
add_job env j w = if env.queue_up then (ok tt, record w { jobs = j ∷ w.jobs }) else (err plain, w)

-- `events.publish(…)`: fire and forget.
unfoldable pub publish : PlatformEvent → M (Unit {0})
publish e w = (ok tt, record w { events = e ∷ w.events })

-- `try { … } catch { }` round a call whose value is not used
unfoldable pub attempt : M (Unit {0}) → M (Unit {0})
attempt m w = (ok tt, (m w).1)

-- `try { … } catch (err) { … }`: the handler decides, and sees what was written before the throw.
unfoldable pub recover : {A : Type 0} → M A → (Failure → M A) → M A
recover m handler w = let (r, w') = m w in elim r [ ok a ↦ (ok a, w') | err e ↦ handler e w' ]
