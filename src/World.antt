-- ===== src/World.antt =====
-- The state that the backend's services share: the tables of PostgreSQL, the jobs and events sent
-- to Redis, the per-unit locks; the monad of their methods, and `DatabaseService`
-- (backend/src/infrastructure/database/database.service.ts).
pub mod Store
pub mod Effects
pub mod Keeps
pub mod Redis
pub mod Steps
