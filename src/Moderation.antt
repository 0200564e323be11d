-- ===== src/Moderation.antt =====
-- The approval of listings (backend/src/modules/moderation).
pub mod Lifecycle
pub mod Repository
pub mod Notify
pub mod Service
pub mod Log
pub mod Gate
mod Tests
