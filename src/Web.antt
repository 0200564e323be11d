-- ===== src/Web.antt =====
-- The web application under web/.
pub mod Middleware
mod Tests
