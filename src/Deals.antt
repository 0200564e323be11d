-- ===== src/Deals.antt =====
-- The flash deals: statements and service.
pub mod Repository
pub mod Service
mod Tests
