-- ===== src/Booking.antt =====
-- The booking module of the backend (backend/src/modules/booking).
pub mod Pricing
pub mod Lifecycle
pub mod Table
pub mod Repository
pub mod Service
pub mod Sweep
