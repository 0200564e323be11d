-- ===== src/Domain.antt =====
-- The vocabulary of the platform, one module for each part; the rows of its tables.
pub mod Booking
pub mod Inventory
pub mod Payment
pub mod Deal
pub mod Auth
pub mod Moderation
