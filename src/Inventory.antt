-- ===== src/Inventory.antt =====
-- The listings as guests see them: backend/src/modules/inventory.
pub mod MapSearch
mod Tests
