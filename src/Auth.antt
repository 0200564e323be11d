-- ===== src/Auth.antt =====
-- Who may call: backend/src/modules/auth and backend/src/common/auth.
pub mod RateLimit
pub mod Otp
pub mod Phone
pub mod Accounts
pub mod Service
pub mod Guards
mod Tests
