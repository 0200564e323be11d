-- ===== src/Payment.antt =====
-- The payments: ledger, statements, providers, webhooks, refunds and payouts.
pub mod Ledger
pub mod Repository
pub mod Inbox
pub mod Provider
pub mod Webhook
pub mod Payout
pub mod Admin
pub mod Initiate
pub mod Escrow
pub mod History
mod Tests
