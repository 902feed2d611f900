-- ===== src/Payments.antt =====
-- The payments module: src/modules/payments.
pub mod Status
pub mod Providers
pub mod Gateway
pub mod Marks
pub mod Create
pub mod Confirm
pub mod Webhook
pub mod Advance
pub mod Life
pub mod Opening
pub mod History
pub mod Stuck
pub mod Twice
pub mod Captures
pub mod Failure
