-- ===== src/Scenarios.antt =====
-- Concrete states and the operations of src/modules on them.
mod Data
mod Checkouts
mod Cancellations
mod Payments
mod Shop
mod Viewed
mod Retries
mod Providers
mod Catalogue
mod Accounts
mod Searches
