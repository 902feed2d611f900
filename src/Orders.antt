-- ===== src/Orders.antt =====
-- The orders module: src/modules/orders.
pub mod Status
pub mod Access
pub mod Checkout
pub mod Cancel
pub mod Transition
pub mod RoundTrip
pub mod History
