-- ===== src/Order.antt =====
-- The order service: apps/api/src/orders/order.service.ts.
pub mod Input
pub mod Store
pub mod Submit
pub mod Confirm
pub mod Work
pub mod Tax
pub mod Ship
pub mod Cancel
pub mod Delivery
pub mod Api
pub mod Frame
pub mod Transitions
pub mod Claims
pub mod Sums
pub mod Taxed
pub mod Examples
