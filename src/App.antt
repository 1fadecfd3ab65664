-- ===== src/App.antt =====
-- crates/app: the operations on a world and a store, above the use cases of crates/core.
pub mod World
pub mod Regions
pub mod Checkout
