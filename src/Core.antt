-- ===== src/Core.antt =====
-- crates/core: the use cases over the two storage ports.
pub mod Port
pub mod Gc
pub mod Commit
pub mod Graph
pub mod Prune
pub mod Checkout
pub mod Identity
