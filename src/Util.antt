-- ===== src/Util.antt =====
-- crates/util: the values that the other crates share.
pub mod Coord
pub mod Scope
pub mod Hash
pub mod Hex
pub mod Commit
pub mod Name
pub mod NamedScope
