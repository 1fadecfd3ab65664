-- ===== src/Anvil.antt =====
-- crates/anvil: the sector codec of region files. `Error` models error.rs, `Region` region.rs,
-- `Reader` reader.rs and `Writer` writer.rs of crates/anvil/src.
pub mod Error
pub mod Region
pub mod Reader
pub mod Writer
pub mod Codec
pub mod RoundTrip
