-- ===== src/Anvil/Error.antt =====
-- crates/anvil/src/error.rs: the errors of reading and rebuilding an image, and of decompression.
use sekai.Base.{ℕ}
use sekai.Base.Int.{ℤ}

pub data AnvilError : Type 0 where
  coordinate_overflow : ℤ → ℤ → AnvilError
  truncated_file : ℕ → AnvilError
  corrupt_entry : ℕ → ℕ → ℕ → AnvilError
  corrupt_chunk : ℕ → ℕ → AnvilError
  empty_payload : AnvilError
  chunk_too_large : ℕ → AnvilError
  image_too_large : ℕ → AnvilError
  wrong_region : ℤ → ℤ → ℤ → ℤ → AnvilError
  unknown_compression : ℕ → AnvilError
  custom_compression : AnvilError
  external_body : ℕ → AnvilError
  gzip zlib lz4 output_too_large : AnvilError
