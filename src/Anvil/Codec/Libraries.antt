-- ===== src/Anvil/Codec/Libraries.antt =====
-- The libraries that crates/anvil/src/codec.rs calls: miniz_oxide, lz4_flex, crc32fast, twox_hash.
use sekai.Base.{ℕ, ◌≤◌, ◌≡◌, ◌^◌, Option, List, length}
use sekai.Base.Outcome.{Result, ok}

-- `TINFLStatus`, as far as the code tells the cases apart
pub data Status : Type 0 where
  done has_more_output other : Status

-- `DecompressError`: the output limit was met, or anything else
pub data ZlibFailure : Type 0 where
  has_more broken : ZlibFailure

-- what a call of `decompress` says: the status, the input consumed and the output written
pub record Inflated (I : Type 0) : Type 0 where
  pub state : I
  pub status : Status
  pub consumed : ℕ
  pub written : List ℕ

pub record Decoders (I : Type 0) : Type 0 where
  -- `DecompressorOxide::default()`
  pub fresh : I
  -- `decompress`, of an input, into a window behind the output so far
  pub inflate : I → List ℕ → List ℕ → ℕ → Inflated I
  -- `decompress_to_vec_zlib_with_limit`
  pub inflate_zlib : List ℕ → ℕ → Result (List ℕ) ZlibFailure
  -- `decompress_into` of a block, into a buffer of a length
  pub lz4_block : List ℕ → ℕ → Option (List ℕ)
  -- `crc32fast::Hasher`
  pub crc32 : List ℕ → ℕ
  -- `XxHash32` with the seed of the format
  pub xxh32 : List ℕ → ℕ

-- What the libraries document: output stays within its limit or window, and more output is only
-- asked for when the window is full.
pub record DecoderLaws {I : Type 0} (d : Decoders I) : Type 0 where
  pub zlib-limit :
      (body : List ℕ) (limit : ℕ) {out : List ℕ}
      → d.inflate_zlib body limit ≡ ok out
      → length out ≤ limit
  pub inflate-window :
      (i : I) (input out : List ℕ) (window : ℕ)
      → length (d.inflate i input out window).written ≤ window
  pub inflate-full :
      (i : I) (input out : List ℕ) (window : ℕ)
      → (d.inflate i input out window).status ≡ has_more_output
      → length (d.inflate i input out window).written ≡ window

-- `MAX_DECOMPRESSED`
abbrev pub max_decompressed : ℕ
max_decompressed = 2 ^ 26
