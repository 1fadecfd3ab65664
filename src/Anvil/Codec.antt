-- ===== src/Anvil/Codec.antt =====
-- crates/anvil/src/codec.rs: the compression framing of a chunk payload. The libraries for deflate,
-- LZ4 blocks and checksums are the parameter `Decoders`; `usize` is taken to have 64 bits.
pub mod Libraries
pub mod Gzip
pub mod Lz4
pub mod Bounds
pub mod Limit
pub mod Blocks
pub mod Frames
use sekai.Base.{
  ℕ, ◌+◌, ◌^◌, Bool, true, false, Option, none, some, List, [], ◌∷◌, length, if◌then◌else◌, ltb,
  leb, nat_beq,
}
use sekai.Base.Outcome.{Result, ok, err, refuse, map_err, ◌>>=◌, ◌>>◌}
use sekai.Anvil.Error.{
  AnvilError, empty_payload, unknown_compression, custom_compression, external_body,
  output_too_large,
}
use sekai.Anvil.Codec.Gzip.{gunzip_capped}
use sekai.Anvil.Codec.Lz4.{unlz4}
use sekai.Anvil.Codec.Libraries.{Decoders, ZlibFailure, has_more, broken, max_decompressed}

pub data Compression : Type 0 where
  gzip zlib raw lz4 : Compression

unfoldable pub compression_of : ℕ → Result Compression AnvilError
compression_of byte =
    if nat_beq byte 1
    then ok Compression.gzip
    else if nat_beq byte 2
    then ok Compression.zlib
    else if nat_beq byte 3
    then ok raw
    else if nat_beq byte 4
    then ok lz4
    else if nat_beq byte 127
    then err custom_compression
    else if leb 128 byte
    then err (external_body byte)
    else err (unknown_compression byte)

-- the fuel of the two loops: a round of `inflate_raw_exact` fills 64 KiB of the 64 MiB, and a block
-- of LZ4 takes more than a byte of the body
abbrev pub inflate_fuel : ℕ
inflate_fuel = 1025

module _ {I : Type 0} (d : Decoders I) where
  unfoldable pub inflate_zlib_capped : List ℕ → Result (List ℕ) AnvilError
  inflate_zlib_capped body = elim (d.inflate_zlib body max_decompressed) [
    | ok out ↦ ok out
    | err has_more ↦ err output_too_large
    | err broken ↦ err AnvilError.zlib
  ]

  -- the `match` of `decompress_into`: the output and its outcome
  unfoldable pub decode : Compression → List ℕ → Option (List ℕ × Result (Unit {0}) AnvilError)
  unfolding inflate_zlib_capped gunzip_capped unlz4
  decode raw body =
      if ltb max_decompressed (length body)
      then some ([], err output_too_large)
      else some (body, ok tt)
  decode Compression.zlib body = elim (inflate_zlib_capped body) [
    | ok out ↦ some (out, ok tt)
    | err e ↦ some ([], err e)
  ]
  decode Compression.gzip body = elim (gunzip_capped d inflate_fuel body) [
    | none ↦ none
    | some (ok out) ↦ some (out, ok tt)
    | some (err e) ↦ some ([], err e)
  ]
  decode lz4 body = unlz4 d (length body + 1) body

  -- `decompress_into`: the content of `out` and the result; none: out of fuel
  unfoldable pub decompress_into : List ℕ → Option (List ℕ × Result Compression AnvilError)
  unfolding compression_of decode
  decompress_into [] = some ([], err empty_payload)
  decompress_into (kind ∷ body) = elim (compression_of kind) [
    | err e ↦ some ([], err e)
    | ok codec ↦ elim (decode codec body) [
      | none ↦ none
      | some (out, ok _) ↦ some (out, ok codec)
      | some (out, err e) ↦ some (out, err e)
    ]
  ]
