-- ===== src/Examples/Codecs.antt =====
-- Decoders that know stored data only, and payloads that they read.
use sekai.Base.{
  ℕ, ◌+◌, ◌^◌, ◌<◌, ◌≤◌, ◌≡◌, refl, Option, none, some, All, List, [], ◌∷◌, length, arith,
  if◌then◌else◌, leb,
}
use sekai.Base.Outcome.{Result, ok, err}
use sekai.Anvil.Error.{AnvilError}
use sekai.Anvil.Codec.{Compression, lz4, decompress_into}
use sekai.Anvil.Codec.Libraries.{Decoders, DecoderLaws, has_more, other, max_decompressed}
use sekai.Anvil.Codec.Limit.{decompress_into-bounds}
use sekai.Anvil.Codec.Blocks.{Block, IsBlock, framed, joined}
use sekai.Anvil.Codec.Frames.{decompress_into-framed}

-- an LZ4 block of one sequence, which has literals only
abbrev literals : List ℕ → ℕ → Option (List ℕ)
literals [] len = none
literals (token ∷ bytes) len = some bytes

abbrev stored : Decoders (Unit {0})
stored = record {
  fresh = tt;
  inflate = λ i input out window. record { state = tt; status = other; consumed = 0; written = [] };
  inflate_zlib = λ body limit. if leb (length body) limit then ok body else err has_more;
  lz4_block = literals;
  crc32 = λ bytes. 0;
  xxh32 = λ bytes. length bytes + 7;
}

stored_zlib :
    (body : List ℕ) (limit : ℕ) (out : List ℕ)
    → stored.inflate_zlib body limit ≡ ok out
    → length out ≤ limit
stored_zlib body limit out h = ground arith

stored-DecoderLaws : DecoderLaws stored
stored-DecoderLaws = record {
  zlib-limit = λ body limit h. stored_zlib body limit _ h;
  inflate-window = λ i input out window. omega arith;
  inflate-full = λ i input out window h. absurd (cc h);
}

-- A payload of the zlib type.
decompress_into-bounds_example :
    (out : List ℕ) × (r : Result Compression AnvilError) × (decompress_into stored (2 ∷ 10 ∷ 0 ∷ [])
      ≡ some (out, r))
    × (length out ≤ max_decompressed)
decompress_into-bounds_example = decompress_into-bounds stored stored-DecoderLaws (2 ∷ 10 ∷ 0 ∷ [])

abbrev blocks : List Block
blocks =
    record { level = 6; packed = none; content = 10 ∷ 0 ∷ 0 ∷ [] }
    ∷ record { level = 0; packed = some (0x20 ∷ 7 ∷ 8 ∷ []); content = 7 ∷ 8 ∷ [] }
    ∷ record { level = 15; packed = none; content = 9 ∷ [] }
    ∷ []

blocks-IsBlock : All (IsBlock stored) blocks
blocks-IsBlock = (
  record { level_small = omega arith; full = omega arith; fits = omega arith; unpacks = tt },
  (
    record {
      level_small = omega arith;
      full = omega arith;
      fits = omega arith;
      unpacks = (omega arith, omega arith, refl);
    },
    (
      record { level_small = omega arith; full = omega arith; fits = omega arith; unpacks = tt },
      tt,
    ),
  ),
)

blocks_small : length (framed stored 6 blocks) < 2 ^ 63
unfolding framed
blocks_small = omega arith

blocks_fit : length (joined blocks) ≤ max_decompressed
unfolding joined
blocks_fit = omega arith

-- A stream of a raw block, a compressed one and a raw one of another level.
decompress_into-framed_example :
    decompress_into stored (4 ∷ framed stored 6 blocks) ≡ some (joined blocks, ok lz4)
decompress_into-framed_example =
    decompress_into-framed stored 6 blocks (omega arith) blocks-IsBlock blocks_small blocks_fit
