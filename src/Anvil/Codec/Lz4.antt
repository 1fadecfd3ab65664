-- ===== src/Anvil/Codec/Lz4.antt =====
-- crates/anvil/src/codec.rs: `unlz4`, the framing of Java's `LZ4BlockOutputStream`.
use Prim.Native.Nat.{bit_and}
use sekai.Base.{
  ℕ, zero, suc, ◌+◌, ◌*◌, ◌%◌, ◌^◌, Bool, true, false, not, ◌&&◌, Option, none, some, List, [], ◌∷◌,
  ◌++◌, length, take, drop, if◌then◌else◌, ltb, nat_beq,
}
use sekai.Base.Outcome.{Result, ok, err, ok_or, refuse, ◌>>=◌, ◌>>◌}
use sekai.Base.Bytes.{get_range}
use sekai.Util.Hash.{bytes_beq}
use sekai.Anvil.Error.{AnvilError, lz4, output_too_large}
use sekai.Anvil.Codec.Libraries.{Decoders, max_decompressed}

-- `HEADER_LEN` and `MAGIC`, which is "LZ4Block"
abbrev pub lz4_header_len : ℕ
lz4_header_len = 21

abbrev pub magic : List ℕ
magic = 76 ∷ 90 ∷ 52 ∷ 66 ∷ 108 ∷ 111 ∷ 99 ∷ 107 ∷ []

-- `bytes[0]` of what follows, where there is any
abbrev pub first_byte : List ℕ → ℕ
first_byte [] = 0
first_byte (b ∷ _) = b

-- `u32::from_le_bytes`, of the first four bytes
unfoldable pub from_le_bytes : List ℕ → ℕ
from_le_bytes (a ∷ b ∷ c ∷ d ∷ _) = a + b * 2 ^ 8 + c * 2 ^ 16 + d * 2 ^ 24
from_le_bytes _ = 0

-- `1usize.checked_shl(n)`
abbrev pub checked_shl : ℕ → Option ℕ
checked_shl n = if ltb n 64 then some (2 ^ n) else none

abbrev pub checked_usize : ℕ → Option ℕ
checked_usize n = if ltb n (2 ^ 64) then some n else none

abbrev pub differs : Bool → Bool → Bool
differs true b = not b
differs false b = b

pub record Lz4Header : Type 0 where
  pub raw : Bool
  pub compressed_len : ℕ
  pub decompressed_len : ℕ
  pub checksum : ℕ

-- the 21 bytes of a header, with the checks on them
unfoldable pub lz4_header : List ℕ → Result Lz4Header AnvilError
lz4_header header = do
  refuse (not (bytes_beq (take 8 header) magic)) lz4
  let token = first_byte (drop 8 header)
  let method = bit_and token 0xf0
  let level = bit_and token 0x0f
  refuse (not (nat_beq method 0x10) && not (nat_beq method 0x20)) lz4
  let compressed_len = from_le_bytes (drop 9 header)
  let decompressed_len = from_le_bytes (drop 13 header)
  max_body ← ok_or (checked_shl (10 + level)) lz4
  refuse (ltb max_body decompressed_len) lz4
  refuse (differs (nat_beq compressed_len 0) (nat_beq decompressed_len 0)) lz4
  refuse (nat_beq method 0x10 && not (nat_beq compressed_len decompressed_len)) lz4
  ok (record {
    raw = nat_beq method 0x10;
    compressed_len = compressed_len;
    decompressed_len = decompressed_len;
    checksum = from_le_bytes (drop 17 header);
  })

module _ {I : Type 0} (d : Decoders I) where
  -- the bytes of a block
  unfoldable pub lz4_decode : Lz4Header → List ℕ → Result (List ℕ) AnvilError
  lz4_decode h block = elim h.raw [
    | true ↦ ok block
    | false ↦ do
      decoded ← ok_or (d.lz4_block block h.decompressed_len) lz4
      refuse (not (nat_beq (length decoded) h.decompressed_len)) lz4
      ok decoded
  ]

  -- the body of a block behind its header at `pos`: the next position and the bytes
  unfoldable pub lz4_body : List ℕ → ℕ → ℕ → Lz4Header → Result (ℕ × List ℕ) AnvilError
  unfolding lz4_decode
  lz4_body body pos start h = do
    end_output ← ok_or (checked_usize (start + h.decompressed_len)) output_too_large
    refuse (ltb max_decompressed end_output) output_too_large
    body_end ← ok_or (checked_usize (pos + h.compressed_len)) lz4
    block ← ok_or (get_range body pos h.compressed_len) lz4
    decoded ← lz4_decode h block
    refuse (not (nat_beq (d.xxh32 decoded % 2 ^ 28) h.checksum)) lz4
    ok (body_end, decoded)

  -- one round of the loop: none at the end mark
  unfoldable pub lz4_round : List ℕ → ℕ → ℕ → Result (Option (ℕ × List ℕ)) AnvilError
  unfolding lz4_header lz4_body
  lz4_round body pos start = do
    header ← ok_or (get_range body pos lz4_header_len) lz4
    h ← lz4_header header
    let rest = lz4_body body (pos + lz4_header_len) start h
    if nat_beq h.decompressed_len 0
        then (if nat_beq h.checksum 0 then ok none else err lz4)
        else (rest >>= λ r. ok (some r))

  -- the loop, with the output so far, which an error leaves as it is; none: out of fuel
  unfoldable pub lz4_loop : ℕ → List ℕ → ℕ → List ℕ → Option (List ℕ × Result (Unit {0}) AnvilError)
  unfolding lz4_round
  lz4_loop zero body pos out = none
  lz4_loop (suc fuel) body pos out = elim (lz4_round body pos (length out)) [
    | err e ↦ some (out, err e)
    | ok none ↦ some (out, ok tt)
    | ok (some (next, bytes)) ↦ lz4_loop fuel body next (out ++ bytes)
  ]

  unfoldable pub unlz4 : ℕ → List ℕ → Option (List ℕ × Result (Unit {0}) AnvilError)
  unfolding lz4_loop
  unlz4 fuel body = lz4_loop fuel body 0 []
