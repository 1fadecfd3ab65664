-- ===== src/Util/Hex.antt =====
-- crates/util/src/hash.rs: the hexadecimal form of a 32-byte value, and its errors.
pub mod Trip
use Prim.Native.Nat.{bit_or, bit_and}
use sekai.Base.{
  ℕ, zero, suc, ◌+◌, ◌-◌, ◌*◌, ◌/◌, ◌%◌, Bool, ◌&&◌, not, Option, none, some, List, [], ◌∷◌, length,
  if◌then◌else◌, leb, nat_beq,
}
use sekai.Base.Outcome.{Result, ok, err, refuse, ◌>>=◌, ◌>>◌}

pub data HexError : Type 0 where
  bad_hex_length bad_hex_char : ℕ → HexError

-- `HEX[nibble]`
unfoldable pub digit : ℕ → ℕ
digit n = if leb n 9 then 48 + n else 87 + n

-- `b'a'..=b'f'` and the like
abbrev pub in_range : ℕ → ℕ → ℕ → Bool
in_range first last byte = leb first byte && leb byte last

unfoldable pub decode_nibble : ℕ → Result ℕ HexError
decode_nibble byte =
    if in_range 48 57 byte
    then ok (byte - 48)
    else if in_range 97 102 byte
    then ok (byte - 97 + 10)
    else if in_range 65 70 byte
    then ok (byte - 65 + 10)
    else err (bad_hex_char byte)

-- `hex32_into`, byte by byte
unfoldable pub hex_into : List ℕ → List ℕ
unfolding digit
hex_into [] = []
hex_into (b ∷ bs) = digit (b / 16) ∷ digit (b % 16) ∷ hex_into bs

-- the loop of `hex32_from`, pair by pair
unfoldable pub decode_pairs : List ℕ → Result (List ℕ) HexError
unfolding decode_nibble
decode_pairs (h ∷ l ∷ rest) = do
  hi ← decode_nibble h
  lo ← decode_nibble l
  bytes ← decode_pairs rest
  ok (bit_or (hi * 16 % 256) lo ∷ bytes)
decode_pairs _ = ok []

unfoldable pub hex_from : List ℕ → Result (List ℕ) HexError
unfolding decode_pairs
hex_from input = do
  refuse (not (nat_beq (length input) 64)) (bad_hex_length (length input))
  decode_pairs input
