-- ===== src/Util/Hex/Trip.antt =====
-- Hexadecimal text and bytes determine one another, up to the case of the letters.
use Prim.Native.Nat.{bit_or}
use mathlib.Core.Path.{subst}
use sekai.Base.{
  ℕ, zero, suc, ◌+◌, ◌*◌, ◌/◌, ◌%◌, ◌^◌, ◌<◌, ◌≡◌, refl, sym, ap, ◌∙◌, ◌↔◌, false, not, List, [],
  ◌∷◌, map, length, arith, if◌then◌else◌, nat_beq,
}
use sekai.Base.Outcome.{ok, >>=-eq-ok, refuse-eq-ok, ok-injective}
use sekai.Base.Bytes.{AllBytes, or_shifted}
use sekai.Util.Hex.{digit, in_range, decode_nibble, hex_into, decode_pairs, hex_from}

decode_nibble-digit : (n : ℕ) → n < 16 → decode_nibble (digit n) ≡ ok n
unfolding decode_nibble digit
decode_nibble-digit n h = ground arith

-- a capital letter in its lower case
abbrev pub lower : ℕ → ℕ
lower byte = if in_range 65 70 byte then byte + 32 else byte

digit-decode_nibble :
    (byte : ℕ) {n : ℕ} → decode_nibble byte ≡ ok n → (n < 16) × (digit n ≡ lower byte)
unfolding decode_nibble digit
digit-decode_nibble byte h = ground (arith, h)

joined : (hi lo : ℕ) → hi < 16 → lo < 16 → bit_or (hi * 16 % 256) lo ≡ hi * 16 + lo
joined hi lo h l =
    let small : hi * 16 % 256 ≡ hi * 2 ^ 4 = omega arith in
    rw (small, or_shifted 4 hi lo l) (omega arith)

decode_pairs-hex_into : (bytes : List ℕ) → AllBytes bytes → decode_pairs (hex_into bytes) ≡ ok bytes
unfolding decode_pairs hex_into
decode_pairs-hex_into [] h = refl
decode_pairs-hex_into (b ∷ bs) (h, hs) =
    let byte : b / 16 * 16 + b % 16 ≡ b = omega arith in
    rw (
      decode_nibble-digit (b / 16) (omega arith),
      decode_nibble-digit (b % 16) (omega arith),
      decode_pairs-hex_into bs hs,
      joined (b / 16) (b % 16) (omega arith) (omega arith),
      byte,
    )

length-hex_into : (bytes : List ℕ) → length (hex_into bytes) ≡ length bytes * 2
unfolding hex_into
length-hex_into [] = refl
length-hex_into (b ∷ bs) = omega (arith, length-hex_into bs)

-- The hexadecimal form of a value of 32 bytes reads back as that value.
pub hex_from-hex_into :
    (bytes : List ℕ) → length bytes ≡ 32 → AllBytes bytes → hex_from (hex_into bytes) ≡ ok bytes
unfolding hex_from
hex_from-hex_into bytes h all =
    let long : length (hex_into bytes) ≡ 64 = omega (arith, h, length-hex_into bytes) in
    rw (long, decode_pairs-hex_into bytes all)

-- What a list of bytes that was decoded is.
abbrev Decoded : List ℕ → ℕ → List ℕ → Type 0
Decoded input n bytes = (length bytes ≡ n) × AllBytes bytes × (hex_into bytes ≡ map lower input)

Decoded-pair :
    (c d hi lo n : ℕ) (rest tail : List ℕ)
    → decode_nibble c ≡ ok hi
    → decode_nibble d ≡ ok lo
    → Decoded rest n tail
    → Decoded (c ∷ d ∷ rest) (suc n) (bit_or (hi * 16 % 256) lo ∷ tail)
unfolding hex_into
Decoded-pair c d hi lo n rest tail e f (long, all, same) =
    let (h, x) = digit-decode_nibble c e in
    let (l, y) = digit-decode_nibble d f in
    let high : (hi * 16 + lo) / 16 ≡ hi = omega arith in
    let low : (hi * 16 + lo) % 16 ≡ lo = omega arith in
    let byte : hi * 16 + lo < 256 = omega arith in
    rw (joined hi lo h l) (ap suc long, (byte, all), rw (hex_into, high, low, x, y, same))

decode_pairs-Decoded :
    (input bytes : List ℕ) (n : ℕ)
    → length input ≡ n * 2
    → decode_pairs input ≡ ok bytes
    → Decoded input n bytes
unfolding decode_pairs
decode_pairs-Decoded [] bytes n even h =
    subst (Decoded [] n) (ok-injective h) (omega (arith, even), tt, unfold hex_into in refl)
decode_pairs-Decoded (c ∷ []) bytes n even h = absurd (omega arith)
decode_pairs-Decoded (c ∷ d ∷ rest) bytes zero even h = absurd (omega arith)
decode_pairs-Decoded (c ∷ d ∷ rest) bytes (suc n) even h =
    let (hi, e, h1) = >>=-eq-ok (decode_nibble c) _ h in
    let (lo, f, h2) = >>=-eq-ok (decode_nibble d) _ h1 in
    let (tail, g, h3) = >>=-eq-ok (decode_pairs rest) _ h2 in
    subst (Decoded (c ∷ d ∷ rest) (suc n)) (ok-injective h3)
      (Decoded-pair c d hi lo n rest tail e f (decode_pairs-Decoded rest tail n (omega arith) g))

length_of_test : (n : ℕ) → not (nat_beq n 64) ≡ false → n ≡ 64
length_of_test n h = ground (arith, h)

-- Text that is accepted is 64 characters long and decodes to 32 bytes, whose hexadecimal form is
-- the text with its capital letters in lower case.
hex_into-hex_from :
    (input bytes : List ℕ)
    → hex_from input ≡ ok bytes
    → (length input ≡ 64)
      × (length bytes ≡ 32)
      × AllBytes bytes
      × (hex_into bytes ≡ map lower input)
unfolding hex_from
hex_into-hex_from input bytes h =
    let (even, run) = refuse-eq-ok _ _ (decode_pairs input) h in
    let long : length input ≡ 64 = length_of_test (length input) even in
    let (len, all, same) = decode_pairs-Decoded input bytes 32 (omega (arith, long)) run in
    (long, len, all, same)

decode_nibble-lower : (byte : ℕ) → decode_nibble (lower byte) ≡ decode_nibble byte
unfolding decode_nibble
decode_nibble-lower byte = ground arith

decode_pairs-lower : (input : List ℕ) → decode_pairs (map lower input) ≡ decode_pairs input
unfolding decode_pairs
decode_pairs-lower [] = refl
decode_pairs-lower (c ∷ []) = refl
decode_pairs-lower (c ∷ d ∷ rest) =
    rw (decode_nibble-lower c, decode_nibble-lower d, decode_pairs-lower rest) refl

length-lower : (input : List ℕ) → length (map lower input) ≡ length input
length-lower [] = refl
length-lower (c ∷ rest) = ap suc (length-lower rest)

hex_from-lower : (input : List ℕ) → length input ≡ 64 → hex_from (map lower input) ≡ hex_from input
unfolding hex_from
hex_from-lower input long = rw (length-lower input, long, decode_pairs-lower input) refl

-- A text is read as some bytes exactly when it is 64 characters long, the bytes are 32, and their
-- hexadecimal form is the text with its capital letters in lower case.
pub hex_from_exact :
    (input bytes : List ℕ)
    → (hex_from input ≡ ok bytes) ↔ (
        (length input ≡ 64)
        × (length bytes ≡ 32)
        × AllBytes bytes
        × (hex_into bytes ≡ map lower input))
hex_from_exact input bytes = (
  hex_into-hex_from input bytes,
  λ (long, size, all, same).
      sym (hex_from-lower input long) ∙ (ap hex_from (sym same) ∙ hex_from-hex_into bytes size all),
)
