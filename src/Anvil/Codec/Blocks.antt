-- ===== src/Anvil/Codec/Blocks.antt =====
-- crates/anvil/src/codec.rs: the framing of LZ4 blocks, raw and compressed, of every level, and
-- what `lz4_header` reads of a block's header.
use sekai.Base.{
  and_left, and_right, Bool-cases, inl, inr, sym, ap, ◌∙◌, ℕ, zero, suc, ◌+◌, ◌/◌, ◌%◌, ◌^◌, ◌≤◌,
  ◌<◌, ◌≡◌, refl, true, false, none, some, List, [], ◌∷◌, ◌++◌, length, take, drop, arith, ltb,
  nat_beq, ltb-true, ltb-false, nat_beq-false, nat_beq_iff, leb, Option, Bool, ◌&&◌,
}
use Prim.Native.Nat.{bit_and}
use sekai.Base.Outcome.{ok}
use sekai.Anvil.Codec.Libraries.{Decoders}
use sekai.Anvil.Codec.Lz4.{Lz4Header, lz4_decode, lz4_header, from_le_bytes, magic}

-- `u32::to_le_bytes`
abbrev pub to_le_bytes : ℕ → List ℕ
to_le_bytes n = n % 2 ^ 8 ∷ n / 2 ^ 8 % 2 ^ 8 ∷ n / 2 ^ 16 % 2 ^ 8 ∷ n / 2 ^ 24 % 2 ^ 8 ∷ []

-- A block of a stream: its level, and what it holds, as it is or compressed.
pub record Block : Type 0 where
  pub level : ℕ
  pub packed : Option (List ℕ)
  pub content : List ℕ

-- the high half of the token, and the bytes behind the header
abbrev pub method : Option (List ℕ) → ℕ
method none = 0x10
method (some _) = 0x20

abbrev pub carried : Option (List ℕ) → List ℕ → List ℕ
carried none content = content
carried (some bytes) content = bytes

abbrev pub is_raw : Option (List ℕ) → Bool
is_raw none = true
is_raw (some _) = false

abbrev pub block_header : ℕ → ℕ → ℕ → ℕ → List ℕ
block_header token len size checksum =
    magic ++ (token ∷ to_le_bytes len ++ (to_le_bytes size ++ to_le_bytes checksum))

module _ {I : Type 0} (d : Decoders I) where
  abbrev pub checksum : List ℕ → ℕ
  checksum bytes = d.xxh32 bytes % 2 ^ 28

  -- the header of a block
  abbrev pub header_of : Block → List ℕ
  header_of b =
      block_header (method b.packed + b.level) (length (carried b.packed b.content))
        (length b.content) (checksum b.content)

  -- the blocks of a stream, and its end mark, which has a level too
  unfoldable pub framed : ℕ → List Block → List ℕ
  framed mark [] = block_header (0x10 + mark) 0 0 0
  framed mark (b ∷ blocks) = header_of b ++ (carried b.packed b.content ++ framed mark blocks)

  -- What a block carries is its content, or is not empty and decompresses to it.
  abbrev pub Unpacks : Option (List ℕ) → List ℕ → Type 0
  Unpacks none content = Unit {0}
  Unpacks (some bytes) content =
      (0 < length bytes)
      × (length bytes < 2 ^ 32)
      × (d.lz4_block bytes (length content) ≡ some content)

  -- The content is not empty and fits the level.
  pub record IsBlock (b : Block) : Type 0 where
    pub level_small : b.level < 16
    pub full : 0 < length b.content
    pub fits : length b.content ≤ 2 ^ (10 + b.level)
    pub unpacks : Unpacks b.packed b.content

-- the content of a stream
unfoldable pub joined : List Block → List ℕ
joined [] = []
joined (b ∷ blocks) = b.content ++ joined blocks

-- whether a test holds of so many numbers in a row
holds_from : (ℕ → Bool) → ℕ → ℕ → Bool
holds_from test first zero = true
holds_from test first (suc more) = test first && holds_from test (suc first) more

holds_at :
    (test : ℕ → Bool) (first more level : ℕ)
    → holds_from test first more ≡ true
    → first ≤ level
    → level < first + more
    → test level ≡ true
unfolding holds_from
holds_at test first zero level all low high = absurd (omega (arith, low, high))
holds_at test first (suc more) level all low high = elim (Bool-cases (nat_beq first level)) [
  | inl here ↦ ap test (sym ((nat_beq_iff first level).0 here)) ∙ and_left (test first) _ all
  | inr later ↦
      holds_at test (suc first) more level (and_right (test first) _ all)
        (ground (arith, low, later)) (omega (arith, high))
]

-- an equation of all levels is decided by evaluation
at_level :
    (f g : ℕ → ℕ) (level : ℕ)
    → holds_from (λ l. nat_beq (f l) (g l)) 0 16 ≡ true
    → level < 16
    → f level ≡ g level
at_level f g level all h =
    (nat_beq_iff (f level) (g level)).0
      (holds_at (λ l. nat_beq (f l) (g l)) 0 16 level all (omega arith) (omega (arith, h)))

raw_method : (level : ℕ) → level < 16 → bit_and (0x10 + level) 0xf0 ≡ 0x10
unfolding holds_from
raw_method level = at_level (λ l. bit_and (0x10 + l) 0xf0) (λ l. 0x10) level refl

raw_level : (level : ℕ) → level < 16 → bit_and (0x10 + level) 0x0f ≡ level
unfolding holds_from
raw_level level = at_level (λ l. bit_and (0x10 + l) 0x0f) (λ l. l) level refl

packed_method : (level : ℕ) → level < 16 → bit_and (0x20 + level) 0xf0 ≡ 0x20
unfolding holds_from
packed_method level = at_level (λ l. bit_and (0x20 + l) 0xf0) (λ l. 0x20) level refl

packed_level : (level : ℕ) → level < 16 → bit_and (0x20 + level) 0x0f ≡ level
unfolding holds_from
packed_level level = at_level (λ l. bit_and (0x20 + l) 0x0f) (λ l. l) level refl

-- no level allows more than the 32 MiB of the last
largest : (level : ℕ) → level < 16 → 2 ^ (10 + level) ≤ 2 ^ 25
unfolding holds_from
largest level h =
    let short : leb (2 ^ (10 + level)) (2 ^ 25) ≡ true =
      holds_at (λ l. leb (2 ^ (10 + l)) (2 ^ 25)) 0 16 level refl (omega arith)
        (omega (arith, h)) in
    ground (arith, short)

from_le_bytes-to_le_bytes :
    (n : ℕ) (rest : List ℕ) → n < 2 ^ 32 → from_le_bytes (to_le_bytes n ++ rest) ≡ n
unfolding from_le_bytes
from_le_bytes-to_le_bytes n rest h = omega (arith, h)

pub lz4_header-raw :
    (level len checksum : ℕ)
    → level < 16
    → len ≤ 2 ^ (10 + level)
    → checksum < 2 ^ 28
    → lz4_header (block_header (0x10 + level) len len checksum)
      ≡ ok
          (record { raw = true; compressed_len = len; decompressed_len = len; checksum = checksum })
unfolding lz4_header take drop
lz4_header-raw level len checksum small fits sum =
    let high = largest level small in
    let room : ltb (2 ^ (10 + level)) len ≡ false = ltb-false _ _ fits in
    let shift : ltb (10 + level) 64 ≡ true = ltb-true _ _ (omega arith) in
    let size = from_le_bytes-to_le_bytes len in
    let same : nat_beq len len ≡ true = (nat_beq_iff _ _).1 refl in
    let sum_at = from_le_bytes-to_le_bytes checksum [] (omega arith) in
    rw
      (
        lz4_header,
        raw_method level small,
        raw_level level small,
        shift,
        size (to_le_bytes len ++ to_le_bytes checksum) (omega (arith, high)),
        size (to_le_bytes checksum) (omega (arith, high)),
        sum_at,
        room,
        same,
      )
      (ground arith)

lz4_header-packed :
    (level len size checksum : ℕ)
    → level < 16
    → 0 < len
    → len < 2 ^ 32
    → 0 < size
    → size ≤ 2 ^ (10 + level)
    → checksum < 2 ^ 28
    → lz4_header (block_header (0x20 + level) len size checksum)
      ≡ ok (record {
        raw = false;
        compressed_len = len;
        decompressed_len = size;
        checksum = checksum;
      })
unfolding lz4_header take drop
lz4_header-packed level len size checksum small some_bytes short full fits sum =
    let high = largest level small in
    let room : ltb (2 ^ (10 + level)) size ≡ false = ltb-false _ _ fits in
    let shift : ltb (10 + level) 64 ≡ true = ltb-true _ _ (omega arith) in
    let len_full : nat_beq len 0 ≡ false = nat_beq-false _ _ (omega arith) in
    let size_full : nat_beq size 0 ≡ false = nat_beq-false _ _ (omega arith) in
    rw
      (
        lz4_header,
        packed_method level small,
        packed_level level small,
        shift,
        from_le_bytes-to_le_bytes len (to_le_bytes size ++ to_le_bytes checksum) short,
        from_le_bytes-to_le_bytes size (to_le_bytes checksum) (omega (arith, high)),
        from_le_bytes-to_le_bytes checksum [] (omega arith),
        room,
        len_full,
        size_full,
      )
      (ground arith)

module _ {I : Type 0} (d : Decoders I) where
  -- what is read of a block's header
  abbrev pub read_of : Option (List ℕ) → List ℕ → Lz4Header
  read_of packed content = record {
    raw = is_raw packed;
    compressed_len = length (carried packed content);
    decompressed_len = length content;
    checksum = checksum d content;
  }

  pub lz4_header-block :
      (level : ℕ) (packed : Option (List ℕ)) (content : List ℕ)
      → level < 16
      → 0 < length content
      → length content ≤ 2 ^ (10 + level)
      → Unpacks d packed content
      → lz4_header (
          block_header
            (method packed + level)
            (length (carried packed content))
            (length content)
            (checksum d content))
        ≡ ok (read_of packed content)
  lz4_header-block level none content small full fits h =
      lz4_header-raw level (length content) (checksum d content) small fits (omega arith)
  lz4_header-block level (some bytes) content small full fits (some_bytes, short, _) =
      lz4_header-packed level (length bytes) (length content) (checksum d content) small some_bytes
        short full fits (omega arith)

  pub lz4_decode-block :
      (packed : Option (List ℕ)) (content : List ℕ)
      → Unpacks d packed content
      → lz4_decode d (read_of packed content) (carried packed content) ≡ ok content
  unfolding lz4_decode
  lz4_decode-block none content h = refl
  lz4_decode-block (some bytes) content (_, _, e) =
      let same : nat_beq (length content) (length content) ≡ true = (nat_beq_iff _ _).1 refl in
      rw (lz4_decode, e, same) refl
