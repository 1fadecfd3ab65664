-- ===== src/Anvil/Codec/Frames.antt =====
-- crates/anvil/src/codec.rs: a stream of LZ4 blocks is read back by `unlz4`.
use sekai.Base.{
  ℕ, zero, suc, ◌+◌, ◌^◌, ◌≤◌, ◌<◌, ◌≡◌, refl, sym, ap, ◌∙◌, true, false, none, some, List, [], ◌∷◌,
  ◌++◌, length, length-append, arith, All, ltb, leb-true, nat_beq, ltb-true, ltb-false,
  nat_beq-false, nat_beq_iff, Option,
}
use mathlib.Core.Path.{subst}
use mathlib.Core.List.{append_assoc, append-nil}
use sekai.Base.Outcome.{ok}
use sekai.Base.Bytes.{get_range, slice, slice-append_right, slice_all}
use sekai.Anvil.Codec.Libraries.{Decoders, max_decompressed}
use sekai.Anvil.Codec.Lz4.{lz4_body, lz4_round, lz4_loop, unlz4}
use sekai.Anvil.Codec.{lz4, compression_of, decode, decompress_into}
use sekai.Anvil.Codec.Blocks.{
  Block, carried, block_header, checksum, header_of, framed, Unpacks, IsBlock, joined,
  lz4_header-raw, read_of, lz4_header-block, lz4_decode-block,
}

get_range-here :
    (pre xs ys : List ℕ) → get_range (pre ++ (xs ++ ys)) (length pre) (length xs) ≡ some xs
unfolding get_range
get_range-here pre xs ys =
    let fits : length pre + length xs ≤ length (pre ++ (xs ++ ys)) =
      omega (arith, length-append pre (xs ++ ys), length-append xs ys) in
    let at : slice (pre ++ (xs ++ ys)) (length pre) (length xs) ≡ xs =
      ap (λ k. slice (pre ++ (xs ++ ys)) k (length xs)) (omega arith)
      ∙ (slice-append_right pre (xs ++ ys) 0 (length xs) ∙ slice_all xs ys) in
    rw (get_range, leb-true _ _ fits, at)

module _ {I : Type 0} (d : Decoders I) where
  lz4_body-block :
      (packed : Option (List ℕ)) (content pre rest : List ℕ) (start : ℕ)
      → Unpacks d packed content
      → length (pre ++ (carried packed content ++ rest)) < 2 ^ 63
      → start + length content ≤ max_decompressed
      → lz4_body d
          (pre ++ (carried packed content ++ rest))
          (length pre)
          start
          (read_of d packed content)
        ≡ ok (length pre + length (carried packed content), content)
  unfolding lz4_body
  lz4_body-block packed content pre rest start unpacks small fits =
      let bytes = carried packed content in
      let long = length-append pre (bytes ++ rest) in
      let size = length-append bytes rest in
      let end : ltb (start + length content) (2 ^ 64) ≡ true = ltb-true _ _ (omega arith) in
      let room : ltb max_decompressed (start + length content) ≡ false = ltb-false _ _ fits in
      let stop : ltb (length pre + length bytes) (2 ^ 64) ≡ true =
        ltb-true _ _ (omega (arith, long, size, small)) in
      let same : nat_beq (checksum d content) (checksum d content) ≡ true =
        (nat_beq_iff _ _).1 refl in
      rw (
        lz4_body,
        end,
        room,
        stop,
        get_range-here pre bytes rest,
        lz4_decode-block d packed content unpacks,
        same,
      )

  -- the bytes that a block takes
  abbrev width : Block → ℕ
  width b = 21 + length (carried b.packed b.content)

  lz4_round-block :
      (b : Block) (pre rest : List ℕ) (start : ℕ)
      → IsBlock d b
      → length (pre ++ (header_of d b ++ (carried b.packed b.content ++ rest))) < 2 ^ 63
      → start + length b.content ≤ max_decompressed
      → lz4_round d
          (pre ++ (header_of d b ++ (carried b.packed b.content ++ rest)))
          (length pre)
          start
        ≡ ok (some (length pre + width b, b.content))
  unfolding lz4_round
  lz4_round-block b pre rest start is small fits =
      let header = header_of d b in
      let bytes = carried b.packed b.content in
      let body = pre ++ (header ++ (bytes ++ rest)) in
      let split : body ≡ (pre ++ header) ++ (bytes ++ rest) =
        sym (append_assoc pre header (bytes ++ rest)) in
      let long : length (pre ++ header) ≡ length pre + 21 = length-append pre header in
      let at : get_range body (length pre) 21 ≡ some header =
        get_range-here pre header (bytes ++ rest) in
      let some_content : nat_beq (length b.content) 0 ≡ false =
        nat_beq-false _ _ (omega (arith, is.full)) in
      let read : lz4_body d body (length pre + 21) start (read_of d b.packed b.content)
          ≡ ok (length pre + 21 + length bytes, b.content) =
        rw (split, ← long)
          (lz4_body-block b.packed b.content (pre ++ header) rest start is.unpacks
            (rw (← split) small) fits) in
      let sum : length pre + 21 + length bytes ≡ length pre + width b = omega arith in
      rw
        (
          lz4_round,
          at,
          lz4_header-block d b.level b.packed b.content is.level_small is.full is.fits is.unpacks,
          some_content,
          read,
        )
        (ap (λ n. ok (some (n, b.content))) sum)

  lz4_round-end :
      (mark : ℕ) (pre : List ℕ) (start : ℕ)
      → mark < 16
      → lz4_round d (pre ++ framed d mark []) (length pre) start ≡ ok none
  unfolding lz4_round framed
  lz4_round-end mark pre start h =
      let header = block_header (0x10 + mark) 0 0 0 in
      let at : get_range (pre ++ header) (length pre) 21 ≡ some header =
        ap (λ l. get_range (pre ++ l) (length pre) 21) (sym (append-nil header))
        ∙ get_range-here pre header [] in
      rw (lz4_round, at, lz4_header-raw mark 0 0 h (omega arith) (omega arith))

  lz4_loop-framed :
      (fuel mark : ℕ) (blocks : List Block) (pre out : List ℕ)
      → length blocks < fuel
      → mark < 16
      → All (IsBlock d) blocks
      → length (pre ++ framed d mark blocks) < 2 ^ 63
      → length out + length (joined blocks) ≤ max_decompressed
      → lz4_loop d fuel (pre ++ framed d mark blocks) (length pre) out
        ≡ some (out ++ joined blocks, ok tt)
  unfolding lz4_loop joined
  lz4_loop-framed zero mark blocks pre out enough m are small fits = absurd (omega arith)
  lz4_loop-framed (suc fuel) mark [] pre out enough m are small fits =
      rw (lz4_loop, lz4_round-end mark pre (length out) m, append-nil)
  lz4_loop-framed (suc fuel) mark (b ∷ blocks) pre out enough m (is, are) small fits =
      let header = header_of d b in
      let bytes = carried b.packed b.content in
      let rest = framed d mark blocks in
      let size = length-append b.content (joined blocks) in
      let round : lz4_round d (pre ++ framed d mark (b ∷ blocks)) (length pre) (length out)
          ≡ ok (some (length pre + width b, b.content)) =
        unfold framed in
        lz4_round-block b pre rest (length out) is small (omega (arith, size, fits)) in
      let pre' = pre ++ (header ++ bytes) in
      let split : pre ++ framed d mark (b ∷ blocks) ≡ pre' ++ rest =
        unfold framed in
        ap (λ l. pre ++ l) (sym (append_assoc header bytes rest))
        ∙ sym (append_assoc pre (header ++ bytes) rest) in
      let long : length pre' ≡ length pre + width b =
        omega (arith, length-append pre (header ++ bytes), length-append header bytes) in
      let later : lz4_loop d fuel (pre' ++ rest) (length pre') (out ++ b.content)
          ≡ some ((out ++ b.content) ++ joined blocks, ok tt) =
        lz4_loop-framed fuel mark blocks pre' (out ++ b.content) (omega arith) m are
          (subst (λ l. length l < 2 ^ 63) split small)
          (omega (arith, size, length-append out b.content, fits)) in
      rw (lz4_loop, round, ← append_assoc)
        (subst
          (λ k.
            lz4_loop d fuel (pre ++ framed d mark (b ∷ blocks)) k (out ++ b.content)
            ≡ some ((out ++ b.content) ++ joined blocks, ok tt))
          long
          (subst
            (λ l.
              lz4_loop d fuel l (length pre') (out ++ b.content)
              ≡ some ((out ++ b.content) ++ joined blocks, ok tt))
            (sym split) later))

  blocks-le : (mark : ℕ) (blocks : List Block) → length blocks ≤ length (framed d mark blocks)
  unfolding framed
  blocks-le mark [] = omega arith
  blocks-le mark (b ∷ blocks) = omega (
    arith,
    blocks-le mark blocks,
    length-append (header_of d b) (carried b.packed b.content ++ framed d mark blocks),
    length-append (carried b.packed b.content) (framed d mark blocks),
  )

  -- A payload of the LZ4 type whose body is a stream of blocks and a raw end mark, at levels from 0 to
  -- 15, decompresses to the content of the blocks in order, if that is at most 64 MiB long and the
  -- body is shorter than 2^63. Each block has content, which fits its level, and carries it raw or
  -- as bytes, at least one and fewer than 2^32, that the library decompresses to it.
  pub decompress_into-framed :
      (mark : ℕ) (blocks : List Block)
      → mark < 16
      → All (IsBlock d) blocks
      → length (framed d mark blocks) < 2 ^ 63
      → length (joined blocks) ≤ max_decompressed
      → decompress_into d (4 ∷ framed d mark blocks) ≡ some (joined blocks, ok lz4)
  unfolding decompress_into compression_of decode unlz4
  decompress_into-framed mark blocks m are small fits =
      let run =
        lz4_loop-framed (length (framed d mark blocks) + 1) mark blocks [] []
          (omega (arith, blocks-le mark blocks)) m are small (omega arith) in
      rw (decompress_into, decode, unlz4, run)
