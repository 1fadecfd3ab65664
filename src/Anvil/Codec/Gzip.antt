-- ===== src/Anvil/Codec/Gzip.antt =====
-- crates/anvil/src/codec.rs: the gzip container around a raw deflate stream.
use Prim.Native.Nat.{bit_and, min}
use sekai.Base.{
  ℕ, zero, suc, ◌+◌, ◌-◌, ◌*◌, Bool, true, false, not, ◌||◌, Option, none, some, List, [], ◌∷◌,
  ◌++◌, length, drop, if◌then◌else◌, ltb, leb, nat_beq,
}
use sekai.Base.Outcome.{Result, ok, err, ok_or, refuse, ◌>>=◌, ◌>>◌}
use sekai.Base.Bytes.{get_range}
use sekai.Anvil.Error.{AnvilError, gzip, output_too_large}
use sekai.Anvil.Codec.Libraries.{Decoders, done, has_more_output, other, max_decompressed}
use sekai.Anvil.Codec.Lz4.{first_byte, from_le_bytes, checked_usize}

-- `input.get(n..)`
abbrev pub get_from : List ℕ → ℕ → Option (List ℕ)
get_from input n = if leb n (length input) then some (drop n input) else none

module _ {I : Type 0} (d : Decoders I) where
  -- the loop of `inflate_raw_exact`; none: out of fuel
  unfoldable pub inflate_loop : ℕ → I → List ℕ → List ℕ → Option (Result (List ℕ) AnvilError)
  inflate_loop zero i input out = none
  inflate_loop (suc fuel) i input out =
      let room = max_decompressed - length out in
      let call = d.inflate i input out (min room (64 * 1024)) in
      let grown = out ++ call.written in
      elim (nat_beq room 0) [
        | true ↦ some (err output_too_large)
        | false ↦ elim (get_from input call.consumed) [
          | none ↦ some (err gzip)
          | some rest ↦ elim call.status [
            | done ↦ some (if nat_beq (length rest) 0 then ok grown else err gzip)
            | has_more_output ↦ inflate_loop fuel call.state rest grown
            | other ↦ some (err gzip)
          ]
        ]
      ]

  unfoldable pub inflate_raw_exact : ℕ → List ℕ → Option (Result (List ℕ) AnvilError)
  unfolding inflate_loop
  inflate_raw_exact fuel body = inflate_loop fuel d.fresh body []

module _ (input : List ℕ) where
  -- a byte, and the position behind it
  unfoldable pub read_u8 : ℕ → Result (ℕ × ℕ) AnvilError
  read_u8 pos = do bytes ← ok_or (get_range input pos 1) gzip; ok (first_byte bytes, pos + 1)

  unfoldable pub read_u16_le : ℕ → Result (ℕ × ℕ) AnvilError
  read_u16_le pos = do
    bytes ← ok_or (get_range input pos 2) gzip
    ok (first_byte bytes + first_byte (drop 1 bytes) * 256, pos + 2)

  unfoldable pub skip : ℕ → ℕ → Result ℕ AnvilError
  skip pos len = do
    end ← ok_or (checked_usize (pos + len)) gzip
    refuse (ltb (length input) end) gzip
    ok end

-- `while read_u8(body, &mut pos)? != 0 {}`, over the bytes from `pos` on
unfoldable pub skip_text : List ℕ → ℕ → Result ℕ AnvilError
skip_text [] pos = err gzip
skip_text (b ∷ bs) pos =
    let rest = skip_text bs (pos + 1) in if nat_beq b 0 then ok (pos + 1) else rest

-- `flags & bit != 0`
abbrev pub has_flag : ℕ → ℕ → Bool
has_flag flags bit = not (nat_beq (bit_and flags bit) 0)

-- a step that a flag asks for
abbrev pub when : Bool → Result ℕ AnvilError → ℕ → Result ℕ AnvilError
when true step pos = step
when false step pos = ok pos

-- the header of `gunzip_capped`: where the deflate stream starts
unfoldable pub gzip_header : List ℕ → Result ℕ AnvilError
unfolding read_u8 read_u16_le skip skip_text
gzip_header body = do
  first ← read_u8 body 0
  refuse (not (nat_beq first.0 0x1f)) gzip
  second ← read_u8 body first.1
  refuse (not (nat_beq second.0 0x8b)) gzip
  method ← read_u8 body second.1
  refuse (not (nat_beq method.0 8)) gzip
  flags ← read_u8 body method.1
  refuse (has_flag flags.0 0xe0) gzip
  fixed ← skip body flags.1 6
  extra ← when (has_flag flags.0 0x04) (read_u16_le body fixed >>= λ r. skip body r.1 r.0) fixed
  name ← when (has_flag flags.0 0x08) (skip_text (drop extra body) extra) extra
  comment ← when (has_flag flags.0 0x10) (skip_text (drop name body) name) name
  when (has_flag flags.0 0x02) (skip body comment 2) comment

module _ {I : Type 0} (d : Decoders I) where
  -- the checks on the eight bytes of the footer
  unfoldable pub check_footer : List ℕ → List ℕ → Result (List ℕ) AnvilError
  unfolding from_le_bytes
  check_footer footer decoded = do
    refuse (not (nat_beq (d.crc32 decoded) (from_le_bytes footer))) gzip
    refuse (not (nat_beq (length decoded) (from_le_bytes (drop 4 footer)))) gzip
    ok decoded

  -- `gunzip_capped`: what it appends to `out`; none: out of fuel
  unfoldable pub gunzip_capped : ℕ → List ℕ → Option (Result (List ℕ) AnvilError)
  unfolding gzip_header inflate_raw_exact check_footer
  gunzip_capped fuel body = elim (gzip_header body) [
    | err e ↦ some (err e)
    | ok pos ↦ elim (ltb (length body) 8 || ltb (length body - 8) pos) [
      | true ↦ some (err gzip)
      | false ↦
          let end = length body - 8 in
          elim (get_range body pos (end - pos)) [
            | none ↦ some (err gzip)
            | some stream ↦ elim (inflate_raw_exact d fuel stream) [
              | none ↦ none
              | some (err e) ↦ some (err e)
              | some (ok decoded) ↦ some (check_footer (drop end body) decoded)
            ]
          ]
    ]
  ]
