-- ===== src/Anvil/Codec/Limit.antt =====
-- crates/anvil/src/codec.rs: every payload is decoded or refused, within the limit on the output.
use Prim.Native.Nat.{min}
use sekai.Base.{
  ℕ, zero, suc, ◌+◌, ◌-◌, ◌*◌, ◌≤◌, ◌≡◌, refl, ◌⊎◌, inl, inr, true, ◌||◌, some, List, [], ◌∷◌, ◌++◌,
  length, length-append, arith, ltb, nat_beq, Bool-cases, Option-cases, drop,
}
use sekai.Base.Outcome.{Result, ok, err, Result-cases}
use sekai.Base.Bytes.{get_range}
use sekai.Anvil.Error.{AnvilError, gzip, output_too_large, empty_payload}
use sekai.Anvil.Codec.Libraries.{
  Decoders, DecoderLaws, Status, done, has_more_output, other, has_more, broken, max_decompressed,
}
use sekai.Anvil.Codec.Gzip.{
  get_from, inflate_loop, inflate_raw_exact, gzip_header, check_footer, gunzip_capped,
}
use sekai.Anvil.Codec.Lz4.{unlz4, from_le_bytes}
use sekai.Anvil.Codec.Bounds.{lz4_loop-bounds}
use sekai.Anvil.Codec.{Compression, raw, lz4, compression_of, inflate_fuel, decode, decompress_into}

abbrev IsWithin : Result (List ℕ) AnvilError → Type 0
IsWithin (ok out) = length out ≤ max_decompressed
IsWithin (err e) = Unit

Status-cases : (s : Status) → (s ≡ done) ⊎ (s ≡ has_more_output) ⊎ (s ≡ other)
Status-cases done = inl refl
Status-cases has_more_output = inr (inl refl)
Status-cases other = inr (inr refl)

module _ {I : Type 0} (d : Decoders I) (laws : DecoderLaws d) where
  inflate_loop-IsWithin :
      (fuel : ℕ) (i : I) (input out : List ℕ)
      → max_decompressed ≤ length out + fuel * (64 * 1024)
      → length out ≤ max_decompressed
      → (r : Result (List ℕ) AnvilError) × (inflate_loop d (suc fuel) i input out ≡ some r)
        × IsWithin r
  unfolding inflate_loop
  inflate_loop-IsWithin zero i input out enough small =
      let full : nat_beq (max_decompressed - length out) 0 ≡ true = ground arith in
      (err output_too_large, rw (inflate_loop, full), tt)
  inflate_loop-IsWithin (suc fuel) i input out enough small =
      let room = max_decompressed - length out in
      let call = d.inflate i input out (min room (64 * 1024)) in
      let window = laws.inflate-window i input out (min room (64 * 1024)) in
      let grown : length (out ++ call.written) ≤ max_decompressed =
        omega (arith, length-append out call.written, window, small) in
      elim (Bool-cases (nat_beq room 0)) [
        | inl full ↦ (err output_too_large, rw (inflate_loop, full), tt)
        | inr free ↦ elim (Option-cases (get_from input call.consumed)) [
          | inl over ↦ (err gzip, rw (inflate_loop, free, over), tt)
          | inr (rest, at) ↦ elim (Status-cases call.status) [
            | inl ended ↦ elim (Bool-cases (nat_beq (length rest) 0)) [
              | inl all_read ↦
                  (ok (out ++ call.written), rw (inflate_loop, free, at, ended, all_read), grown)
              | inr more ↦ (err gzip, rw (inflate_loop, free, at, ended, more), tt)
            ]
            | inr (inr failed) ↦ (err gzip, rw (inflate_loop, free, at, failed), tt)
            | inr (inl more) ↦
                let filled = laws.inflate-full i input out (min room (64 * 1024)) more in
                let (r, run, within) =
                  inflate_loop-IsWithin fuel call.state rest (out ++ call.written)
                    (omega (arith, length-append out call.written, filled, enough, small)) grown in
                (r, rw (inflate_loop, free, at, more) run, within)
          ]
        ]
      ]

  check_footer-IsWithin :
      (footer decoded : List ℕ)
      → length decoded ≤ max_decompressed
      → IsWithin (check_footer d footer decoded)
  unfolding check_footer
  check_footer-IsWithin footer decoded small =
      elim (Bool-cases (nat_beq (d.crc32 decoded) (from_le_bytes footer))) [
        | inr wrong ↦ rw (check_footer, wrong) tt
        | inl right ↦ elim (Bool-cases (nat_beq (length decoded) (from_le_bytes (drop 4 footer)))) [
          | inr wrong ↦ rw (check_footer, right, wrong) tt
          | inl size ↦ rw (check_footer, right, size) small
        ]
      ]

  gunzip_capped-IsWithin :
      (body : List ℕ)
      → (r : Result (List ℕ) AnvilError) × (gunzip_capped d inflate_fuel body ≡ some r) × IsWithin r
  unfolding gunzip_capped inflate_raw_exact
  gunzip_capped-IsWithin body = elim (Result-cases (gzip_header body)) [
    | inr (e, h) ↦ (err e, rw (gunzip_capped, h), tt)
    | inl (pos, h) ↦ elim (Bool-cases (ltb (length body) 8 || ltb (length body - 8) pos)) [
      | inl short ↦ (err gzip, rw (gunzip_capped, h, short), tt)
      | inr long ↦ elim (Option-cases (get_range body pos (length body - 8 - pos))) [
        | inl n ↦ (err gzip, rw (gunzip_capped, h, long, n), tt)
        | inr (stream, n) ↦
            let (r, run, within) =
              inflate_loop-IsWithin 1024 d.fresh stream [] (omega arith) (omega arith) in
            elim (Result-cases r) [
              | inr (e, f) ↦ (err e, rw (gunzip_capped, h, long, n, run, f), tt)
              | inl (decoded, f) ↦ (
                check_footer d (drop (length body - 8) body) decoded,
                rw (gunzip_capped, h, long, n, run, f),
                check_footer-IsWithin (drop (length body - 8) body) decoded (rw f at within),
              )
            ]
      ]
    ]
  ]

  decode-bounds :
      (codec : Compression) (body : List ℕ)
      → (r : List ℕ × Result (Unit {0}) AnvilError) × (decode d codec body ≡ some r)
        × (length r.0 ≤ max_decompressed)
  unfolding decode unlz4
  decode-bounds raw body = elim (Bool-cases (ltb max_decompressed (length body))) [
    | inl big ↦ (([], err output_too_large), rw (decode, big), omega arith)
    | inr fits ↦ ((body, ok tt), rw (decode, fits), ground (arith, fits))
  ]
  decode-bounds Compression.zlib body = elim (Result-cases (d.inflate_zlib body max_decompressed)) [
    | inl (out, f) ↦ ((out, ok tt), rw (decode, f), laws.zlib-limit body max_decompressed f)
    | inr (has_more, f) ↦ (([], err output_too_large), rw (decode, f), omega arith)
    | inr (broken, f) ↦ (([], err AnvilError.zlib), rw (decode, f), omega arith)
  ]
  decode-bounds Compression.gzip body =
      let (r, run, within) = gunzip_capped-IsWithin body in
      elim (Result-cases r) [
        | inl (out, f) ↦ ((out, ok tt), rw (decode, run, f), rw f at within)
        | inr (e, f) ↦ (([], err e), rw (decode, run, f), omega arith)
      ]
  decode-bounds lz4 body =
      lz4_loop-bounds d (length body + 1) body 0 [] (omega arith) (omega arith) (omega arith)

  -- Decompressing ends for every payload, within the fuel of the loops, with the output and an
  -- outcome. The output is at most 64 MiB long, also where it is left behind by an error.
  pub decompress_into-bounds :
      (payload : List ℕ)
      → (out : List ℕ) × (r : Result Compression AnvilError) × (decompress_into d payload
          ≡ some (out, r))
        × (length out ≤ max_decompressed)
  unfolding decompress_into
  decompress_into-bounds [] = ([], err empty_payload, refl, omega arith)
  decompress_into-bounds (kind ∷ body) = elim (Result-cases (compression_of kind)) [
    | inr (e, h) ↦ ([], err e, rw (decompress_into, h), omega arith)
    | inl (codec, h) ↦
        let ((out, r), run, bound) = decode-bounds codec body in
        elim (Result-cases r) [
          | inl (_, f) ↦ (out, ok codec, rw (decompress_into, h, run, f), bound)
          | inr (e, f) ↦ (out, err e, rw (decompress_into, h, run, f), bound)
        ]
  ]
