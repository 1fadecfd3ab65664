-- ===== src/Anvil/Codec/Bounds.antt =====
-- crates/anvil/src/codec.rs: the loops end, and the output stays within the safety limit.
use sekai.Base.{
  ℕ, zero, suc, ◌+◌, ◌%◌, ◌^◌, ◌≤◌, ◌<◌, ◌≡◌, sym, ap, ◌∙◌, inl, inr, Bool, true, false, not, none,
  some, List, ◌++◌, length, length-append, arith, if◌then◌else◌, ltb, nat_beq, Bool-cases,
  Option-cases,
}
use sekai.Base.Outcome.{Result, ok, err, ok_or, >>=-eq-ok, ok_or-eq-ok, refuse-eq-ok, Result-cases}
use sekai.Base.Bytes.{get_range, get_range-inside, length-get_range}
use sekai.Anvil.Error.{AnvilError, lz4, output_too_large}
use sekai.Anvil.Codec.Libraries.{Decoders, max_decompressed}
use sekai.Anvil.Codec.Lz4.{
  Lz4Header, lz4_header_len, lz4_header, lz4_decode, lz4_body, lz4_round, lz4_loop, checked_usize,
}

end_mark : {next : ℕ × List ℕ} (b : Bool) → ¬ ((if b then ok none else err lz4) ≡ ok (some next))
end_mark true h = cc h
end_mark false h = cc h

checked_usize-eq : (n : ℕ) {m : ℕ} → checked_usize n ≡ some m → m ≡ n
checked_usize-eq n h = ground arith

not_equal : (a b : ℕ) → not (nat_beq a b) ≡ false → a ≡ b
not_equal a b h = ground arith

not_less : (a b : ℕ) → ltb a b ≡ false → b ≤ a
not_less a b h = ground arith

-- A block that is stored raw has the length of its content.
lz4_header-raw :
    (header : List ℕ) (h : Lz4Header)
    → lz4_header header ≡ ok h
    → h.raw ≡ true
    → h.compressed_len ≡ h.decompressed_len
unfolding lz4_header
lz4_header-raw header h e r = ground arith

module _ {I : Type 0} (d : Decoders I) where
  lz4_decode-length :
      (h : Lz4Header) (block : List ℕ) {decoded : List ℕ}
      → (h.raw ≡ true → length block ≡ h.decompressed_len)
      → lz4_decode d h block ≡ ok decoded
      → length decoded ≡ h.decompressed_len
  unfolding lz4_decode
  lz4_decode-length h block same e = elim (Bool-cases h.raw) [
    | inl r ↦ ap length (sym (cc (rw (lz4_decode, r) at e))) ∙ same r
    | inr r ↦
        let (out, _, e1) =
          >>=-eq-ok (ok_or (d.lz4_block block h.decompressed_len) lz4) _
            (rw (lz4_decode, r) at e) in
        let (long, e2) =
          refuse-eq-ok (not (nat_beq (length out) h.decompressed_len)) lz4 (ok out) e1 in
        ap length (sym (cc e2)) ∙ not_equal (length out) h.decompressed_len long
  ]

  -- what a block that was accepted adds
  lz4_body-bounds :
      (body : List ℕ) (pos start : ℕ) (h : Lz4Header) {next : ℕ} {bytes : List ℕ}
      → (h.raw ≡ true → h.compressed_len ≡ h.decompressed_len)
      → lz4_body d body pos start h ≡ ok (next, bytes)
      → (pos ≤ next) × (next ≤ length body) × (start + length bytes ≤ max_decompressed)
  unfolding lz4_body
  lz4_body-bounds body pos start h {next = next} {bytes = bytes} same e =
      let (e1, at1, h1) =
        >>=-eq-ok (ok_or (checked_usize (start + h.decompressed_len)) output_too_large) _ e in
      let (small, h2) = refuse-eq-ok (ltb max_decompressed e1) output_too_large _ h1 in
      let (e2, at2, h3) = >>=-eq-ok (ok_or (checked_usize (pos + h.compressed_len)) lz4) _ h2 in
      let (block, at3, h4) = >>=-eq-ok (ok_or (get_range body pos h.compressed_len) lz4) _ h3 in
      let (decoded, at4, h5) = >>=-eq-ok (lz4_decode d h block) _ h4 in
      let (_, h6) =
        refuse-eq-ok (not (nat_beq (d.xxh32 decoded % 2 ^ 28) h.checksum)) lz4 (ok (e2, decoded))
          h5 in
      let got = ok_or-eq-ok (get_range body pos h.compressed_len) lz4 at3 in
      let size =
        lz4_decode-length h block (λ r. length-get_range body pos h.compressed_len got ∙ same r)
          at4 in
      let end =
        checked_usize-eq (start + h.decompressed_len)
          (ok_or-eq-ok (checked_usize (start + h.decompressed_len)) output_too_large at1) in
      let stop =
        checked_usize-eq (pos + h.compressed_len)
          (ok_or-eq-ok (checked_usize (pos + h.compressed_len)) lz4 at2) in
      let inside = get_range-inside body pos h.compressed_len got in
      let fits = not_less max_decompressed e1 small in
      let here : e2 ≡ next = cc h6 in
      let there : decoded ≡ bytes = cc h6 in
      rw (← here, ← there) (omega arith, omega arith, omega arith)

  lz4_round-bounds :
      (body : List ℕ) (pos start : ℕ) {next : ℕ} {bytes : List ℕ}
      → lz4_round d body pos start ≡ ok (some (next, bytes))
      → (pos < next) × (next ≤ length body) × (start + length bytes ≤ max_decompressed)
  unfolding lz4_round
  lz4_round-bounds body pos start {next} {bytes} e =
      let (header, _, h1) = >>=-eq-ok (ok_or (get_range body pos lz4_header_len) lz4) _ e in
      let (h, at, h2) = >>=-eq-ok (lz4_header header) _ h1 in
      elim (Bool-cases (nat_beq h.decompressed_len 0)) [
        | inl mark ↦ absurd (end_mark (nat_beq h.checksum 0) (rw mark at h2))
        | inr more ↦
            let (r, run, h3) =
              >>=-eq-ok (lz4_body d body (pos + lz4_header_len) start h) _ (rw more at h2) in
            let same : r ≡ (next, bytes) = cc h3 in
            let (low, high, fits) =
              lz4_body-bounds body (pos + lz4_header_len) start h (lz4_header-raw header h at)
                (run ∙ ap ok same) in
            (omega arith, high, fits)
      ]

  -- Whatever the body, the loop ends within a unit of fuel for each byte, and the output stays
  -- within the limit.
  pub lz4_loop-bounds :
      (fuel : ℕ) (body : List ℕ) (pos : ℕ) (out : List ℕ)
      → length body < pos + fuel
      → pos ≤ length body
      → length out ≤ max_decompressed
      → (r : List ℕ × Result (Unit {0}) AnvilError) × (lz4_loop d fuel body pos out ≡ some r)
        × (length r.0 ≤ max_decompressed)
  unfolding lz4_loop
  lz4_loop-bounds zero body pos out enough at small = absurd (omega arith)
  lz4_loop-bounds (suc fuel) body pos out enough at small =
      elim (Result-cases (lz4_round d body pos (length out))) [
        | inr (e, h) ↦ ((out, err e), rw (lz4_loop, h), small)
        | inl (o, h) ↦ elim (Option-cases o) [
          | inl n ↦ ((out, ok tt), rw (lz4_loop, h, n), small)
          | inr ((next, bytes), n) ↦
              let (low, high, fits) = lz4_round-bounds body pos (length out) (h ∙ ap ok n) in
              let (r, run, bound) =
                lz4_loop-bounds fuel body next (out ++ bytes) (omega arith) high
                  (omega (arith, length-append out bytes)) in
              (r, rw (lz4_loop, h, n) run, bound)
        ]
      ]
