-- ===== src/Anvil/RoundTrip.antt =====
-- Reading an image back that the builder made (crates/anvil/src: writer.rs, then reader.rs).
use mathlib.Core.Option
use sekai.Base.{
  ℕ, ◌+◌, ◌*◌, ◌/◌, ◌%◌, ◌^◌, ◌≤◌, ◌<◌, ◌≡◌, refl, ap, sym, ◌∙◌, inl, inr, false, none, some, List,
  [], ◌∷◌, length, replicate, arith, Option-cases, length-replicate, ltb-true, ltb-false, leb-false,
  nat_beq-false,
}
use sekai.Base.Int.{ℤ}
use sekai.Base.Outcome.{ok}
use sekai.Base.Bytes.{slice, slice-replicate, get_range, to_be_bytes, from_be_bytes-to_be_bytes}
use sekai.Util.Coord.{RegionKind}
use sekai.Anvil.Region.{
  RegionLoc, loc_new, check_image_len, sector_len, header_len, table_entries, first_data_sector,
}
use sekai.Anvil.Writer.{StagedChunk, RegionBuilder, blank_header, image}
use sekai.Anvil.Writer.Staging.{IsStaged, staged_at}
use sekai.Anvil.Writer.Placement.{IsLocated, IsLaid, image-ok}
use sekai.Anvil.Reader.{
  is_empty, RegionImage, from_bytes_with_kind, chunk_at, at_slot, entry, sector_payload, payload_at,
}

get_range-in {ℓ} :
    {A : Type ℓ} (xs : List A) (a n : ℕ)
    → a + n ≤ length xs
    → get_range xs a n ≡ some (slice xs a n)
unfolding get_range
get_range-in xs a n h = ground arith

is_empty-long : (bytes : List ℕ) → 0 < length bytes → is_empty bytes ≡ false
is_empty-long [] h = absurd (omega arith)
is_empty-long (b ∷ bytes) h = refl

entry-word :
    (bytes : List ℕ) (j word : ℕ)
    → word < 2 ^ 32
    → j * 4 + 4 ≤ length bytes
    → slice bytes (j * 4) 4 ≡ to_be_bytes word
    → entry bytes j ≡ ok (word / 256, word % 256)
unfolding entry
entry-word bytes j word small fit h =
    rw (get_range-in bytes (j * 4) 4 fit, h, from_be_bytes-to_be_bytes word small)

sector_payload-located :
    (bytes : List ℕ) (j : ℕ) (payload : List ℕ) (o n : ℕ)
    → IsLocated bytes j payload o n
    → sector_payload bytes j o n ≡ ok payload
unfolding sector_payload
sector_payload-located bytes j payload o n at =
    let word = get_range-in bytes (o * sector_len) 4 (omega (arith, at.inside, at.room)) in
    let body =
      get_range-in bytes (o * sector_len + 4) (length payload)
        (omega (arith, at.inside, at.room)) in
    let back = from_be_bytes-to_be_bytes (length payload) (omega (arith, at.room, at.few)) in
    let start = ltb-true (o * sector_len) (2 ^ 64) (omega (arith, at.addressable)) in
    let capacity = ltb-true (n * sector_len) (2 ^ 64) (omega (arith, at.few)) in
    let full = nat_beq-false (length payload) 0 (omega (arith, at.full)) in
    let room = ltb-false (n * sector_len) (length payload + 4) at.room in
    rw (start, word, at.prefix, capacity, back, full, room, body, at.body)

payload_at-located :
    (bytes : List ℕ) (j : ℕ) (payload : List ℕ) (o n : ℕ)
    → j < table_entries
    → header_len ≤ length bytes
    → IsLocated bytes j payload o n
    → payload_at bytes j ≡ ok (some payload)
unfolding payload_at
payload_at-located bytes j payload o n lt long at =
    let found =
      entry-word bytes j (o * 256 + n) (omega (arith, at.addressable, at.few)) (omega arith)
        at.entry in
    let offset : (o * 256 + n) / 256 ≡ o = omega (arith, at.few) in
    let count : (o * 256 + n) % 256 ≡ n = omega (arith, at.few) in
    let used = nat_beq-false o 0 (omega (arith, at.after_header)) in
    let after = ltb-false o first_data_sector at.after_header in
    let some_sector = nat_beq-false n 0 (omega (arith, at.some_sector)) in
    let start = ltb-true (o * sector_len) (2 ^ 64) (omega (arith, at.addressable)) in
    let inside =
      leb-false (length bytes) (o * sector_len) (omega (arith, at.inside, at.some_sector)) in
    let body = sector_payload-located bytes j payload o n at in
    rw (
      is_empty-long bytes (omega arith),
      found,
      offset,
      count,
      used,
      after,
      some_sector,
      start,
      inside,
      body,
    )

payload_at-blank :
    (bytes : List ℕ) (j : ℕ)
    → j < table_entries
    → header_len ≤ length bytes
    → slice bytes (j * 4) 4 ≡ to_be_bytes 0
    → payload_at bytes j ≡ ok none
unfolding payload_at
payload_at-blank bytes j lt long h =
    rw (is_empty-long bytes (omega arith), entry-word bytes j 0 (omega arith) (omega arith) h)

slice-blank_header : (j : ℕ) → j < table_entries → slice blank_header (j * 4) 4 ≡ to_be_bytes 0
unfolding blank_header
slice-blank_header j lt =
    slice-replicate header_len (j * 4) 4 0 (omega arith) ∙ (unfold replicate to_be_bytes in refl)

length-blank_header : length blank_header ≡ header_len
unfolding blank_header
length-blank_header = length-replicate header_len 0

-- Every slot of a built image reads as the payload that is staged for it.
payload_at-laid :
    (bytes : List ℕ) (staged : List StagedChunk) (j : ℕ)
    → j < table_entries
    → IsLaid blank_header staged bytes
    → payload_at bytes j ≡ ok (staged_at staged j)
payload_at-laid bytes staged j lt laid =
    let long : header_len ≤ length bytes = omega (arith, laid.longer, length-blank_header) in
    elim (Option-cases (staged_at staged j)) [
      | inl absent ↦
          payload_at-blank bytes j lt long (laid.others j absent lt ∙ slice-blank_header j lt)
          ∙ ap ok (sym absent)
      | inr (payload, present) ↦
          let (o, n, at) = laid.found j payload present in
          payload_at-located bytes j payload o n lt long at ∙ ap ok (sym present)
    ]

accepted :
    (bytes : List ℕ) (rx rz : ℤ) (kind : RegionKind) (loc : RegionLoc)
    → header_len ≤ length bytes
    → loc_new rx rz ≡ ok loc
    → from_bytes_with_kind bytes rx rz kind ≡ ok (record { loc = loc; kind = kind; bytes = bytes })
unfolding from_bytes_with_kind check_image_len
accepted bytes rx rz kind loc long h =
    rw (nat_beq-false (length bytes) 0 (omega arith), ltb-false (length bytes) header_len long, h)

-- A builder of a region file, whose staged chunks are in slot order and within the limits of the
-- format, always yields an image. The image is a whole number of sectors, it is accepted as an
-- image of the same region, whatever the kind of the region, and each slot of its location table
-- reads as the chunk of that slot with the staged payload, or as absent where none is staged.
pub image_roundtrip :
    (rx rz : ℤ) (kind : RegionKind) (b : RegionBuilder)
    → loc_new rx rz ≡ ok b.loc
    → IsStaged b.staged
    → (bytes : List ℕ) × (read : RegionImage) × (image b ≡ ok bytes)
      × (length bytes % sector_len ≡ 0)
      × (from_bytes_with_kind bytes rx rz kind ≡ ok read)
      × ((j : ℕ)
          → j < table_entries
          → chunk_at read j ≡ ok (Option.map (at_slot read j) (staged_at b.staged j)))
image_roundtrip rx rz kind b loc valid =
    let (bytes, built, laid) = image-ok b valid in
    let long : header_len ≤ length bytes = omega (arith, laid.longer, length-blank_header) in
    (
      bytes,
      record { loc = b.loc; kind = kind; bytes = bytes },
      built,
      laid.whole,
      accepted bytes rx rz kind b.loc long loc,
      λ j lt. unfold chunk_at in rw (payload_at-laid bytes b.staged j lt laid),
    )
