-- ===== src/Anvil/Reader.antt =====
-- crates/anvil/src/reader.rs: the chunks of an in-memory region image. The image is a byte list;
-- `usize` is taken to have 64 bits. `normalized_hash` is not modelled here.
use sekai.Base.{
  ℕ, zero, suc, ◌+◌, ◌-◌, ◌*◌, ◌/◌, ◌%◌, ◌^◌, Bool, true, false, ◌&&◌, ◌||◌, Option, none, some,
  List, [], ◌∷◌, length, if◌then◌else◌, ltb, leb, nat_beq,
}
pub mod Lookup
pub mod Walk
use mathlib.Core.Option
use sekai.Base.Int.{ℤ}
use sekai.Base.Outcome.{Result, ok, err, ok_or, refuse, ◌>>=◌, ◌>>◌}
use sekai.Base.Bytes.{get_range, from_be_bytes}
use sekai.Util.Coord.{RegionKind}
use sekai.Anvil.Error.{AnvilError, corrupt_entry, corrupt_chunk}
use sekai.Anvil.Region.{
  RegionLoc, loc_new, slot_of, coord_at, check_image_len, sector_len, table_entries,
  first_data_sector,
}

pub record Chunk : Type 0 where
  pub x : ℤ
  pub z : ℤ
  pub kind : RegionKind
  pub payload : List ℕ

pub record RegionImage : Type 0 where
  pub loc : RegionLoc
  pub kind : RegionKind
  pub bytes : List ℕ

-- `RegionImage::from_bytes_with_kind`
unfoldable pub from_bytes_with_kind : List ℕ → ℤ → ℤ → RegionKind → Result RegionImage AnvilError
from_bytes_with_kind bytes rx rz kind = do
  check_image_len (length bytes)
  loc ← loc_new rx rz
  ok (record { loc = loc; kind = kind; bytes = bytes })

-- u64::checked_mul, and the conversion to `usize`
abbrev pub checked_u64 : ℕ → Option ℕ
checked_u64 n = if ltb n (2 ^ 64) then some n else none

-- `saturate`: a u64 as the u32 of an error
abbrev pub saturate : ℕ → ℕ
saturate n = if ltb n (2 ^ 32) then n else 2 ^ 32 - 1

-- `RegionImage::corrupt_entry`
abbrev pub corrupt : ℕ → ℕ → ℕ → AnvilError
corrupt index offset count = corrupt_entry index (saturate offset) (saturate count)

abbrev pub is_empty : List ℕ → Bool
is_empty [] = true
is_empty (_ ∷ _) = false

-- `RegionImage::entry`: the sector offset and the number of sectors of a slot
unfoldable pub entry : List ℕ → ℕ → Result (ℕ × ℕ) AnvilError
entry bytes index = do
  four ← ok_or (get_range bytes (index * 4) 4) (corrupt_entry index 0 0)
  let word = from_be_bytes four
  ok (word / 256, word % 256)

-- `RegionImage::sector_payload`
unfoldable pub sector_payload : List ℕ → ℕ → ℕ → ℕ → Result (List ℕ) AnvilError
sector_payload bytes index offset count = do
  base ← ok_or (checked_u64 (offset * sector_len)) (corrupt index offset count)
  four ← ok_or (get_range bytes base 4) (corrupt_chunk index 0)
  let len = from_be_bytes four
  capacity ← ok_or (checked_u64 (count * sector_len)) (corrupt_chunk index len)
  refuse (nat_beq len 0 || ltb capacity (len + 4)) (corrupt_chunk index len)
  ok_or (get_range bytes (base + 4) len) (corrupt_chunk index len)

-- `RegionImage::chunk_at`, without the coordinates: the stored payload of a slot
unfoldable pub payload_at : List ℕ → ℕ → Result (Option (List ℕ)) AnvilError
payload_at bytes index = if is_empty bytes then ok none else do
  e ← entry bytes index
  let (offset, count) = e
  if nat_beq offset 0 && nat_beq count 0 then ok none else do
    refuse (ltb offset first_data_sector || nat_beq count 0) (corrupt index offset count)
    start ← ok_or (checked_u64 (offset * sector_len)) (corrupt index offset count)
    refuse (leb (length bytes) start) (corrupt index offset count)
    payload ← sector_payload bytes index offset count
    ok (some payload)

-- the rest of `RegionImage::chunk_at`
abbrev pub at_slot : RegionImage → ℕ → List ℕ → Chunk
at_slot image index payload =
    let c = coord_at image.loc index in
    record { x = c.0; z = c.1; kind = image.kind; payload = payload }

unfoldable pub chunk_at : RegionImage → ℕ → Result (Option Chunk) AnvilError
chunk_at image index = do
  stored ← payload_at image.bytes index
  ok (Option.map (at_slot image index) stored)

-- `RegionImage::chunk_payload`
payload_of_slot : List ℕ → ℕ → Result (Option (List ℕ)) AnvilError
payload_of_slot bytes index = do
  e ← entry bytes index
  let (offset, count) = e
  if nat_beq offset 0 && nat_beq count 0 then ok none else do
    start ← ok_or (checked_u64 (offset * sector_len)) (corrupt index offset count)
    refuse (ltb offset first_data_sector || (nat_beq count 0 || leb (length bytes) start))
        (corrupt index offset count)
    payload ← sector_payload bytes index offset count
    ok (some payload)

unfoldable pub chunk_payload : RegionImage → ℤ → ℤ → Result (Option (List ℕ)) AnvilError
unfolding payload_of_slot
chunk_payload image x z = if is_empty image.bytes then ok none else elim (slot_of image.loc x z) [
  | ok index ↦ payload_of_slot image.bytes index
  | err _ ↦ ok none
]

-- `RegionImageIter`
pub record Iter : Type 0 where
  pub next_index : ℕ
  pub done : Bool

abbrev pub start : Iter
start = record { next_index = 0; done = false }

abbrev pub Item : Type 0
Item = Option (Result Chunk AnvilError)

module _ (image : RegionImage) where
  -- the `while` loop of `next`, with the table entries that are left
  unfoldable pub next_chunk : ℕ → ℕ → Item × Iter
  next_chunk zero index = (none, record { next_index = index; done = true })
  next_chunk (suc left) index = elim (chunk_at image index) [
    | ok found ↦ elim found [
      | none ↦ next_chunk left (index + 1)
      | some chunk ↦ (some (ok chunk), record { next_index = index + 1; done = false })
    ]
    | err e ↦ (some (err e), record { next_index = index + 1; done = true })
  ]

  -- `Iterator::next`
  unfoldable pub next : Iter → Item × Iter
  unfolding next_chunk
  next it =
      if it.done
      then (none, it)
      else if is_empty image.bytes
      then (none, record it { done = true })
      else next_chunk (table_entries - it.next_index) it.next_index

  -- `RegionImage::visit_chunks`, where the visitor returns its new state and whether to go on.
  -- One round of its loop on the next item, `go` being the rounds that follow.
  unfoldable pub visit_item {ℓ} :
      {S : Type ℓ}
      → (S → Chunk → S × Bool)
      → (Iter → S → Option (Result S AnvilError))
      → Item × Iter
      → S
      → Option (Result S AnvilError)
  visit_item visit go (none, it) s = some (ok s)
  visit_item visit go (some (err e), it) s = some (err e)
  visit_item visit go (some (ok chunk), it) s = elim (visit s chunk).1 [
    | true ↦ go it (visit s chunk).0
    | false ↦ some (ok (visit s chunk).0)
  ]

  -- `none` means that the fuel ran out.
  unfoldable pub visit_loop {ℓ} :
      {S : Type ℓ} → (S → Chunk → S × Bool) → ℕ → Iter → S → Option (Result S AnvilError)
  unfolding next visit_item
  visit_loop visit zero it s = none
  visit_loop visit (suc fuel) it s = visit_item visit (visit_loop visit fuel) (next it) s

  unfoldable pub visit_chunks {ℓ} :
      {S : Type ℓ} → (S → Chunk → S × Bool) → S → Option (Result S AnvilError)
  visit_chunks visit s = visit_loop visit (suc table_entries) start s
