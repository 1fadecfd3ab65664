-- ===== src/Anvil/Writer.antt =====
-- crates/anvil/src/writer.rs: a builder of fresh region images. The staged chunks are kept in slot
-- order; an image is built by one pass over them that fills the tables and appends the sectors.
pub mod Layout
pub mod Placement
pub mod Staging
use Prim.Native.Nat.{bit_or}
use sekai.Base.{
  ℕ, zero, suc, ◌+◌, ◌-◌, ◌*◌, ◌%◌, ◌^◌, Bool, Option, none, some, List, [], ◌∷◌, ◌++◌, length,
  replicate, if◌then◌else◌, ltb, nat_beq,
}
use sekai.Base.Int.{ℤ}
use sekai.Base.Outcome.{Result, ok, err, map_err, refuse, ◌>>=◌, ◌>>◌}
use sekai.Base.Bytes.{write, to_be_bytes}
use sekai.Anvil.Error.{AnvilError, empty_payload, chunk_too_large, image_too_large}
use sekai.Anvil.Region.{
  RegionLoc, loc_new, slot_of, sectors_for, sector_len, header_len, first_data_sector,
  max_sector_offset,
}
use sekai.Anvil.Reader.{is_empty}

pub record StagedChunk : Type 0 where
  pub slot : ℕ
  pub payload : List ℕ

pub record RegionBuilder : Type 0 where
  pub loc : RegionLoc
  pub timestamp : ℕ
  pub staged : List StagedChunk

-- `RegionBuilder::new`
unfoldable pub builder_new : ℤ → ℤ → ℕ → Result RegionBuilder AnvilError
builder_new rx rz timestamp = do
  loc ← loc_new rx rz
  ok (record { loc = loc; timestamp = timestamp; staged = [] })

-- `binary_search_by_key` on a list in slot order: the position of the slot, or where it belongs
unfoldable pub search_slot : List StagedChunk → ℕ → Result ℕ ℕ
search_slot [] slot = err 0
search_slot (c ∷ cs) slot =
    let rest = search_slot cs slot in
    if nat_beq c.slot slot
    then ok 0
    else if ltb slot c.slot
    then err 0
    else elim rest [ ok i ↦ ok (suc i) | err i ↦ err (suc i) ]

-- `staged[index].payload = payload`
unfoldable pub set_payload : List StagedChunk → ℕ → List ℕ → List StagedChunk
set_payload [] i payload = []
set_payload (c ∷ cs) zero payload = record c { payload = payload } ∷ cs
set_payload (c ∷ cs) (suc i) payload = c ∷ set_payload cs i payload

-- `Vec::insert` and `Vec::remove`
unfoldable pub insert_at : List StagedChunk → ℕ → StagedChunk → List StagedChunk
insert_at cs zero d = d ∷ cs
insert_at [] (suc i) d = d ∷ []
insert_at (c ∷ cs) (suc i) d = c ∷ insert_at cs i d

unfoldable pub remove_at : List StagedChunk → ℕ → List StagedChunk
remove_at [] i = []
remove_at (c ∷ cs) zero = cs
remove_at (c ∷ cs) (suc i) = c ∷ remove_at cs i

-- the `match` of `stage_chunk`
unfoldable pub place_chunk : List StagedChunk → ℕ → List ℕ → List StagedChunk
unfolding search_slot set_payload insert_at
place_chunk staged slot payload = elim (search_slot staged slot) [
  | ok index ↦ set_payload staged index payload
  | err index ↦ insert_at staged index (record { slot = slot; payload = payload })
]

unfoldable pub stage_chunk : RegionBuilder → ℤ → ℤ → List ℕ → Result RegionBuilder AnvilError
unfolding place_chunk
stage_chunk b x z payload = do
  refuse (is_empty payload) empty_payload
  sectors_for (length payload)
  slot ← slot_of b.loc x z
  ok (record b { staged = place_chunk b.staged slot payload })

-- the `if let` of `remove_chunk`
unfoldable pub drop_chunk : List StagedChunk → ℕ → List StagedChunk
unfolding search_slot remove_at
drop_chunk staged slot = elim (search_slot staged slot) [
  | ok index ↦ remove_at staged index
  | err index ↦ staged
]

unfoldable pub remove_chunk : RegionBuilder → ℤ → ℤ → Result RegionBuilder AnvilError
unfolding drop_chunk
remove_chunk b x z = do
  slot ← slot_of b.loc x z
  ok (record b { staged = drop_chunk b.staged slot })

-- u64::saturating_add
abbrev pub saturating_add : ℕ → ℕ → ℕ
saturating_add a b = if ltb (a + b) (2 ^ 64) then a + b else 2 ^ 64 - 1

-- u32::try_from
abbrev pub try_u32 : ℕ → AnvilError → Result ℕ AnvilError
try_u32 n e = if ltb n (2 ^ 32) then ok n else err e

-- one entry of the location table: `(offset_u32 << 8) | sectors_u32`
abbrev pub entry_word : ℕ → ℕ → ℕ
entry_word offset sectors = bit_or (offset * 256 % 2 ^ 32) sectors

-- One round of the loop of `image`: the image so far and the next free sector.
unfoldable pub put_chunk : ℕ → List ℕ × ℕ → StagedChunk → Result (List ℕ × ℕ) AnvilError
put_chunk timestamp (image, offset) chunk = do
  sectors ← sectors_for (length chunk.payload)
  refuse (ltb max_sector_offset (saturating_add offset sectors)) (image_too_large offset)
  offset_u32 ← try_u32 offset (image_too_large offset)
  sectors_u32 ← try_u32 sectors (image_too_large offset)
  let entry_at = chunk.slot * 4
  let located = write image entry_at (to_be_bytes (entry_word offset_u32 sectors_u32))
  let stamped = write located (sector_len + entry_at) (to_be_bytes timestamp)
  payload_len ← try_u32 (length chunk.payload) (chunk_too_large (length chunk.payload))
  let stored = to_be_bytes payload_len ++ chunk.payload
  let padding = sectors * sector_len - (length chunk.payload + 4)
  ok (stamped ++ (stored ++ replicate padding 0), offset + sectors)

unfoldable pub put_all : ℕ → List ℕ × ℕ → List StagedChunk → Result (List ℕ) AnvilError
unfolding put_chunk
put_all timestamp (image, offset) [] = ok image
put_all timestamp (image, offset) (c ∷ cs) = do
  next ← put_chunk timestamp (image, offset) c
  put_all timestamp next cs

-- `vec![0; header_len]`
unfoldable pub blank_header : List ℕ
blank_header = replicate header_len 0

-- `RegionBuilder::image`
unfoldable pub image : RegionBuilder → Result (List ℕ) AnvilError
unfolding put_all blank_header
image b = put_all b.timestamp (blank_header, first_data_sector) b.staged
