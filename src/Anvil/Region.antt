-- ===== src/Anvil/Region.antt =====
-- crates/anvil/src/region.rs: the sector layout and the slots of the location table.
pub mod Slots
use sekai.Base.{
  ℕ, ◌+◌, ◌-◌, ◌*◌, ◌/◌, ◌%◌, Bool, not, ◌&&◌, ◌||◌, Option, none, some, if◌then◌else◌, ltb,
  nat_beq,
}
use sekai.Base.Int.{ℤ, pos, pos_part, ◌+ℤ◌, ◌-ℤ◌, mul_ℕ, leb_ℤ, ltb_ℤ, checked}
use sekai.Base.Outcome.{Result, ok, err, ok_or, ◌>>=◌}
use sekai.Anvil.Error.{
  AnvilError, coordinate_overflow, truncated_file, chunk_too_large, wrong_region,
}

abbrev pub sector_len : ℕ
sector_len = 4096

abbrev pub header_len : ℕ
header_len = 8192

abbrev pub table_entries : ℕ
table_entries = 1024

abbrev pub row_width : ℕ
row_width = 32

abbrev pub first_data_sector : ℕ
first_data_sector = 2

abbrev pub max_sectors_per_chunk : ℕ
max_sectors_per_chunk = 255

abbrev pub max_sector_offset : ℕ
max_sector_offset = 0xff_ffff

pub record RegionLoc : Type 0 where
  pub region_x : ℤ
  pub region_z : ℤ
  pub base_x : ℤ
  pub base_z : ℤ

abbrev pub checked_then {ℓ} : {A : Type ℓ} → Option ℤ → (ℤ → Option A) → Option A
checked_then none f = none
checked_then (some a) f = f a

-- `base` inside `base_coords`: the first chunk column, if the last one is still an `i32`
unfoldable pub base : ℤ → Option ℤ
base r =
    checked_then (checked (mul_ℕ r row_width))
      λ b. checked_then (checked (b +ℤ pos (row_width - 1))) λ _. some b

unfoldable pub base_coords : ℤ → ℤ → Result (ℤ × ℤ) AnvilError
base_coords rx rz = do
  bx ← ok_or (base rx) (coordinate_overflow rx rz)
  bz ← ok_or (base rz) (coordinate_overflow rx rz)
  ok (bx, bz)

-- `RegionLoc::new`
unfoldable pub loc_new : ℤ → ℤ → Result RegionLoc AnvilError
unfolding base_coords
loc_new rx rz = do
  b ← base_coords rx rz
  ok (record { region_x = rx; region_z = rz; base_x = b.0; base_z = b.1 })

-- `(0..ROW_WIDTH).contains`
abbrev pub in_row : ℤ → Bool
in_row d = leb_ℤ (pos 0) d && ltb_ℤ d (pos row_width)

-- the slot at the distances from the first chunk column and row
unfoldable pub slot_between : AnvilError → Option ℤ → Option ℤ → Result ℕ AnvilError
slot_between wrong ox oz = do
  dx ← ok_or ox wrong
  dz ← ok_or oz wrong
  if not (in_row dx) || not (in_row dz)
      then err wrong
      else ok (pos_part dx + row_width * pos_part dz)

module _ (loc : RegionLoc) where
  -- `RegionLoc::slot_of`
  unfoldable pub slot_of : ℤ → ℤ → Result ℕ AnvilError
  unfolding slot_between
  slot_of x z =
      slot_between (wrong_region loc.region_x loc.region_z x z) (checked (x -ℤ loc.base_x))
        (checked (z -ℤ loc.base_z))

  unfoldable pub coord_at : ℕ → ℤ × ℤ
  coord_at index = (loc.base_x +ℤ pos (index % row_width), loc.base_z +ℤ pos (index / row_width))

unfoldable pub check_image_len : ℕ → Result (Unit {0}) AnvilError
check_image_len len =
    if nat_beq len 0 then ok tt else if ltb len header_len then err (truncated_file len) else ok tt

-- `u64::div_ceil`
abbrev pub div_ceil : ℕ → ℕ → ℕ
div_ceil a b = (a + b - 1) / b

unfoldable pub sectors_for : ℕ → Result ℕ AnvilError
sectors_for payload_len =
    let sectors = div_ceil (payload_len + 4) sector_len in
    if ltb max_sectors_per_chunk sectors then err (chunk_too_large payload_len) else ok sectors
