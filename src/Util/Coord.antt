-- ===== src/Util/Coord.antt =====
-- crates/util/src: dimension.rs, region_kind.rs, chunk_coord.rs and the key of region.rs.
-- An `i32` is a `ℤ`, whose range is the predicate `InI32`.
use sekai.Base.{
  ℕ, ◌≡◌, ◌↔◌, Bool, true, ◌&&◌, ◌||◌, arith, if◌then◌else◌, nat_beq, ltb, Ord, ◌==◌, ◌<?◌, List,
  [], ◌∷◌,
}
use sekai.Base.Int.{ℤ, pos, negsuc, div_euclid, int_ord, InI32, beq_ℤ_iff}
use sekai.Base.Outcome.{Result, ok, err}

pub record Dimension : Type 0 where
  pub raw : ℤ

abbrev pub overworld : Dimension
overworld = record { raw = negsuc 817260935 }

abbrev pub nether : Dimension
nether = record { raw = pos 285963005 }

pub dimension_beq_iff : (a b : Dimension) → ((a.raw == b.raw) ≡ true) ↔ (a ≡ b)
dimension_beq_iff a b = ground (arith, beq_ℤ_iff a.raw b.raw)

instance abbrev pub dimension_ord : Ord Dimension
dimension_ord = record {
  beq = λ a b. a.raw == b.raw;
  beq_iff = dimension_beq_iff;
  blt = λ a b. a.raw <? b.raw;
}

pub data RegionKind : Type 0 where
  region entities poi : RegionKind

pub data UnknownRegionKind : Type 0 where
  unknown_region_kind : UnknownRegionKind

-- `RegionKind::ALL`
abbrev pub all_region_kinds : List RegionKind
all_region_kinds = region ∷ entities ∷ poi ∷ []

-- `RegionKind::new`
unfoldable pub kind_of_code : ℤ → Result RegionKind UnknownRegionKind
kind_of_code id =
    if id == pos 0
    then ok region
    else if id == pos 1
    then ok entities
    else if id == pos 2
    then ok poi
    else err unknown_region_kind

-- `RegionKind::raw`
abbrev pub kind_code : RegionKind → ℕ
kind_code region = 0
kind_code entities = 1
kind_code poi = 2

pub kind_beq_iff : (a b : RegionKind) → (nat_beq (kind_code a) (kind_code b) ≡ true) ↔ (a ≡ b)
kind_beq_iff a b = ground arith

instance abbrev pub kind_ord : Ord RegionKind
kind_ord = record {
  beq = λ a b. nat_beq (kind_code a) (kind_code b);
  beq_iff = kind_beq_iff;
  blt = λ a b. ltb (kind_code a) (kind_code b);
}

pub record ChunkCoord : Type 0 where
  pub dim : Dimension
  pub kind : RegionKind
  pub x : ℤ
  pub z : ℤ

abbrev pub coord_beq : ChunkCoord → ChunkCoord → Bool
coord_beq a b = a.dim == b.dim && (a.kind == b.kind && (a.x == b.x && a.z == b.z))

-- the derived order: field by field
abbrev pub coord_blt : ChunkCoord → ChunkCoord → Bool
coord_blt a b =
    a.dim <? b.dim
    || a.dim == b.dim
      && (a.kind <? b.kind || a.kind == b.kind && (a.x <? b.x || a.x == b.x && a.z <? b.z))

pub coord_beq_iff : (a b : ChunkCoord) → (coord_beq a b ≡ true) ↔ (a ≡ b)
coord_beq_iff a b = ground (
  arith,
  dimension_beq_iff a.dim b.dim,
  kind_beq_iff a.kind b.kind,
  beq_ℤ_iff a.x b.x,
  beq_ℤ_iff a.z b.z,
)

instance abbrev pub coord_ord : Ord ChunkCoord
coord_ord = record { beq = coord_beq; beq_iff = coord_beq_iff; blt = coord_blt }

-- `ChunkCoord::region_x` and `ChunkCoord::region_z`
abbrev pub region_x : ChunkCoord → ℤ
region_x c = div_euclid c.x 32

abbrev pub region_z : ChunkCoord → ℤ
region_z c = div_euclid c.z 32

-- the coordinates that the Rust type can hold
abbrev pub InRange : ChunkCoord → Type 0
InRange c = InI32 c.x × InI32 c.z

pub record RegionKey : Type 0 where
  pub dim : Dimension
  pub kind : RegionKind
  pub rx : ℤ
  pub rz : ℤ

-- `RegionKey::of`
abbrev pub region_of : ChunkCoord → RegionKey
region_of c = record { dim = c.dim; kind = c.kind; rx = region_x c; rz = region_z c }

abbrev pub key_beq : RegionKey → RegionKey → Bool
key_beq a b = a.dim == b.dim && (a.kind == b.kind && (a.rx == b.rx && a.rz == b.rz))

abbrev pub key_blt : RegionKey → RegionKey → Bool
key_blt a b =
    a.dim <? b.dim
    || a.dim == b.dim
      && (a.kind <? b.kind || a.kind == b.kind && (a.rx <? b.rx || a.rx == b.rx && a.rz <? b.rz))

pub key_beq_iff : (a b : RegionKey) → (key_beq a b ≡ true) ↔ (a ≡ b)
key_beq_iff a b = ground (
  arith,
  dimension_beq_iff a.dim b.dim,
  kind_beq_iff a.kind b.kind,
  beq_ℤ_iff a.rx b.rx,
  beq_ℤ_iff a.rz b.rz,
)

instance abbrev pub key_ord : Ord RegionKey
key_ord = record { beq = key_beq; beq_iff = key_beq_iff; blt = key_blt }
