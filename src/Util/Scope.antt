-- ===== src/Util/Scope.antt =====
-- crates/util/src/scope.rs: the part of the world that an operation may read or write.
pub mod Regions
use sekai.Base.{
  ℕ, ◌≡◌, Bool, true, false, ◌&&◌, List, [], ◌∷◌, any, contains, if◌then◌else◌, Ord, ◌==◌,
}
use sekai.Base.Int.{ℤ, pos, negsuc, ◌+ℤ◌, mul_ℕ, leb_ℤ, ltb_ℤ, saturated, int_ord}
use sekai.Util.Coord.{
  Dimension, RegionKind, ChunkCoord, RegionKey, region_x, region_z, all_region_kinds, dimension_ord,
  kind_ord, coord_ord,
}

pub record Rect : Type 0 where
  pub x0 : ℤ
  pub z0 : ℤ
  pub x1 : ℤ
  pub z1 : ℤ

-- `Rect::new`
abbrev pub rect_new : ℤ → ℤ → ℤ → ℤ → Rect
rect_new ax az bx bz = record {
  x0 = if leb_ℤ ax bx then ax else bx;
  z0 = if leb_ℤ az bz then az else bz;
  x1 = if leb_ℤ ax bx then bx else ax;
  z1 = if leb_ℤ az bz then bz else az;
}

-- i32::MAX / 32 and i32::MIN / 32
abbrev pub max_region : ℤ
max_region = pos 67108863

abbrev pub min_region : ℤ
min_region = negsuc 67108863

abbrev pub clamp_region : ℤ → ℤ
clamp_region r =
    if ltb_ℤ max_region r then max_region else if ltb_ℤ r min_region then min_region else r

unfoldable pub region_first : ℤ → ℤ
region_first r = mul_ℕ (clamp_region r) 32

unfoldable pub region_last : ℤ → ℤ
region_last r = saturated (region_first r +ℤ pos 31)

-- `Rect::region`
unfoldable pub rect_region : ℤ → ℤ → Rect
rect_region rx rz = record {
  x0 = region_first rx;
  z0 = region_first rz;
  x1 = region_last rx;
  z1 = region_last rz;
}

module _ (r : Rect) where
  unfoldable pub rect_contains : ℤ → ℤ → Bool
  rect_contains x z = leb_ℤ r.x0 x && (leb_ℤ x r.x1 && (leb_ℤ r.z0 z && leb_ℤ z r.z1))

  unfoldable pub overlaps_region : ℤ → ℤ → Bool
  overlaps_region rx rz =
      leb_ℤ r.x0 (region_last rx)
      && (leb_ℤ (region_first rx) r.x1
          && (leb_ℤ r.z0 (region_last rz) && leb_ℤ (region_first rz) r.z1))

  unfoldable pub covers_region : ℤ → ℤ → Bool
  covers_region rx rz =
      leb_ℤ r.x0 (region_first rx)
      && (leb_ℤ (region_last rx) r.x1
          && (leb_ℤ r.z0 (region_first rz) && leb_ℤ (region_last rz) r.z1))

pub data Area : Type 0 where
  all : Area
  rect : Rect → Area
  chunks : List ChunkCoord → Area

unfoldable pub area_contains : Area → ChunkCoord → Bool
area_contains all coord = true
area_contains (rect r) coord = rect_contains r coord.x coord.z
area_contains (chunks cs) coord = contains cs coord

unfoldable pub area_matches : Area → RegionKey → Bool
area_matches all key = true
area_matches (rect r) key = overlaps_region r key.rx key.rz
area_matches (chunks cs) key = any (λ c. region_x c == key.rx && region_z c == key.rz) cs

unfoldable pub area_covers : Area → RegionKey → Bool
area_covers all key = true
area_covers (rect r) key = covers_region r key.rx key.rz
area_covers (chunks cs) key = false

pub data Scope : Type 0 where
  world : Scope
  kinds : List RegionKind → Scope
  select : List RegionKind → List (Dimension × Area) → Scope

-- `Scope::dimension`
abbrev pub scope_dimension : Dimension → Scope
scope_dimension dim = select all_region_kinds ((dim, all) ∷ [])

unfoldable pub scope_contains : Scope → ChunkCoord → Bool
unfolding area_contains
scope_contains world coord = true
scope_contains (kinds ks) coord = contains ks coord.kind
scope_contains (select ks areas) coord =
    contains ks coord.kind && any (λ a. a.0 == coord.dim && area_contains a.1 coord) areas

unfoldable pub scope_matches : Scope → RegionKey → Bool
unfolding area_matches
scope_matches world key = true
scope_matches (kinds ks) key = contains ks key.kind
scope_matches (select ks areas) key =
    contains ks key.kind && any (λ a. a.0 == key.dim && area_matches a.1 key) areas

unfoldable pub scope_covers : Scope → RegionKey → Bool
unfolding area_covers
scope_covers world key = true
scope_covers (kinds ks) key = contains ks key.kind
scope_covers (select ks areas) key =
    contains ks key.kind && any (λ a. a.0 == key.dim && area_covers a.1 key) areas
