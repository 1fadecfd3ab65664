-- ===== src/Examples/Scopes.antt =====
-- Scopes: a rectangle of the overworld, and the region file (-1, 2).
use sekai.Base.{◌≡◌, refl, ◌↔◌, true, [], ◌∷◌, arith}
use sekai.Base.Int.{ℤ, pos, negsuc, div_euclid, InI32}
use sekai.Util.Coord.{ChunkCoord, region, overworld, region_of}
use sekai.Util.Scope.{
  Rect, Scope, select, rect, clamp_region, rect_region, rect_contains, overlaps_region,
  scope_contains, scope_matches, scope_covers,
}
use sekai.Util.Scope.Regions.{scope_regions, rect_region-contains, overlaps_exact}

abbrev corner : Rect
corner = record { x0 = negsuc 30; z0 = pos 65; x1 = pos 3; z1 = pos 70 }

abbrev corner_scope : Scope
corner_scope = select (region ∷ []) ((overworld, rect corner) ∷ [])

abbrev chunk : ChunkCoord
chunk = record { dim = overworld; kind = region; x = negsuc 20; z = pos 66 }

scope_regions_example :
    (scope_contains corner_scope chunk ≡ true → scope_matches corner_scope (region_of chunk) ≡ true)
    × (scope_covers corner_scope (region_of chunk) ≡ true
        → scope_contains corner_scope chunk ≡ true)
scope_regions_example = scope_regions corner_scope chunk (omega arith)

rect_region-contains_example :
    (rect_contains (rect_region (negsuc 0) (pos 2)) (negsuc 20) (pos 66) ≡ true) ↔ (
      (div_euclid (negsuc 20) 32 ≡ clamp_region (negsuc 0))
      × (div_euclid (pos 66) 32 ≡ clamp_region (pos 2)))
rect_region-contains_example =
    rect_region-contains (negsuc 0) (pos 2) (negsuc 20) (pos 66) (omega arith) (omega arith)

overlaps_exact_example : (overlaps_region corner (negsuc 0) (pos 2) ≡ true) ↔ (
    (x : ℤ) × (z : ℤ) × InI32 x
    × InI32 z
    × (rect_contains corner x z ≡ true)
    × (div_euclid x 32 ≡ negsuc 0)
    × (div_euclid z 32 ≡ pos 2))
overlaps_exact_example =
    overlaps_exact corner (negsuc 0) (pos 2) (omega arith) (omega arith) (ground arith) refl refl
