-- ===== src/Util/Scope/Regions.antt =====
-- Scopes and region files: the region tests of a scope agree with its chunk test.
use sekai.Base.{
  ℕ, ◌≤◌, ◌≡◌, ap, sym, ◌∙◌, ◌⊎◌, inl, inr, leb, ◌↔◌, true, ◌&&◌, List, [], ◌∷◌, any, contains,
  arith, ◌==◌,
}
use sekai.Base.Int.{ℤ, ◌≤ℤ◌, InI32, div_euclid, beq_ℤ_iff, int_ord}
use sekai.Util.Coord.{
  Dimension, ChunkCoord, InRange, coord_ord, dimension_ord, kind_ord, region_x, region_z, region_of,
  coord_beq_iff,
}
use sekai.Util.Scope.{
  Rect, Area, Scope, all, rect, chunks, world, kinds, select, clamp_region, region_first,
  region_last, rect_region, rect_contains, overlaps_region, covers_region, area_contains,
  area_matches, area_covers, scope_contains, scope_matches, scope_covers,
}

pub region_span :
    (x : ℤ) → InI32 x → (region_first (div_euclid x 32) ≤ℤ x) × (x ≤ℤ region_last (div_euclid x 32))
unfolding region_first region_last
region_span x h = ground arith

pub region_of_span :
    (x r : ℤ)
    → InI32 x
    → region_first r ≤ℤ x
    → x ≤ℤ region_last r
    → div_euclid x 32 ≡ clamp_region r
unfolding region_first region_last
region_of_span x r h lo hi = ground arith

region_first-clamp : (r : ℤ) → region_first (clamp_region r) ≡ region_first r
unfolding region_first
region_first-clamp r = ground arith

region_last-clamp : (r : ℤ) → region_last (clamp_region r) ≡ region_last r
unfolding region_last
region_last-clamp r = rw region_first-clamp

region_ends : (r : ℤ) → InI32 (region_first r) × (region_first r ≤ℤ region_last r)
unfolding region_first region_last
region_ends r = ground arith

pub span_of_region :
    (x r : ℤ)
    → InI32 x
    → div_euclid x 32 ≡ clamp_region r
    → (region_first r ≤ℤ x) × (x ≤ℤ region_last r)
span_of_region x r h e =
    let first = ap region_first e ∙ region_first-clamp r in
    let last = ap region_last e ∙ region_last-clamp r in
    let span = region_span x h in (rw first at (span.0), rw last at (span.1))

ℤ_total : (a b : ℤ) → (a ≤ℤ b) ⊎ (b ≤ℤ a)
ℤ_total a b = omega arith

-- The four tests of a rectangle, at the parts of the coordinates.
four_tests :
    (a b c d e f g h : ℕ)
    → ((leb a b && (leb c d && (leb e f && leb g h))) ≡ true)
      ↔ ((a ≤ b) × (c ≤ d) × (e ≤ f) × (g ≤ h))
four_tests a b c d e f g h = ground arith

pub rect_contains_iff :
    (r : Rect) (x z : ℤ)
    → (rect_contains r x z ≡ true) ↔ ((r.x0 ≤ℤ x) × (x ≤ℤ r.x1) × (r.z0 ≤ℤ z) × (z ≤ℤ r.z1))
unfolding rect_contains
rect_contains_iff r x z = four_tests _ _ _ _ _ _ _ _

overlaps_region_iff :
    (r : Rect) (rx rz : ℤ)
    → (overlaps_region r rx rz ≡ true) ↔ (
        (r.x0 ≤ℤ region_last rx)
        × (region_first rx ≤ℤ r.x1)
        × (r.z0 ≤ℤ region_last rz)
        × (region_first rz ≤ℤ r.z1))
unfolding overlaps_region
overlaps_region_iff r rx rz = four_tests _ _ _ _ _ _ _ _

covers_region_iff :
    (r : Rect) (rx rz : ℤ)
    → (covers_region r rx rz ≡ true) ↔ (
        (r.x0 ≤ℤ region_first rx)
        × (region_last rx ≤ℤ r.x1)
        × (r.z0 ≤ℤ region_first rz)
        × (region_last rz ≤ℤ r.z1))
unfolding covers_region
covers_region_iff r rx rz = four_tests _ _ _ _ _ _ _ _

rect_matches_of_contains :
    (r : Rect) (c : ChunkCoord)
    → InRange c
    → rect_contains r c.x c.z ≡ true
    → overlaps_region r (region_x c) (region_z c) ≡ true
rect_matches_of_contains r c h k =
    let inside = (rect_contains_iff r c.x c.z).0 k in
    let span_x = region_span c.x h.0 in
    let span_z = region_span c.z h.1 in
    (overlaps_region_iff r (region_x c) (region_z c)).1 (omega arith)

rect_contains_of_covers :
    (r : Rect) (c : ChunkCoord)
    → InRange c
    → covers_region r (region_x c) (region_z c) ≡ true
    → rect_contains r c.x c.z ≡ true
rect_contains_of_covers r c h k =
    let inside = (covers_region_iff r (region_x c) (region_z c)).0 k in
    let span_x = region_span c.x h.0 in
    let span_z = region_span c.z h.1 in (rect_contains_iff r c.x c.z).1 (omega arith)

chunks_match_of_contains :
    (cs : List ChunkCoord) (c : ChunkCoord)
    → contains cs c ≡ true
    → area_matches (chunks cs) (region_of c) ≡ true
unfolding contains area_matches
chunks_match_of_contains [] c h = ground arith
chunks_match_of_contains (d ∷ cs) c h = ground (
  arith,
  coord_beq_iff d c,
  beq_ℤ_iff (region_x d) (region_x c),
  beq_ℤ_iff (region_z d) (region_z c),
  chunks_match_of_contains cs c,
)

area_matches_of_contains :
    (a : Area) (c : ChunkCoord)
    → InRange c
    → area_contains a c ≡ true
    → area_matches a (region_of c) ≡ true
unfolding area_contains area_matches
area_matches_of_contains all c h k = k
area_matches_of_contains (rect r) c h k = rect_matches_of_contains r c h k
area_matches_of_contains (chunks cs) c h k = chunks_match_of_contains cs c k

area_contains_of_covers :
    (a : Area) (c : ChunkCoord)
    → InRange c
    → area_covers a (region_of c) ≡ true
    → area_contains a c ≡ true
unfolding area_contains area_covers
area_contains_of_covers all c h k = k
area_contains_of_covers (rect r) c h k = rect_contains_of_covers r c h k
area_contains_of_covers (chunks cs) c h k = ground arith

areas_match_of_contain :
    (areas : List (Dimension × Area)) (c : ChunkCoord)
    → InRange c
    → any (λ a. a.0 == c.dim && area_contains a.1 c) areas ≡ true
    → any (λ a. a.0 == c.dim && area_matches a.1 (region_of c)) areas ≡ true
areas_match_of_contain [] c h k = k
areas_match_of_contain ((d, a) ∷ areas) c h k =
    ground (arith, area_matches_of_contains a c h, areas_match_of_contain areas c h)

areas_contain_of_cover :
    (areas : List (Dimension × Area)) (c : ChunkCoord)
    → InRange c
    → any (λ a. a.0 == c.dim && area_covers a.1 (region_of c)) areas ≡ true
    → any (λ a. a.0 == c.dim && area_contains a.1 c) areas ≡ true
areas_contain_of_cover [] c h k = k
areas_contain_of_cover ((d, a) ∷ areas) c h k =
    ground (arith, area_contains_of_covers a c h, areas_contain_of_cover areas c h)

-- A scope that contains a chunk, whose coordinates are `i32` values, matches the region file that
-- owns the chunk, and a scope that covers the region file that owns the chunk contains the chunk.
pub scope_regions :
    (s : Scope) (c : ChunkCoord)
    → InRange c
    → (scope_contains s c ≡ true → scope_matches s (region_of c) ≡ true)
      × (scope_covers s (region_of c) ≡ true → scope_contains s c ≡ true)
unfolding scope_contains scope_matches scope_covers
scope_regions world c h = (λ k. k, λ k. k)
scope_regions (kinds ks) c h = (λ k. k, λ k. k)
scope_regions (select ks areas) c h = (
  λ k. ground (arith, areas_match_of_contain areas c h),
  λ k. ground (arith, areas_contain_of_cover areas c h),
)

-- The rectangle of a region file contains exactly the chunks, with `i32` coordinates, whose region
-- coordinates are those of the file, clamped to the regions whose chunks an `i32` can name.
pub rect_region-contains :
    (rx rz x z : ℤ)
    → InI32 x
    → InI32 z
    → (rect_contains (rect_region rx rz) x z ≡ true)
      ↔ ((div_euclid x 32 ≡ clamp_region rx) × (div_euclid z 32 ≡ clamp_region rz))
unfolding rect_region
rect_region-contains rx rz x z hx hz =
    let inside = rect_contains_iff (rect_region rx rz) x z in
    (
      λ k.
          let (x0, x1, z0, z1) = inside.0 k in
          (region_of_span x rx hx x0 x1, region_of_span z rz hz z0 z1),
      λ e.
          let span_x = span_of_region x rx hx e.0 in
          let span_z = span_of_region z rz hz e.1 in
          inside.1 (span_x.0, span_x.1, span_z.0, span_z.1),
    )

-- On one axis: a chunk column of the interval that lies in the region.
common_chunk :
    (lo hi r : ℤ)
    → lo ≤ℤ hi
    → InI32 lo
    → InI32 hi
    → clamp_region r ≡ r
    → lo ≤ℤ region_last r
    → region_first r ≤ℤ hi
    → (x : ℤ) × InI32 x × (lo ≤ℤ x) × (x ≤ℤ hi) × (div_euclid x 32 ≡ r)
common_chunk lo hi r n hlo hhi c before after = elim (ℤ_total lo (region_first r)) [
  | inl k ↦
      let ends = region_ends r in
      (
        region_first r,
        ends.0,
        k,
        after,
        region_of_span (region_first r) r ends.0 (omega arith) ends.1 ∙ c,
      )
  | inr k ↦ (lo, hlo, omega arith, n, region_of_span lo r hlo k before ∙ c)
]

-- A rectangle in normal form with `i32` corners overlaps a region file, whose coordinates are in
-- the range of regions, exactly when some chunk of the rectangle belongs to the region file.
pub overlaps_exact :
    (r : Rect) (rx rz : ℤ)
    → r.x0 ≤ℤ r.x1
    → r.z0 ≤ℤ r.z1
    → InI32 r.x0 × InI32 r.x1 × InI32 r.z0 × InI32 r.z1
    → clamp_region rx ≡ rx
    → clamp_region rz ≡ rz
    → (overlaps_region r rx rz ≡ true) ↔ (
        (x : ℤ) × (z : ℤ) × InI32 x
        × InI32 z
        × (rect_contains r x z ≡ true)
        × (div_euclid x 32 ≡ rx)
        × (div_euclid z 32 ≡ rz))
overlaps_exact r rx rz nx nz range cx cz = (
  λ k.
      let (x0, x1, z0, z1) = (overlaps_region_iff r rx rz).0 k in
      let (x, ix, lx, hx, ex) = common_chunk r.x0 r.x1 rx nx range.0 range.1 cx x0 x1 in
      let (z, iz, lz, hz, ez) = common_chunk r.z0 r.z1 rz nz range.2 range.3 cz z0 z1 in
      (x, z, ix, iz, (rect_contains_iff r x z).1 (lx, hx, lz, hz), ex, ez),
  λ (x, z, ix, iz, k, ex, ez).
      let inside = (rect_contains_iff r x z).0 k in
      let span_x = span_of_region x rx ix (ex ∙ sym cx) in
      let span_z = span_of_region z rz iz (ez ∙ sym cz) in
      (overlaps_region_iff r rx rz).1 (omega arith),
)
