-- ===== src/App/Regions.antt =====
-- crates/app/src/regions.rs: the region files that a world reports, by their identity.
use sekai.Base.{none, some, List, [], ◌∷◌}
use sekai.Base.Outcome.{Result, ok, err, map_err, ◌>>=◌}
use sekai.Base.Map
use sekai.Util.Coord.{Dimension, RegionKind, RegionKey, all_region_kinds, key_ord}
use sekai.App.World.{WorldTree, AppError, world, duplicate_region}

module _ {World File E : Type 0} (w : WorldTree World File E) where
  -- the innermost loop
  unfoldable pub add_regions :
      List (RegionKey × File)
      → List (RegionKey × File)
      → Result (List (RegionKey × File)) (AppError E)
  add_regions [] regions = ok regions
  add_regions ((key, file) ∷ found) regions = elim (Map.get regions key) [
    | none ↦ add_regions found (Map.insert key file regions)
    | some _ ↦ err (duplicate_region key)
  ]

  -- the loop over the kinds
  unfoldable pub add_kinds :
      World
      → Dimension
      → List RegionKind
      → List (RegionKey × File)
      → Result (List (RegionKey × File)) (AppError E)
  unfolding add_regions
  add_kinds s dim [] regions = ok regions
  add_kinds s dim (kind ∷ kinds) regions = do
    found ← map_err world (w.get_regions s dim kind)
    regions' ← add_regions found regions
    add_kinds s dim kinds regions'

  -- the loop over the dimensions
  unfoldable pub add_dims :
      World
      → List Dimension
      → List (RegionKey × File)
      → Result (List (RegionKey × File)) (AppError E)
  unfolding add_kinds
  add_dims s [] regions = ok regions
  add_dims s (dim ∷ dims) regions = do
    regions' ← add_kinds s dim all_region_kinds regions
    add_dims s dims regions'

  unfoldable pub discover_regions : World → Result (List (RegionKey × File)) (AppError E)
  unfolding add_dims
  discover_regions s = do dims ← map_err world (w.get_dims s); add_dims s dims []
