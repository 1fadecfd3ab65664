-- ===== src/App/World.antt =====
-- crates/world/src/tree.rs and region.rs: the traits of a world and its region files, as a record of
-- operations over the state of the file system; and crates/app/src/error.rs, as far as it is met.
use sekai.Base.{ℕ, ◌≡◌, ◌≢◌, Bool, Option, none, some, List}
use sekai.Base.Outcome.{Result, ok}
use sekai.Util.Coord.{Dimension, RegionKind, RegionKey}
use sekai.Anvil.Error.{AnvilError}
use sekai.Anvil.Reader.{Chunk}
use sekai.Sqlite.{StorageError}
use sekai.Core.Checkout.{CheckoutError}

-- `AppError`; `unknown_region_path` is a `WorldError`
pub data AppError (E : Type 0) : Type 0 where
  world : E → AppError E
  unknown_region_path : RegionKey → AppError E
  storage : StorageError → AppError E
  anvil : AnvilError → AppError E
  checkout : CheckoutError StorageError → AppError E
  duplicate_region : RegionKey → AppError E

-- `WorldTree` and `RegionFile`. A file that is read stands for what a visit of its chunks is given
-- one by one, which is an error where the visit ends early.
pub record WorldTree (World File E : Type 0) : Type 0 where
  pub get_dims : World → Result (List Dimension) E
  pub get_regions : World → Dimension → RegionKind → Result (List (RegionKey × File)) E
  pub derive_region : World → RegionKey → Result File E
  pub sibling_region : World → File → RegionKey → Result File E
  pub exists : World → File → Bool
  pub read : World → File → RegionKey → Result (List (Result Chunk E)) E
  pub write : World → File → List ℕ → World × Result (Unit {0}) E
  pub remove : World → File → World × Result (Unit {0}) E

-- What the traits document of a world whose files have the content `content`: writing replaces the
-- content of the file, removing deletes the file, and neither touches another file.
pub record WorldLaws {World File E : Type 0} (w : WorldTree World File E)
    (content : World → File → Option (List ℕ)) : Type 0 where
  pub write-content :
      (s : World) (f : File) (bytes : List ℕ)
      → (w.write s f bytes).1 ≡ ok tt
      → content (w.write s f bytes).0 f ≡ some bytes
  pub write-others :
      (s : World) (f g : File) (bytes : List ℕ)
      → f ≢ g
      → content (w.write s f bytes).0 g ≡ content s g
  pub remove-content :
      (s : World) (f : File) → (w.remove s f).1 ≡ ok tt → content (w.remove s f).0 f ≡ none
  pub remove-others : (s : World) (f g : File) → f ≢ g → content (w.remove s f).0 g ≡ content s g
