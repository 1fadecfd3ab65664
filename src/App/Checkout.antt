-- ===== src/App/Checkout.antt =====
-- crates/app/src/checkout.rs: the files of a world rebuilt from the plan of a commit. The steps that
-- run on other threads are awaited one by one, so that they are a sequence of steps here; the
-- progress callback observes only and is left out, and so are the timings.
pub mod Run
pub mod Staged
pub mod Rebuilt
pub mod Restored
pub mod Exact
use sekai.Base.{
  ℕ, suc, ◌+◌, ◌-◌, ◌/◌, ◌^◌, ◌≡◌, ◌↔◌, Bool, true, false, not, ◌&&◌, ◌||◌, Option, none, some,
  List, [], ◌∷◌, ◌++◌, map, filter, contains, if◌then◌else◌, ltb, Ord, ◌==◌, ◌<?◌, arith,
}
use sekai.Base.Int.{ℤ, int_ord, beq_ℤ_iff}
use sekai.Base.Outcome.{Result, ok, err, map_err, ◌>>=◌}
use sekai.Base.Map
use sekai.Base.Set
use sekai.Util.Coord.{ChunkCoord, RegionKey, dimension_ord, kind_ord, key_ord}
use sekai.Util.Hash.{ChunkHash, CommitId}
use sekai.Util.Scope.{Scope, scope_matches}
use sekai.Anvil.Reader.{Chunk}
use sekai.Anvil.Writer.{RegionBuilder, builder_new, stage_chunk, image}
use sekai.Sqlite.{StorageError, blob_missing}
use sekai.Core.Port.{MetaStore}
use sekai.Core.Checkout.{CheckoutReport, Groups, Tombstones, plan_checkout}
use sekai.App.World.{WorldTree, AppError, world, unknown_region_path, storage, anvil, checkout}
use sekai.App.Regions.{discover_regions}

pub data MissingBlobPolicy : Type 0 where
  abort skip_chunk : MissingBlobPolicy

pub data MissingFilePolicy : Type 0 where
  sibling_first derived_only error : MissingFilePolicy

pub record CheckoutOptions : Type 0 where
  pub keep_post_commit_files : Bool
  pub keep_post_commit_chunks : Bool
  pub keep_tombstoned_chunks : Bool
  pub on_missing_blob : MissingBlobPolicy
  pub on_missing_file : MissingFilePolicy

-- `CheckoutOptions::default()`
abbrev pub strict : CheckoutOptions
strict = record {
  keep_post_commit_files = false;
  keep_post_commit_chunks = false;
  keep_tombstoned_chunks = false;
  on_missing_blob = abort;
  on_missing_file = sibling_first;
}

-- the pairs `(i32, i32)` of `restored` and `tombed`
abbrev pub Column : Type 0
Column = ℤ × ℤ

pub column_beq_iff : (a b : Column) → ((a.0 == b.0 && a.1 == b.1) ≡ true) ↔ (a ≡ b)
column_beq_iff a b = ground (arith, beq_ℤ_iff a.0 b.0, beq_ℤ_iff a.1 b.1)

instance abbrev pub column_ord : Ord Column
column_ord = record {
  beq = λ a b. a.0 == b.0 && a.1 == b.1;
  beq_iff = column_beq_iff;
  blt = λ a b. a.0 <? b.0 || a.0 == b.0 && a.1 <? b.1;
}

pub record CheckoutJob (File : Type 0) : Type 0 where
  pub groups : Groups
  pub tombstones : Tombstones
  pub options : CheckoutOptions
  pub discovered : List (RegionKey × File)

-- `fetch_or_skip`, from the outcome of `fetch_into`: the payload, or none when it is skipped
unfoldable pub fetch_or_skip :
    {E : Type 0}
    → Result (List ℕ) StorageError
    → MissingBlobPolicy
    → Result (Option (List ℕ)) (AppError E)
fetch_or_skip (ok payload) policy = ok (some payload)
fetch_or_skip (err (blob_missing hash)) skip_chunk = ok none
fetch_or_skip (err source) policy = err (storage source)

-- the writer, the columns restored, and the count of the report
pub record Staging : Type 0 where
  pub writer : RegionBuilder
  pub restored : List Column
  pub chunks_restored : ℕ

module _ {E : Type 0} (fetch : ChunkHash → Result (List ℕ) StorageError) where
  -- the loop over the rows of a region; `fetch` is `fetch_into` on the store
  unfoldable pub stage_rows :
      MissingBlobPolicy → List (ChunkCoord × ChunkHash) → Staging → Result Staging (AppError E)
  unfolding fetch_or_skip
  stage_rows policy [] st = ok st
  stage_rows policy ((coord, hash) ∷ rows) st = do
    found ← fetch_or_skip (fetch hash) policy
    elim found as (λ _. Result Staging (AppError E)) [
      | none ↦ stage_rows policy rows st
      | some payload ↦ map_err anvil (stage_chunk st.writer coord.x coord.z payload) >>= λ writer.
          stage_rows policy rows (record {
            writer = writer;
            restored = Set.insert (coord.x, coord.z) st.restored;
            chunks_restored = st.chunks_restored + 1;
          })
    ]

module _ (options : CheckoutOptions) (restored tombed : List Column) where
  -- the test of the visitor of `merge_live_chunks`
  unfoldable pub keeps : Chunk → Bool
  keeps chunk =
      not (contains restored (chunk.x, chunk.z))
      && (if contains tombed (chunk.x, chunk.z)
          then options.keep_tombstoned_chunks
          else options.keep_post_commit_chunks)

  -- the visit of the live chunks, which ends at the first failure
  unfoldable pub merge_chunks :
      {E : Type 0} → List (Result Chunk E) → RegionBuilder → Result RegionBuilder (AppError E)
  unfolding keeps
  merge_chunks [] writer = ok writer
  merge_chunks (err e ∷ visit) writer = err (world e)
  merge_chunks (ok chunk ∷ visit) writer = elim (keeps chunk) [
    | false ↦ merge_chunks visit writer
    | true ↦ map_err anvil (stage_chunk writer chunk.x chunk.z chunk.payload) >>= λ next.
        merge_chunks visit next
  ]

abbrev pub columns : Option (List ChunkCoord) → List Column
columns none = []
columns (some coords) = Set.from (map (λ c. (c.x, c.z)) coords)

-- the first sibling that `discovered` reports: of the same dimension and kind
unfoldable pub find_sibling : {File : Type 0} → RegionKey → List (RegionKey × File) → Option File
find_sibling key [] = none
find_sibling key ((found, file) ∷ rest) =
    let later = find_sibling key rest in
    if found.dim == key.dim && found.kind == key.kind then some file else later

-- `unwrap_or(u32::MAX)`
unfoldable pub timestamp_of : ℕ → ℕ
timestamp_of created_at_ms =
    if ltb (created_at_ms / 1000) (2 ^ 32) then created_at_ms / 1000 else 2 ^ 32 - 1

module _ {World File E : Type 0} (w : WorldTree World File E) where
  unfoldable pub sibling_or_derived :
      World → List (RegionKey × File) → RegionKey → Result File (AppError E)
  unfolding find_sibling
  sibling_or_derived s discovered key = elim (find_sibling key discovered) [
    | some sibling ↦ map_err world (w.sibling_region s sibling key)
    | none ↦ map_err world (w.derive_region s key)
  ]

  unfoldable pub resolve_target :
      World → List (RegionKey × File) → RegionKey → MissingFilePolicy → Result File (AppError E)
  unfolding sibling_or_derived
  resolve_target s discovered key error = err (unknown_region_path key)
  resolve_target s discovered key derived_only = map_err world (w.derive_region s key)
  resolve_target s discovered key sibling_first = sibling_or_derived s discovered key

  unfoldable pub merge_live_chunks :
      World
      → File
      → RegionKey
      → List Column
      → Option (List ChunkCoord)
      → CheckoutOptions
      → RegionBuilder
      → Result RegionBuilder (AppError E)
  unfolding merge_chunks
  merge_live_chunks s file key restored tombs options writer = elim (w.exists s file) [
    | false ↦ ok writer
    | true ↦ map_err world (w.read s file key) >>= λ visit.
        merge_chunks options restored (columns tombs) visit writer
  ]
