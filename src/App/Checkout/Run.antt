-- ===== src/App/Checkout/Run.antt =====
-- crates/app/src/checkout.rs: the step of one region file, the pass over all of them, and the checkout.
use sekai.Base.{
  ℕ, ◌+◌, Bool, true, false, not, ◌&&◌, ◌||◌, Option, none, some, List, [], ◌∷◌, ◌++◌, filter,
  if◌then◌else◌,
}
use sekai.Base.Int.{int_ord}
use sekai.Base.Outcome.{Result, ok, err, map_err, ◌>>=◌}
use sekai.Base.Map
use sekai.Base.Set
use sekai.Util.Coord.{ChunkCoord, RegionKey, dimension_ord, kind_ord, key_ord}
use sekai.Util.Hash.{ChunkHash, CommitId}
use sekai.Util.Scope.{Scope, scope_matches}
use sekai.Anvil.Writer.{RegionBuilder, builder_new, image}
use sekai.Sqlite.{StorageError}
use sekai.Core.Port.{MetaStore}
use sekai.Core.Checkout.{CheckoutPlan, CheckoutReport, plan_checkout}
use sekai.App.World.{WorldTree, AppError, world, anvil, checkout}
use sekai.App.Regions.{discover_regions}
use sekai.App.Checkout.{
  CheckoutOptions, CheckoutJob, Staging, stage_rows, merge_live_chunks, resolve_target,
  timestamp_of,
}

module _ {World File E : Type 0} (w : WorldTree World File E) where
  -- the file of a region: the discovered one, or where a missing one is rebuilt
  unfoldable pub region_file :
      World → CheckoutJob File → RegionKey → Result (Option File) (AppError E)
  unfolding resolve_target
  region_file s job key = elim (Map.get job.discovered key) [
    | some file ↦ ok (some file)
    | none ↦ elim (Map.get job.groups key) [
      | none ↦ ok none
      | some rows ↦ resolve_target w s job.discovered key job.options.on_missing_file >>= λ file.
          ok (some file)
    ]
  ]

  -- `keep`, for a region without present rows
  abbrev pub keeps_file : CheckoutOptions → Option (List ChunkCoord) → Bool
  keeps_file options none = options.keep_post_commit_files
  keeps_file options (some tombs) = options.keep_tombstoned_chunks

  -- the step of a region without present rows
  unfoldable pub drop_file :
      World → File → Bool → CheckoutReport → World × Result CheckoutReport (AppError E)
  drop_file s file keep report = elim (not keep && w.exists s file) [
    | false ↦ (s, ok report)
    | true ↦
        let (s', removed) = w.remove s file in
        (
          s',
          map_err world removed >>= λ _.
              ok (record report { files_deleted = report.files_deleted + 1 }),
        )
  ]

  -- the image of a region with present rows, once they are staged
  unfoldable pub merged_image :
      World
      → File
      → RegionKey
      → CheckoutOptions
      → Option (List ChunkCoord)
      → Staging
      → Result (List ℕ) (AppError E)
  unfolding merge_live_chunks
  merged_image s file key options tombs st =
      let keep_live = options.keep_post_commit_chunks || options.keep_tombstoned_chunks in
      let merged : Result RegionBuilder (AppError E) =
        if keep_live
        then merge_live_chunks w s file key st.restored tombs options st.writer
        else ok st.writer in
      merged >>= λ writer. map_err anvil (image writer)

  -- its write, and the report of the file
  unfoldable pub write_file :
      World
      → File
      → Staging
      → CheckoutReport
      → Result (List ℕ) (AppError E)
      → World × Result CheckoutReport (AppError E)
  write_file s file st report (err e) = (s, err e)
  write_file s file st report (ok bytes) =
      let (s', written) = w.write s file bytes in
      (
        s',
        map_err world written >>= λ _. ok (record report {
          files_written = report.files_written + 1;
          chunks_restored = st.chunks_restored;
        }),
      )

  module _ (fetch : ChunkHash → Result (List ℕ) StorageError) (job : CheckoutJob File)
      (timestamp : ℕ) where
    -- the rows of a region in a fresh builder
    unfoldable pub stage_region :
        RegionKey → List (ChunkCoord × ChunkHash) → CheckoutReport → Result Staging (AppError E)
    unfolding stage_rows
    stage_region key rows report = do
      writer ← map_err anvil (builder_new key.rx key.rz timestamp)
      stage_rows fetch job.options.on_missing_blob rows
          (record { writer = writer; restored = []; chunks_restored = report.chunks_restored })

    -- one round of the loop of `checkout_file_pass`
    unfoldable pub checkout_file :
        World → CheckoutReport → RegionKey → World × Result CheckoutReport (AppError E)
    unfolding region_file drop_file merged_image write_file stage_region
    checkout_file s report key = elim (region_file s job key) [
      | err e ↦ (s, err e)
      | ok none ↦ (s, ok report)
      | ok (some file) ↦ elim (Map.get job.groups key) [
        | none ↦ drop_file s file (keeps_file job.options (Map.get job.tombstones key)) report
        | some rows ↦ elim (stage_region key rows report) [
          | err e ↦ (s, err e)
          | ok st ↦
              let bytes = merged_image s file key job.options (Map.get job.tombstones key) st in
              write_file s file st report bytes
        ]
      ]
    ]

    unfoldable pub checkout_files :
        World → CheckoutReport → List RegionKey → World × Result CheckoutReport (AppError E)
    unfolding checkout_file
    checkout_files s report [] = (s, ok report)
    checkout_files s report (key ∷ keys) =
        let (s', out) = checkout_file s report key in
        elim out [ err e ↦ (s', err e) | ok report' ↦ checkout_files s' report' keys ]

    -- `checkout_file_pass`: the regions that the commit or the world knows, in key order
    unfoldable pub checkout_file_pass : World → World × Result CheckoutReport (AppError E)
    unfolding checkout_files
    checkout_file_pass s =
        checkout_files s (record { files_written = 0; files_deleted = 0; chunks_restored = 0 })
          (Set.from (Map.keys job.discovered ++ (Map.keys job.groups ++ Map.keys job.tombstones)))

-- `retain(|key, _| scope.matches_region(*key))`
unfoldable pub in_scope {ℓ} : {V : Type ℓ} → Scope → List (RegionKey × V) → List (RegionKey × V)
in_scope scope = filter (λ e. scope_matches scope e.0)

-- the `CheckoutJob` of `checkout`: what lies in the scope
abbrev pub checkout_job :
    {File : Type 0}
    → CheckoutPlan
    → List (RegionKey × File)
    → CheckoutOptions
    → Scope
    → CheckoutJob File
checkout_job plan discovered options scope = record {
  groups = in_scope scope plan.groups;
  tombstones = in_scope scope plan.tombstones;
  options = options;
  discovered = in_scope scope discovered;
}

module _ {World File E Store : Type 0} (w : WorldTree World File E)
    (m : MetaStore Store StorageError) (store : Store)
    (fetch : ChunkHash → Result (List ℕ) StorageError) where
  -- `checkout`, under the lock of the world
  unfoldable pub checkout_world :
      World → CommitId → CheckoutOptions → Scope → World × Result CheckoutReport (AppError E)
  unfolding checkout_file_pass in_scope timestamp_of
  checkout_world s commit options scope = elim (plan_checkout m store commit) [
    | err e ↦ (s, err (checkout e))
    | ok plan ↦ elim (discover_regions w s) [
      | err e ↦ (s, err e)
      | ok discovered ↦
          checkout_file_pass w fetch (checkout_job plan discovered options scope)
            (timestamp_of plan.created_at_ms) s
    ]
  ]
