-- ===== src/App/Checkout/Restored.antt =====
-- crates/app/src/checkout.rs: what the pass over the region files leaves behind, file by file.
use mathlib.Core.Path.{subst}
use sekai.Base.{
  ◌≡◌, ◌≢◌, refl, sym, ap, ◌∙◌, ◌⊎◌, inl, inr, true, Option, none, some, List, [], ◌∷◌, ◌++◌, ℕ,
  arith, All, Bool-cases, Option-cases, contains, contains-append,
}
use sekai.Base.Outcome.{Result, ok}
use sekai.Base.Map
use sekai.Base.Set
use sekai.Util.Coord.{ChunkCoord, RegionKey, key_ord}
use sekai.Util.Hash.{ChunkHash}
use sekai.Anvil.Region.{loc_new}
use sekai.Anvil.Region.Slots.{loc_at}
use sekai.Sqlite.{StorageError}
use sekai.Core.Checkout.{CheckoutReport}
use sekai.App.World.{WorldTree, WorldLaws, AppError}
use sekai.App.Checkout.{CheckoutJob, resolve_target}
use sekai.App.Checkout.Run.{region_file, checkout_file, checkout_files, checkout_file_pass}
use sekai.App.Checkout.Staged.{IsStored}
use sekai.App.Checkout.Rebuilt.{
  KeepsNothing, Holds, Faultless, checkout_file-others, checkout_file-Holds, checkout_file-gone,
}

-- Every region has one file: the one discovered, or the one that a missing file resolves to.
pub record Located {World File E : Type 0} (w : WorldTree World File E) (job : CheckoutJob File)
    (files : RegionKey → File) : Type 0 where
  pub apart : (k l : RegionKey) → files k ≡ files l → k ≡ l
  pub known : (key : RegionKey) (f : File) → Map.get job.discovered key ≡ some f → f ≡ files key
  pub target :
      (s : World) (key : RegionKey)
      → Map.get job.groups key ≢ none
      → Map.get job.discovered key ≡ none
      → resolve_target w s job.discovered key job.options.on_missing_file ≡ ok (files key)

-- The regions with present rows are those of a region file, and their rows are stored.
abbrev pub IsReady :
    {File : Type 0}
    → (ChunkHash → Result (List ℕ) StorageError)
    → (ChunkHash → List ℕ)
    → CheckoutJob File
    → Type 0
IsReady fetch payload job =
    (key : RegionKey) (rows : List (ChunkCoord × ChunkHash))
    → Map.get job.groups key ≡ some rows
    → (loc_new key.rx key.rz ≡ ok (loc_at key.rx key.rz))
      × All (IsStored fetch payload key.rx key.rz) rows

module _ {World File E : Type 0} (w : WorldTree World File E)
    (content : World → File → Option (List ℕ)) (payload : ChunkHash → List ℕ)
    (job : CheckoutJob File) (files : RegionKey → File) where
  -- The file of a region is as the job has it: with the present rows, or removed without any.
  abbrev pub IsRestored : World → RegionKey → Type 0
  IsRestored s key =
      ((rows : List (ChunkCoord × ChunkHash))
        → Map.get job.groups key ≡ some rows
        → (bytes : List ℕ) × (content s (files key) ≡ some bytes) × Holds payload key rows bytes)
      × (Map.get job.groups key ≡ none
          → Map.get job.discovered key ≢ none
          → content s (files key) ≡ none)

  module _ (located : Located w job files) where
    region_file-discovered :
        (s : World) (key : RegionKey)
        → Map.get job.discovered key ≢ none
        → region_file w s job key ≡ ok (some (files key))
    unfolding region_file
    region_file-discovered s key h = elim (Option-cases (Map.get job.discovered key)) [
      | inl n ↦ absurd (h n)
      | inr (f, e) ↦ rw (region_file, e) (ap (λ g. ok (some g)) (located.known key f e))
    ]

    region_file-rows :
        (s : World) (key : RegionKey)
        → Map.get job.groups key ≢ none
        → region_file w s job key ≡ ok (some (files key))
    unfolding region_file
    region_file-rows s key h = elim (Option-cases (Map.get job.discovered key)) [
      | inr (f, e) ↦ rw (region_file, e) (ap (λ g. ok (some g)) (located.known key f e))
      | inl n ↦ elim (Option-cases (Map.get job.groups key)) [
        | inl m ↦ absurd (h m)
        | inr (rows, m) ↦ rw (region_file, n, m, located.target s key h n)
      ]
    ]

    region_file-none :
        (s : World) (key : RegionKey)
        → Map.get job.groups key ≡ none
        → Map.get job.discovered key ≡ none
        → region_file w s job key ≡ ok none
    unfolding region_file
    region_file-none s key m n = rw (region_file, n, m)

    -- a region that has a file in the job has its own
    region_file-own :
        (s : World) (key : RegionKey) (f : File)
        → region_file w s job key ≡ ok (some f)
        → f ≡ files key
    region_file-own s key f h = elim (Option-cases (Map.get job.discovered key)) [
      | inr (g, e) ↦ cc (h, region_file-discovered s key (λ n. cc (e, n)))
      | inl n ↦ elim (Option-cases (Map.get job.groups key)) [
        | inl m ↦ cc (h, region_file-none s key m n)
        | inr (rows, m) ↦ cc (h, region_file-rows s key (λ k. cc (m, k)))
      ]
    ]

    module _ (laws : WorldLaws w content) (faultless : Faultless w content)
        (nothing : KeepsNothing job.options) (fetch : ChunkHash → Result (List ℕ) StorageError)
        (ready : IsReady fetch payload job) (timestamp : ℕ) where
      abbrev round : World → CheckoutReport → RegionKey → World × Result CheckoutReport (AppError E)
      round = checkout_file w fetch job timestamp

      round-IsRestored :
          (s : World) (report : CheckoutReport) (key : RegionKey)
          → (report' : CheckoutReport) × ((round s report key).1 ≡ ok report')
            × IsRestored (round s report key).0 key
      round-IsRestored s report key = elim (Option-cases (Map.get job.groups key)) [
        | inr (rows, m) ↦
            let at = region_file-rows s key (λ k. cc (m, k)) in
            let (here, stored) = ready key rows m in
            let (report', bytes, run, left, holds) =
              checkout_file-Holds w fetch job timestamp payload content laws faultless nothing s
                report key (files key) rows at m here stored in
            (
              report',
              run,
              (
                λ rows' m'.
                    let same : rows ≡ rows' = cc (m, m') in
                    (bytes, left, subst (λ r. Holds payload key r bytes) same holds),
                λ bare. absurd (cc (m, bare)),
              ),
            )
        | inl m ↦ elim (Option-cases (Map.get job.discovered key)) [
          | inr (f, n) ↦
              let at = region_file-discovered s key (λ k. cc (n, k)) in
              let (report', run, gone) =
                checkout_file-gone w fetch job timestamp payload content laws faultless nothing s
                  report key (files key) at m in
              (report', run, (λ rows m'. absurd (cc (m, m')), λ _ _. gone))
          | inl n ↦
              let idle : checkout_file w fetch job timestamp s report key ≡ (s, ok report) =
                unfold checkout_file in rw (checkout_file, region_file-none s key m n) in
              (report, rw idle, (λ rows m'. absurd (cc (m, m')), λ _ found. absurd (found n)))
        ]
      ]

      -- The pass touches no file but those of its regions.
      checkout_files-others :
          (keys : List RegionKey) (s : World) (report : CheckoutReport) (g : File)
          → ((key : RegionKey) → contains keys key ≡ true → files key ≢ g)
          → content (checkout_files w fetch job timestamp s report keys).0 g ≡ content s g
      unfolding checkout_files
      checkout_files-others [] s report g h = refl
      checkout_files-others (key ∷ keys) s report g h =
          let (report', run, _) = round-IsRestored s report key in
          let here : files key ≢ g =
            h key (unfold contains in ground (arith, key_ord.beq_iff key key)) in
          let first =
            checkout_file-others w content laws fetch job timestamp s report key g
              (λ f at e. here (sym (region_file-own s key f at) ∙ e)) in
          rw (checkout_files, run)
            (checkout_files-others keys (round s report key).0 report' g
                (λ k i. h k (unfold contains in ground (arith, i)))
              ∙ first)

      IsRestored-same :
          (s s' : World) (key : RegionKey)
          → content s' (files key) ≡ content s (files key)
          → IsRestored s key
          → IsRestored s' key
      IsRestored-same s s' key e (rows, bare) = (
        λ r m. let (bytes, left, holds) = rows r m in (bytes, e ∙ left, holds),
        λ m n. e ∙ bare m n,
      )

      checkout_files-IsRestored :
          (keys : List RegionKey) (s : World) (report : CheckoutReport)
          → (report' : CheckoutReport) × ((checkout_files w fetch job timestamp s report keys).1
              ≡ ok report')
            × ((key : RegionKey)
                → contains keys key ≡ true
                → IsRestored (checkout_files w fetch job timestamp s report keys).0 key)
      unfolding checkout_files
      checkout_files-IsRestored [] s report =
          (report, refl, λ key i. absurd (unfold contains in cc i))
      checkout_files-IsRestored (key ∷ keys) s report =
          let (mid, run, first) = round-IsRestored s report key in
          let (report', run', rest) = checkout_files-IsRestored keys (round s report key).0 mid in
          let later = checkout_files w fetch job timestamp (round s report key).0 mid keys in
          let step : checkout_files w fetch job timestamp s report (key ∷ keys) ≡ later =
            rw (checkout_files, run) in
          (
            report',
            rw step run',
            λ k i. rw step (elim (Bool-cases (contains keys k)) [
              | inl inside ↦ rest k inside
              | inr outside ↦
                  let same : key ≡ k =
                    (key_ord.beq_iff key k).0 (unfold contains in ground (arith, i, outside)) in
                  let absent : (l : RegionKey) → contains keys l ≡ true → files l ≢ files k =
                    λ l j e.
                      let lk : l ≡ k = located.apart l k e in
                      cc (ap (contains keys) lk, j, outside) in
                  IsRestored-same (round s report key).0 later.0 k
                    (checkout_files-others keys (round s report key).0 mid (files k) absent)
                    (subst (IsRestored (round s report key).0) same first)
            ]),
          )

      abbrev listed : List RegionKey
      listed =
          Set.from (Map.keys job.discovered ++ (Map.keys job.groups ++ Map.keys job.tombstones))

      listed-contains :
          (key : RegionKey)
          → (Map.get job.groups key ≢ none) ⊎ (Map.get job.discovered key ≢ none)
          → contains listed key ≡ true
      listed-contains key h = ground (
        arith,
        Set.contains-from key
            (Map.keys job.discovered ++ (Map.keys job.groups ++ Map.keys job.tombstones)),
        contains-append (Map.keys job.discovered) (Map.keys job.groups ++ Map.keys job.tombstones)
            key,
        contains-append (Map.keys job.groups) (Map.keys job.tombstones) key,
        Map.contains-keys job.discovered key,
        Map.contains-keys job.groups key,
      )

      pub checkout_file_pass-IsRestored :
          (s : World)
          → (report : CheckoutReport) × ((checkout_file_pass w fetch job timestamp s).1 ≡ ok report)
            × ((key : RegionKey) → IsRestored (checkout_file_pass w fetch job timestamp s).0 key)
            × ((g : File)
                → ((key : RegionKey) → contains listed key ≡ true → files key ≢ g)
                → content (checkout_file_pass w fetch job timestamp s).0 g ≡ content s g)
      unfolding checkout_file_pass
      checkout_file_pass-IsRestored s =
          let zeros : CheckoutReport = record {
            files_written = 0;
            files_deleted = 0;
            chunks_restored = 0;
          } in
          let (report, run, done) = checkout_files-IsRestored listed s zeros in
          (
            report,
            run,
            λ key. (
              λ rows m. (done key (listed-contains key (inl (λ n. cc (m, n))))).0 rows m,
              λ m n. (done key (listed-contains key (inr n))).1 m n,
            ),
            λ g away. checkout_files-others listed s zeros g away,
          )
