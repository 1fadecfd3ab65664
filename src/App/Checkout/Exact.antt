-- ===== src/App/Checkout/Exact.antt =====
-- crates/app/src/checkout.rs: the world after a checkout, against the rows of the commit.
use mathlib.Core.Path.{subst}
use sekai.Base.{
  ◌≡◌, ◌≢◌, refl, sym, ap, ◌∙◌, inl, inr, true, Option, none, some, ℕ, List, [], ◌∷◌, ◌++◌, arith,
  All, Option-cases, contains, contains-append, filter, if◌then◌else◌, ◌==◌,
}
use sekai.Base.Outcome.{Result, ok}
use sekai.Base.Map
use sekai.Base.Set
use sekai.Util.Coord.{ChunkCoord, RegionKey, key_ord}
use sekai.Util.Hash.{ChunkHash, CommitId}
use sekai.Util.Commit.{Commit, ChunkHistoryEntry}
use sekai.Util.Scope.{Scope, scope_matches}
use sekai.Anvil.Region.{loc_new}
use sekai.Anvil.Region.Slots.{loc_at}
use sekai.Sqlite.{StorageError}
use sekai.Core.Port.{MetaStore}
use sekai.Core.Checkout.{CheckoutPlan, CheckoutReport}
use sekai.Core.Checkout.Grouped.{present_in, entry_of, plan_checkout_exact}
use sekai.App.World.{WorldTree, WorldLaws}
use sekai.App.Regions.{discover_regions}
use sekai.App.Checkout.{CheckoutOptions, CheckoutJob, resolve_target, timestamp_of}
use sekai.App.Checkout.Run.{checkout_world, checkout_file_pass, checkout_job, in_scope}
use sekai.App.Checkout.Staged.{IsStored}
use sekai.App.Checkout.Rebuilt.{KeepsNothing, Holds, Faultless}
use sekai.App.Checkout.Restored.{Located, IsReady, checkout_file_pass-IsRestored}

module _ {V : Type 0} (scope : Scope) where
  get-in_scope :
      (m : List (RegionKey × V)) (key : RegionKey)
      → Map.get (in_scope scope m) key ≡ (if scope_matches scope key then Map.get m key else none)
  unfolding in_scope Map.get filter
  get-in_scope [] key = ground arith
  get-in_scope ((k, v) ∷ m) key =
      let same : (k == key) ≡ true → scope_matches scope k ≡ scope_matches scope key =
        λ e. ap (scope_matches scope) ((key_ord.beq_iff k key).0 e) in
      ground (arith, get-in_scope m key, same)

  -- the keys in a scope match it
  keys-in_scope :
      (m : List (RegionKey × V)) (key : RegionKey)
      → contains (Map.keys (in_scope scope m)) key ≡ true
      → scope_matches scope key ≡ true
  keys-in_scope m key h =
      ground (arith, h, Map.contains-keys (in_scope scope m) key, get-in_scope m key)

  in_scope-found :
      (m : List (RegionKey × V)) (key : RegionKey) (v : V)
      → Map.get (in_scope scope m) key ≡ some v
      → (scope_matches scope key ≡ true) × (Map.get m key ≡ some v)
  in_scope-found m key v h = ground (arith, h, get-in_scope m key)

-- so do all keys of a job
listed-in_scope :
    {A B C : Type 0} (scope : Scope) (a : List (RegionKey × A)) (b : List (RegionKey × B))
    (c : List (RegionKey × C)) (key : RegionKey)
    → contains
        (Set.from (
          Map.keys (in_scope scope a)
          ++ (Map.keys (in_scope scope b) ++ Map.keys (in_scope scope c))))
        key
      ≡ true
    → scope_matches scope key ≡ true
listed-in_scope scope a b c key h =
    let first = Map.keys (in_scope scope a) in
    let second = Map.keys (in_scope scope b) in
    let third = Map.keys (in_scope scope c) in
    ground (
      arith,
      h,
      Set.contains-from key (first ++ (second ++ third)),
      contains-append first (second ++ third) key,
      contains-append second third key,
      keys-in_scope scope a key,
      keys-in_scope scope b key,
      keys-in_scope scope c key,
    )

entry_of-some {ℓ} : {A : Type ℓ} (xs ys : List A) → entry_of xs ≡ some ys → (xs ≡ ys) × (xs ≢ [])
entry_of-some [] ys h = cc
entry_of-some (x ∷ xs) ys h = (cc, λ e. cc e)

entry_of-full {ℓ} : {A : Type ℓ} (xs : List A) → xs ≢ [] → entry_of xs ≡ some xs
entry_of-full [] h = absurd (h refl)
entry_of-full (x ∷ xs) h = refl

ready_in_scope :
    {File : Type 0} (plan : CheckoutPlan) (discovered : List (RegionKey × File))
    (options : CheckoutOptions) (scope : Scope) (rows : List ChunkHistoryEntry) (key : RegionKey)
    → Map.get plan.groups key ≡ entry_of (present_in key rows)
    → (found : List (ChunkCoord × ChunkHash))
    → Map.get (checkout_job plan discovered options scope).groups key ≡ some found
    → (scope_matches scope key ≡ true) × (present_in key rows ≡ found) × (present_in key rows ≢ [])
ready_in_scope plan discovered options scope rows key held found h =
    let (inside, at) = in_scope-found scope plan.groups key found h in
    let (same, full) = entry_of-some (present_in key rows) found (sym held ∙ at) in
    (inside, same, full)

module _ {World File E Store : Type 0} (w : WorldTree World File E)
    (content : World → File → Option (List ℕ)) (laws : WorldLaws w content)
    (faultless : Faultless w content) (m : MetaStore Store StorageError) (store : Store)
    (fetch : ChunkHash → Result (List ℕ) StorageError) (payload : ChunkHash → List ℕ)
    (files : RegionKey → File) where
  -- Checking out a recorded commit under policies that keep nothing succeeds, where the blobs of
  -- the rows in the scope are stored and fit their regions, each region has a file of its own (the
  -- discovered one, or the one that a missing file resolves to), and files can be read, written
  -- and removed. Afterwards the file of a region in the scope holds exactly the chunks of the
  -- commit in that region, or is gone if the commit has none there, and no other file has changed.
  pub checkout_world_exact :
      (s : World) (id : CommitId) (options : CheckoutOptions) (scope : Scope) (commit : Commit)
      (rows : List ChunkHistoryEntry) (discovered : List (RegionKey × File))
      → KeepsNothing options
      → m.lookup_commit store id ≡ ok (some commit)
      → m.visit_commit_chunks store id ≡ ok rows
      → discover_regions w s ≡ ok discovered
      → ((k l : RegionKey) → files k ≡ files l → k ≡ l)
      → ((key : RegionKey) (f : File) → Map.get discovered key ≡ some f → f ≡ files key)
      → ((s' : World) (key : RegionKey)
          → scope_matches scope key ≡ true
          → present_in key rows ≢ []
          → Map.get discovered key ≡ none
          → resolve_target w s' (in_scope scope discovered) key options.on_missing_file
            ≡ ok (files key))
      → ((key : RegionKey)
          → scope_matches scope key ≡ true
          → present_in key rows ≢ []
          → (loc_new key.rx key.rz ≡ ok (loc_at key.rx key.rz))
            × All (IsStored fetch payload key.rx key.rz) (present_in key rows))
      → (report : CheckoutReport) × ((checkout_world w m store fetch s id options scope).1
          ≡ ok report)
        × ((key : RegionKey)
            → scope_matches scope key ≡ true
            → (present_in key rows ≢ []
                → (bytes : List ℕ) × (content
                      (checkout_world w m store fetch s id options scope).0
                      (files key)
                    ≡ some bytes)
                  × Holds payload key (present_in key rows) bytes)
              × (present_in key rows ≡ []
                  → Map.get discovered key ≢ none
                  → content (checkout_world w m store fetch s id options scope).0 (files key)
                    ≡ none))
        × ((g : File)
            → ((key : RegionKey) → scope_matches scope key ≡ true → files key ≢ g)
            → content (checkout_world w m store fetch s id options scope).0 g ≡ content s g)
  checkout_world_exact s id options scope commit rows discovered nothing found read regions apart
        known target stored =
      let (plan, planned, _, grouped) = plan_checkout_exact m store id commit rows found read in
      let job : CheckoutJob File = checkout_job plan discovered options scope in
      let runs : checkout_world w m store fetch s id options scope
          ≡ checkout_file_pass w fetch job (timestamp_of plan.created_at_ms) s =
        unfold checkout_world in rw (checkout_world, planned, regions) in
      let job_discovered : (key : RegionKey)
          → scope_matches scope key ≡ true
          → Map.get job.discovered key ≡ Map.get discovered key =
        λ key inside. rw inside at (get-in_scope scope discovered key) in
      let job_groups : (key : RegionKey)
          → scope_matches scope key ≡ true
          → Map.get job.groups key ≡ entry_of (present_in key rows) =
        λ key inside. (rw inside at (get-in_scope scope plan.groups key)) ∙ (grouped key).0 in
      let ready : IsReady fetch payload job = λ key found h.
        let (inside, same, full) =
          ready_in_scope plan discovered options scope rows key (grouped key).0 found h in
        let (here, fits) = stored key inside full in
        (here, subst (λ r. All (IsStored fetch payload key.rx key.rz) r) same fits) in
      let located : Located w job files = record {
        apart = apart;
        known = λ key f h. known key f (in_scope-found scope discovered key f h).1;
        target = λ s' key full missing. elim (Option-cases (Map.get job.groups key)) [
          | inl bare ↦ absurd (full bare)
          | inr (present, at) ↦
              let (inside, _, some_rows) =
                ready_in_scope plan discovered options scope rows key (grouped key).0 present at in
              target s' key inside some_rows (sym (job_discovered key inside) ∙ missing)
        ];
      } in
      let (report, run, done, others) =
        checkout_file_pass-IsRestored w content payload job files located laws faultless nothing
          fetch ready (timestamp_of plan.created_at_ms) s in
      rw runs (
        report,
        run,
        λ key inside. (
          λ full. (done key).0 (present_in key rows) (job_groups key inside ∙ entry_of-full _ full),
          λ bare there.
              (done key).1 (job_groups key inside ∙ ap entry_of bare)
                (λ n. there (sym (job_discovered key inside) ∙ n)),
        ),
        λ g away. others g (λ key i.
            away key (listed-in_scope scope discovered plan.groups plan.tombstones key i)),
      )
