-- ===== src/Sqlite/Store/Restore.antt =====
-- Recording a scan of a world in the SQLite store: what the new commit holds.
use sekai.Base.{ℕ, ◌≡◌, refl, sym, ap, ◌∙◌, Option, none, some, List, if◌then◌else◌}
use mathlib.Core.Option
use sekai.Base.Outcome.{Result, ok, err, ◌>>=◌, ok-injective}
use sekai.Base.Map
use sekai.Util.Coord.{ChunkCoord, RegionKey}
use sekai.Util.Scope.{Scope, scope_contains}
use sekai.Util.Hash.{ChunkHash, CommitId}
use sekai.Util.Commit.{Commit}
use sekai.Core.Commit.{
  State, Previous, Plan, Ingested, Assembled, CommitReport, plan_commit, base_state, assemble,
  record_commit, parents_of,
}
use sekai.Core.Commit.Delta.{IsScan, effective, unwrap_or, base_blob, row_of, assemble_restores}
use sekai.Core.Commit.Planned.{plan_commit-eq-ok}
use sekai.Sqlite.{Tables, StorageError, seq_in}
use sekai.Sqlite.Latest.{inherited}
use sekai.Sqlite.Writes.{apply_commit_incremental}
use sekai.Sqlite.Writes.Effect.{chain, at_base, given, apply_commit_incremental-state}
use sekai.Sqlite.Store.{committed, sqlite_meta}
use sekai.Sqlite.Store.Visits.{present, base_blob-visit}
use sekai.Sqlite.WellFormed.{WellFormed}

abbrev pub base_id : Option Commit → Option CommitId
base_id base = Option.map (λ (commit : Commit). commit.id) base

parents-chain :
    (hash_bytes : List ℕ → List ℕ) (base : Option Commit)
    → parents_of (sqlite_meta hash_bytes) base ≡ chain (base_id base)
unfolding parents_of
parents-chain hash_bytes none = refl
parents-chain hash_bytes (some commit) = refl

-- a commit that was reported was applied
module _ (t after : Tables) (staged : Assembled) (report : CommitReport) where
  abbrev reported : CommitId → CommitReport
  reported id = record {
    commit = id;
    chunks = staged.chunks;
    new_blobs = staged.new_blobs;
    tombstones = staged.tombstones;
  }

  committed-ok :
      (out : Result (Tables × CommitId) StorageError)
      → (committed t out).0 ≡ after
      → ((committed t out).1 >>= λ id. ok (reported id)) ≡ ok report
      → out ≡ ok (after, report.commit)
  unfolding committed
  committed-ok (err e) h k = absurd (cc k)
  committed-ok (ok (made, id)) h k =
      let named : id ≡ report.commit = ap (λ (r : CommitReport). r.commit) (ok-injective k) in
      ap (λ z. ok (z, id)) h ∙ ap (λ z. ok (after, z)) named

  record_commit-applied :
      (hash_bytes : List ℕ → List ℕ) (previous : Previous) (ms : ℕ)
      → record_commit (sqlite_meta hash_bytes) t previous staged ms ≡ (after, ok report)
      → apply_commit_incremental hash_bytes t ms (chain (base_id previous.commit)) staged.entries
        ≡ ok (after, report.commit)
  unfolding record_commit
  record_commit-applied hash_bytes previous ms h =
      ap (λ ps. apply_commit_incremental hash_bytes t ms ps staged.entries)
        (sym (parents-chain hash_bytes previous.commit))
      ∙ committed-ok _ (ap (λ (o : Tables × Result CommitReport StorageError). o.0) h)
          (ap (λ (o : Tables × Result CommitReport StorageError). o.1) h)

-- own rows over the base, as the use case and as the store say it
given-unwrap :
    (t : Tables) (base : Option CommitId) (c : ChunkCoord) (o : Option (Option ChunkHash))
    (b : Option ChunkHash)
    → b ≡ present (at_base t base c)
    → present (given t base c o) ≡ unwrap_or o b
given-unwrap t base c none b h = sym h
given-unwrap t base c (some a) b h = refl

-- the content that a plan saw of a chunk is what the base inherits
plan_sees :
    (hash_bytes : List ℕ → List ℕ) (t : Tables) (base : Option Commit) (state : State)
    → base_state (sqlite_meta hash_bytes) t base ≡ ok state
    → (c : ChunkCoord) → base_blob state c ≡ present (at_base t (base_id base) c)
unfolding base_state Map.get
plan_sees hash_bytes t none state h c = ap (λ s. base_blob s c) (sym (ok-injective h))
plan_sees hash_bytes t (some base) state h c =
    ap (λ s. base_blob s c) (sym (ok-injective h)) ∙ base_blob-visit t base.id c

module _ (hash_bytes : List ℕ → List ℕ) where
  -- On well-formed tables, a scan of a scope, recorded over the plan that `plan_commit` made, under an identity
  -- that is new, gives a commit that holds the scanned content for every chunk of the scope, and for every other
  -- chunk the content that the base of the plan has.
  pub record_commit-restores :
      (t : Tables) (discovered : List RegionKey) (scope : Scope) (previous : Previous) (plan : Plan)
      (scan : ChunkCoord → Option ChunkHash) (ingested : Ingested) (ms : ℕ) (after : Tables)
      (report : CommitReport)
      → WellFormed t
      → plan_commit (sqlite_meta hash_bytes) t discovered scope ≡ ok (previous, plan)
      → IsScan scan scope ingested
      → record_commit (sqlite_meta hash_bytes) t previous (assemble plan previous ingested scope) ms
        ≡ (after, ok report)
      → seq_in t.commits report.commit ≡ none
      → (c : ChunkCoord)
      → present (inherited after report.commit c) ≡ (
          if scope_contains scope c
          then scan c
          else present (at_base t (base_id previous.commit) c))
  unfolding effective
  record_commit-restores t discovered scope previous plan scan ingested ms after report wf planned
        is recorded new c =
      let staged = assemble plan previous ingested scope in
      let base = base_id previous.commit in
      let applied = record_commit-applied t after staged report hash_bytes previous ms recorded in
      let (read, _) =
        plan_commit-eq-ok (sqlite_meta hash_bytes) t discovered scope previous plan planned in
      let seen = plan_sees hash_bytes t previous.commit previous.state read c in
      ap present (
        apply_commit_incremental-state hash_bytes t ms base staged.entries after report.commit wf
          new applied c)
      ∙ given-unwrap t base c (row_of staged.entries c) (base_blob previous.state c) seen
      ∙ assemble_restores plan previous ingested scope scan is c
      ∙ ap (λ b. if scope_contains scope c then scan c else b) seen
