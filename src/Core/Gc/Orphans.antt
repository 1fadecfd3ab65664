-- ===== src/Core/Gc/Orphans.antt =====
-- What `gc_plan` finds: the stored blobs that no row of a commit names.
use sekai.Base.{
  ◌≡◌, refl, Bool, not, ◌&&◌, ◌||◌, Option, none, some, List, [], ◌∷◌, map, any, All, contains,
  filter, length, arith, contains-filter, option_beq,
}
use sekai.Base.Outcome.{ok}
use sekai.Base.Set.{contains-insert}
use sekai.Util.Hash.{ChunkHash, CommitId, chunk_hash_ord}
use sekai.Util.Commit.{Commit, ChunkHistoryEntry, GcPlan}
use sekai.Core.Port.{MetaStore, BlobStore}
use sekai.Core.Gc.{add_blob, add_rows, add_commits, gc_plan}

-- whether some row names the blob
abbrev pub rows_name : List ChunkHistoryEntry → ChunkHash → Bool
rows_name rows h = any (λ (e : ChunkHistoryEntry). option_beq e.blob (some h)) rows

-- whether a row of one of the commits names the blob
unfoldable pub commits_name : (CommitId → List ChunkHistoryEntry) → List Commit → ChunkHash → Bool
commits_name rows commits h = any (λ (c : Commit). rows_name (rows c.id) h) commits

-- a store whose commits can be read, and their rows
module _ {Store M : Type 0} (m : MetaStore Store M) where
  abbrev pub CanRead : Store → List Commit → (CommitId → List ChunkHistoryEntry) → Type 0
  CanRead store commits rows =
      (m.visit_commits store ≡ ok commits)
      × All (λ (c : Commit). m.visit_commit_chunks store c.id ≡ ok (rows c.id)) commits

contains-add_blob :
    (blob : Option ChunkHash) (referenced : List ChunkHash) (h : ChunkHash)
    → contains (add_blob blob referenced) h ≡ (option_beq blob (some h) || contains referenced h)
unfolding add_blob
contains-add_blob none referenced h = refl
contains-add_blob (some k) referenced h = contains-insert k h referenced

contains-add_rows :
    (rows : List ChunkHistoryEntry) (referenced : List ChunkHash) (h : ChunkHash)
    → contains (add_rows rows referenced) h ≡ (rows_name rows h || contains referenced h)
unfolding add_rows
contains-add_rows [] referenced h = refl
contains-add_rows (e ∷ rows) referenced h = ground (
  arith,
  contains-add_rows rows (add_blob e.blob referenced) h,
  contains-add_blob e.blob referenced h,
)

module _ {Blobs Store B M : Type 0} (b : BlobStore Blobs B) (m : MetaStore Store M) where
  add_commits-ok :
      (store : Store) (commits : List Commit) (rows : CommitId → List ChunkHistoryEntry)
      (referenced : List ChunkHash)
      → All (λ (c : Commit). m.visit_commit_chunks store c.id ≡ ok (rows c.id)) commits
      → (found : List ChunkHash) × (add_commits b m store
            (map (λ (c : Commit). c.id) commits)
            referenced
          ≡ ok found)
        × ((h : ChunkHash)
            → contains found h ≡ (commits_name rows commits h || contains referenced h))
  unfolding add_commits commits_name
  add_commits-ok store [] rows referenced h = (referenced, refl, λ _. refl)
  add_commits-ok store (c ∷ cs) rows referenced (read, rest) =
      let (found, e, has) = add_commits-ok store cs rows (add_rows (rows c.id) referenced) rest in
      (found, rw (read) e, λ h. ground (arith, has h, contains-add_rows (rows c.id) referenced h))

  -- On a store whose commits, rows and blobs can be read, planning succeeds. The candidates are
  -- exactly the stored blobs that no row of a commit names, and every stored blob was examined.
  pub gc_plan_exact :
      (blobs : Blobs) (store : Store) (commits : List Commit)
      (rows : CommitId → List ChunkHistoryEntry) (hashes : List ChunkHash)
      → CanRead m store commits rows
      → b.visit_blobs blobs ≡ ok hashes
      → (plan : GcPlan) × (gc_plan b m blobs store ≡ ok plan)
        × (plan.examined ≡ length hashes)
        × ((h : ChunkHash)
            → contains plan.orphans h ≡ (contains hashes h && not (commits_name rows commits h)))
  unfolding gc_plan contains
  gc_plan_exact blobs store commits rows hashes (listed, read) visited =
      let (found, e, has) = add_commits-ok store commits rows [] read in
      (
        record {
          orphans = filter (λ hash. not (contains found hash)) hashes;
          examined = length hashes;
        },
        rw (listed, e, visited),
        refl,
        λ h.
            rw (contains-filter (λ hash. not (contains found hash)) hashes h, has h) (ground arith),
      )
