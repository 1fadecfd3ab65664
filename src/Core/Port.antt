-- ===== src/Core/Port.antt =====
-- crates/core/src/port: the two storage traits, as records of the operations that the use cases
-- call. A visit stands for the list that a visitor which never stops is given.
use sekai.Base.{ℕ, ◌≡◌, Bool, false, Option, List, contains, ◌==◌}
use sekai.Base.Outcome.{Result, ok}
use sekai.Util.Hash.{ChunkHash, CommitId, chunk_hash_ord}
use sekai.Util.Name.{RefName}
use sekai.Util.Commit.{Commit, CommitEntry, ChunkHistoryEntry, FoldOutcome}

-- `MetaStore`, over the state `Store` of its backend
pub record MetaStore (Store E : Type 0) : Type 0 where
  pub commit_parents : Store → CommitId → Result (List CommitId) E
  pub latest_commit : Store → Result (Option Commit) E
  pub visit_fresh_rows : Store → CommitId → Result (List ChunkHistoryEntry) E
  pub visit_commits : Store → Result (List Commit) E
  pub visit_commit_chunks : Store → CommitId → Result (List ChunkHistoryEntry) E
  pub lookup_commit : Store → CommitId → Result (Option Commit) E
  -- the target of the active ref: none without such a ref, `some none` when it is unborn
  pub active_ref : Store → Result (Option (Option CommitId)) E
  -- the target of the ref of a name: none without such a ref, `some none` when it is unborn
  pub lookup_ref : Store → RefName → Result (Option (Option CommitId)) E
  pub apply_commit_incremental :
      Store → ℕ → List CommitId → List CommitEntry → Store × Result CommitId E
  pub retire_commit : Store → CommitId → CommitId → Store × Result FoldOutcome E

-- `BlobStore`, over the state `Blobs` of its backend
pub record BlobStore (Blobs E : Type 0) : Type 0 where
  pub holds : Blobs → ChunkHash → Result Bool E
  pub visit_blobs : Blobs → Result (List ChunkHash) E
  pub remove : Blobs → ChunkHash → Blobs × Result Bool E

-- What the trait documents of a backend whose content is `stored`: a visit that succeeds lists the
-- content, removing a blob touches no other blob, and a removal that succeeds leaves it absent and
-- says whether it was there.
pub record BlobLaws {Blobs E : Type 0} (b : BlobStore Blobs E) (stored : Blobs → List ChunkHash)
    : Type 0 where
  pub visit-stored : (s : Blobs) {hs : List ChunkHash} → b.visit_blobs s ≡ ok hs → hs ≡ stored s
  pub remove-others :
      (s : Blobs) (h i : ChunkHash)
      → (h == i) ≡ false
      → contains (stored (b.remove s h).0) i ≡ contains (stored s) i
  pub remove-gone :
      (s : Blobs) (h : ChunkHash) {r : Bool}
      → (b.remove s h).1 ≡ ok r
      → (contains (stored (b.remove s h).0) h ≡ false) × (contains (stored s) h ≡ r)
