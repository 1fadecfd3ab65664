-- ===== src/Util/Commit.antt =====
-- crates/util/src: the metadata of commit.rs, history.rs, gc.rs and the rows of region.rs.
use sekai.Base.{ℕ, Option, List}
use sekai.Util.Coord.{ChunkCoord}
use sekai.Util.Hash.{ChunkHash, CommitId}

pub record Commit : Type 0 where
  pub id : CommitId
  pub created_at_ms : ℕ
  pub parents : List CommitId

pub record ChunkHistoryEntry : Type 0 where
  pub coord : ChunkCoord
  pub commit : CommitId
  pub blob : Option ChunkHash

pub record CommitEntry : Type 0 where
  pub coord : ChunkCoord
  pub blob : Option ChunkHash

pub record GcPlan : Type 0 where
  pub orphans : List ChunkHash
  pub examined : ℕ

-- `FoldOutcome` of region.rs
pub record FoldOutcome : Type 0 where
  pub folded : ℕ
  pub dropped : ℕ
