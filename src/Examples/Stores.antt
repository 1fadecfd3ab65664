-- ===== src/Examples/Stores.antt =====
-- Stores held in memory: a commit with two rows, one of them a tombstone, and blobs in a list.
use sekai.Base.{
  ℕ, ◌∙◌, not, none, some, List, [], ◌∷◌, contains, contains-filter, filter, arith, ◌==◌,
}
use sekai.Base.Outcome.{ok}
use sekai.Util.Coord.{ChunkCoord, region, overworld}
use sekai.Base.Int.{pos, negsuc}
use sekai.Util.Hash.{ChunkHash, CommitId, chunk_hash_ord, chunk_hash_beq_iff}
use sekai.Util.Commit.{Commit, ChunkHistoryEntry}
use sekai.Core.Port.{MetaStore, BlobStore, BlobLaws}

abbrev pub live : ChunkHash
live = record { bytes = 1 ∷ [] }

abbrev pub orphan : ChunkHash
orphan = record { bytes = 2 ∷ [] }

abbrev pub first : CommitId
first = record { bytes = 9 ∷ [] }

abbrev pub kept : ChunkCoord
kept = record { dim = overworld; kind = region; x = pos 1; z = pos 2 }

abbrev pub gone : ChunkCoord
gone = record { dim = overworld; kind = region; x = negsuc 0; z = pos 0 }

abbrev pub first_commit : Commit
first_commit = record { id = first; created_at_ms = 1000; parents = [] }

abbrev pub first_rows : CommitId → List ChunkHistoryEntry
first_rows id =
    record { coord = kept; commit = first; blob = some live }
    ∷ record { coord = gone; commit = first; blob = none }
    ∷ []

abbrev pub mem_meta : MetaStore (List Commit) ℕ
mem_meta = record {
  commit_parents = λ s id. ok [];
  latest_commit = λ s. ok (some first_commit);
  visit_fresh_rows = λ s id. ok (first_rows id);
  visit_commits = λ s. ok s;
  visit_commit_chunks = λ s id. ok (first_rows id);
  lookup_commit = λ s id. ok (some first_commit);
  active_ref = λ s. ok (some (some first));
  lookup_ref = λ s name. ok none;
  apply_commit_incremental = λ s ms parents rows.
      (record { id = first; created_at_ms = ms; parents = parents } ∷ s, ok first);
  retire_commit = λ s from into. (s, ok (record { folded = 0; dropped = 0 }));
}

abbrev pub without : List ChunkHash → ChunkHash → List ChunkHash
without s h = filter (λ k. not (h == k)) s

abbrev pub mem_blobs : BlobStore (List ChunkHash) ℕ
mem_blobs = record {
  holds = λ s h. ok (contains s h);
  visit_blobs = λ s. ok s;
  remove = λ s h. (without s h, ok (contains s h));
}

pub mem_blobs-BlobLaws : BlobLaws mem_blobs (λ s. s)
mem_blobs-BlobLaws = record {
  visit-stored = λ s e. cc e;
  remove-others = λ s h i other. contains-filter (λ k. not (h == k)) s i ∙ rw other (ground arith);
  remove-gone = λ s h e.
      (contains-filter (λ k. not (h == k)) s h ∙ ground (arith, chunk_hash_beq_iff h h), cc e);
}
