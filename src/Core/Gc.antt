-- ===== src/Core/Gc.antt =====
-- crates/core/src/usecase/gc.rs: garbage collection over the blob and metadata ports.
pub mod Orphans
pub mod Apply
use sekai.Base.{
  ℕ, suc, ◌+◌, Bool, true, false, not, Option, none, some, List, [], ◌∷◌, map, contains, filter,
  length, if◌then◌else◌,
}
use sekai.Base.Outcome.{Result, ok, err, map_err, ◌>>=◌}
use sekai.Base.Set
use sekai.Util.Hash.{ChunkHash, CommitId, chunk_hash_ord}
use sekai.Util.Commit.{Commit, ChunkHistoryEntry, GcPlan}
use sekai.Core.Port.{MetaStore, BlobStore}

pub data GcError (B M : Type 0) : Type 0 where
  blob : B → GcError B M
  meta : M → GcError B M

pub record GcReport : Type 0 where
  pub candidates : ℕ
  pub orphans : ℕ
  pub removed : ℕ

-- `if let Some(blob) = entry.blob { referenced.insert(blob); }`
unfoldable pub add_blob : Option ChunkHash → List ChunkHash → List ChunkHash
add_blob none referenced = referenced
add_blob (some hash) referenced = Set.insert hash referenced

-- the visit of the rows of one commit
unfoldable pub add_rows : List ChunkHistoryEntry → List ChunkHash → List ChunkHash
unfolding add_blob
add_rows [] referenced = referenced
add_rows (entry ∷ entries) referenced = add_rows entries (add_blob entry.blob referenced)

module _ {Blobs Store B M : Type 0} (b : BlobStore Blobs B) (m : MetaStore Store M) where
  -- the loop of `gc_plan` over the commits
  unfoldable pub add_commits :
      Store → List CommitId → List ChunkHash → Result (List ChunkHash) (GcError B M)
  unfolding add_rows
  add_commits store [] referenced = ok referenced
  add_commits store (id ∷ ids) referenced = do
    rows ← map_err meta (m.visit_commit_chunks store id)
    add_commits store ids (add_rows rows referenced)

  unfoldable pub gc_plan : Blobs → Store → Result GcPlan (GcError B M)
  unfolding add_commits
  gc_plan blobs store = do
    commits ← map_err meta (m.visit_commits store)
    referenced ← add_commits store (map (λ (c : Commit). c.id) commits) []
    hashes ← map_err blob (b.visit_blobs blobs)
    ok (record {
      orphans = filter (λ hash. not (contains referenced hash)) hashes;
      examined = length hashes;
    })

module _ {Blobs Store B M P : Type 0} (b : BlobStore Blobs B) (m : MetaStore Store M) where
  -- What a run leaves: the blobs, the state of the `progress` callback, the result.
  -- the loop of `gc_apply` over the candidates, with its counters
  unfoldable pub apply_loop :
      (progress : P → ℕ → ℕ → P) (total : ℕ) (still_orphan candidates : List ChunkHash)
      → ℕ
      → ℕ
      → ℕ
      → Blobs
      → P
      → Blobs × P × Result GcReport (GcError B M)
  apply_loop progress total still_orphan [] done orphans removed blobs p =
      (blobs, p, ok (record { candidates = total; orphans = orphans; removed = removed }))
  apply_loop progress total still_orphan (hash ∷ hashes) done orphans removed blobs p =
      elim (contains still_orphan hash) [
        | false ↦
            apply_loop progress total still_orphan hashes (done + 1) orphans removed blobs
              (progress p (done + 1) total)
        | true ↦ elim (b.remove blobs hash).1 [
          | err e ↦ ((b.remove blobs hash).0, p, err (blob e))
          | ok gone ↦
              apply_loop progress total still_orphan hashes (done + 1) (orphans + 1)
                (if gone then removed + 1 else removed) (b.remove blobs hash).0
                (progress p (done + 1) total)
        ]
      ]

  unfoldable pub gc_apply :
      (progress : P → ℕ → ℕ → P)
      → Blobs
      → Store
      → GcPlan
      → P
      → Blobs × P × Result GcReport (GcError B M)
  unfolding apply_loop gc_plan
  gc_apply progress blobs store plan p = elim (gc_plan b m blobs store) [
    | err e ↦ (blobs, p, err e)
    | ok fresh ↦
        apply_loop progress (length plan.orphans) (Set.from fresh.orphans) plan.orphans 0 0 0 blobs
          p
  ]
