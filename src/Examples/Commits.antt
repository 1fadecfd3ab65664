-- ===== src/Examples/Commits.antt =====
-- A commit of the whole world on the stores in memory: one chunk has changed, one is new.
use sekai.Base.{
  ◌≡◌, refl, not, ◌&&◌, Option, none, some, List, [], ◌∷◌, All, contains, filter, any,
  if◌then◌else◌, ◌==◌, arith,
}
use sekai.Base.Map
use sekai.Base.Set
use sekai.Base.Map.{keys}
use sekai.Base.Outcome.{ok}
use sekai.Util.Coord.{ChunkCoord, RegionKey, region_of, coord_ord, key_ord}
use sekai.Util.Scope.{world, scope_contains, scope_matches}
use sekai.Util.Hash.{ChunkHash, CommitId, chunk_hash_ord}
use sekai.Util.Commit.{Commit}
use sekai.Core.Commit.{Previous, Plan, Ingested, plan_commit, assemble}
use sekai.Core.Commit.Delta.{base_blob, row_of, effective, IsScan, assemble_restores}
use sekai.Core.Commit.BaseState.{IsBase, IsState}
use sekai.Core.Commit.Planned.{plan_commit_exact}
use sekai.Core.Commit.Minimal.{IsChange, assemble_minimal}
use sekai.Examples.Stores.{live, orphan, first, kept, first_commit, mem_meta}

abbrev store : List Commit
store = first_commit ∷ []

abbrev key : RegionKey
key = region_of kept

abbrev pub discovered : List RegionKey
discovered = key ∷ []

abbrev before : Previous
before = record {
  commit = some first_commit;
  state = (kept, record { coord = kept; commit = first; blob = some live }) ∷ [];
}

abbrev pub planned : Plan
planned = record { ingest = discovered; removed = []; discovered = discovered }

-- the chunk that was committed has other content now
abbrev pub scan : ChunkCoord → Option ChunkHash
scan c = if kept == c then some orphan else none

abbrev pub ingested : Ingested
ingested = record {
  entries = record { coord = kept; blob = some orphan } ∷ [];
  present = kept ∷ [];
  new_blobs = 1;
}

pub ingested-IsScan : IsScan scan world ingested
unfolding row_of contains scope_contains
ingested-IsScan = record {
  rows = ((λ e. cc e, refl), tt);
  complete = λ c h. ground arith;
  present-scan = λ c. ground arith;
  inside = λ c h. refl;
}

plan_commit_here : plan_commit mem_meta store discovered world ≡ ok (before, planned)
unfolding plan_commit Map.insert filter Set.from scope_matches keys contains
plan_commit_here = refl

plan_commit_exact_example :
    ((active : Option (Option CommitId)) × (mem_meta.active_ref store ≡ ok active)
      × IsBase mem_meta store active before.commit)
    × IsState mem_meta store before.commit before.state
    × ((k : RegionKey)
        → (contains planned.ingest k ≡ (contains discovered k && scope_matches world k))
          × (contains planned.discovered k ≡ (contains discovered k && scope_matches world k))
          × (contains planned.removed k ≡ (
              any (λ c. region_of c == k) (keys before.state)
              && (scope_matches world k && not (contains discovered k)))))
plan_commit_exact_example =
    plan_commit_exact mem_meta store discovered world before planned plan_commit_here

assemble_restores_example :
    effective before.state (assemble planned before ingested world).entries kept
    ≡ (if scope_contains world kept then scan kept else base_blob before.state kept)
assemble_restores_example =
    assemble_restores planned before ingested world scan ingested-IsScan kept

assemble_minimal_example :
    All (IsChange before.state world scan) (assemble planned before ingested world).entries
assemble_minimal_example =
    assemble_minimal mem_meta store discovered world before planned ingested scan plan_commit_here
      ingested-IsScan
