-- ===== src/Core/Commit.antt =====
-- crates/core/src/usecase/commit.rs: recording a world state as a commit.
pub mod Delta
pub mod BaseState
pub mod Planned
pub mod Minimal
use sekai.Base.{
  ℕ, suc, zero, ◌+◌, Bool, true, false, not, ◌&&◌, Option, none, some, List, [], ◌∷◌, ◌++◌, map,
  contains, filter, length, if◌then◌else◌, option_beq,
}
use sekai.Base.Outcome.{Result, ok, err, ◌>>=◌}
use sekai.Base.Set
use sekai.Base.Map
use sekai.Base.Map.{keys}
use sekai.Util.Coord.{ChunkCoord, RegionKey, region_of, coord_ord, key_ord}
use sekai.Util.Scope.{Scope, scope_contains, scope_matches}
use sekai.Util.Hash.{ChunkHash, CommitId, chunk_hash_ord}
use sekai.Util.Commit.{Commit, CommitEntry, ChunkHistoryEntry}
use sekai.Core.Port.{MetaStore}

pub record CommitReport : Type 0 where
  pub commit : CommitId
  pub chunks : ℕ
  pub new_blobs : ℕ
  pub tombstones : ℕ

-- the type of `Previous::state`
abbrev pub State : Type 0
State = List (ChunkCoord × ChunkHistoryEntry)

pub record Previous : Type 0 where
  pub commit : Option Commit
  pub state : State

pub record Plan : Type 0 where
  pub ingest : List RegionKey
  pub removed : List RegionKey
  pub discovered : List RegionKey

pub record Assembled : Type 0 where
  pub entries : List CommitEntry
  pub chunks : ℕ
  pub new_blobs : ℕ
  pub tombstones : ℕ
  pub new_files : ℕ
  pub removed : List RegionKey

pub record Ingested : Type 0 where
  pub entries : List CommitEntry
  pub present : List ChunkCoord
  pub new_blobs : ℕ

-- `if entry.blob.is_some() { state.insert(entry.coord, *entry); }`
abbrev pub is_some {ℓ} : {A : Type ℓ} → Option A → Bool
is_some none = false
is_some (some _) = true

-- the visit of the rows of the base commit
unfoldable pub present_rows : List ChunkHistoryEntry → State → State
present_rows [] state = state
present_rows (entry ∷ entries) state =
    present_rows entries (if is_some entry.blob then Map.insert entry.coord entry state else state)

-- the keys of the state that lie in the scope and in no discovered region, as a set of regions
unfoldable pub removed_regions : Scope → List RegionKey → List ChunkCoord → List RegionKey
removed_regions scope discovered coords = Set.from (
    filter (λ key. scope_matches scope key && not (contains discovered key)) (map region_of coords))

-- the part of `plan_commit` that reads no store
unfoldable pub plan_of : List RegionKey → Scope → State → Plan
unfolding removed_regions
plan_of discovered scope state =
    let inside = filter (scope_matches scope) discovered in
    record {
      ingest = inside;
      removed = removed_regions scope (Set.from inside) (keys state);
      discovered = Set.from inside;
    }

module _ {Store M : Type 0} (m : MetaStore Store M) where
  -- the commit that the active ref names
  unfoldable pub base_of : Store → Option (Option CommitId) → Result (Option Commit) M
  base_of store (some (some id)) = m.lookup_commit store id
  base_of store (some none) = ok none
  base_of store none = ok none

  unfoldable pub base_state : Store → Option Commit → Result State M
  unfolding present_rows
  base_state store none = ok []
  base_state store (some base) = do
    rows ← m.visit_commit_chunks store base.id
    ok (present_rows rows [])

  unfoldable pub plan_commit : Store → List RegionKey → Scope → Result (Previous × Plan) M
  unfolding base_of base_state plan_of
  plan_commit store discovered scope = do
    active ← m.active_ref store
    base ← base_of store active
    state ← base_state store base
    ok (record { commit = base; state = state }, plan_of discovered scope state)

-- whether the base commit has no row, or another blob, for the row's chunk
unfoldable pub is_fresh : State → CommitEntry → Bool
is_fresh state entry = elim (Map.get state entry.coord) [
  | none ↦ true
  | some base ↦ not (option_beq base.blob entry.blob)
]

-- whether the row is of a chunk without a row at the base commit
abbrev pub is_new : State → CommitEntry → Bool
is_new state entry = is_some entry.blob && not (is_some (Map.get state entry.coord))

-- the loop over the keys of the state: the coordinates that vanished
unfoldable pub vanished : Scope → List ChunkCoord → List ChunkCoord → List ChunkCoord
vanished scope present coords =
    filter (λ coord. scope_contains scope coord && not (contains present coord)) coords

abbrev pub tombstone : ChunkCoord → CommitEntry
tombstone coord = record { coord = coord; blob = none }

unfoldable pub assemble : Plan → Previous → Ingested → Scope → Assembled
unfolding is_fresh vanished
assemble plan previous ingested scope =
    let fresh = filter (is_fresh previous.state) ingested.entries in
    let gone = vanished scope ingested.present (keys previous.state) in
    record {
      entries = fresh ++ map tombstone gone;
      chunks = length ingested.present;
      new_blobs = ingested.new_blobs;
      tombstones = length gone;
      new_files = length (
          Set.from
            (map (λ (e : CommitEntry). region_of e.coord) (filter (is_new previous.state) fresh)));
      removed = plan.removed;
    }

module _ {Store M : Type 0} (m : MetaStore Store M) where
  unfoldable pub parents_of : Option Commit → List CommitId
  parents_of none = []
  parents_of (some commit) = commit.id ∷ []

  unfoldable pub record_commit : Store → Previous → Assembled → ℕ → Store × Result CommitReport M
  unfolding parents_of
  record_commit store previous staged created_at_ms =
      let out =
        m.apply_commit_incremental store created_at_ms (parents_of previous.commit)
          staged.entries in
      (
        out.0,
        (out.1 >>= λ id. ok (record {
          commit = id;
          chunks = staged.chunks;
          new_blobs = staged.new_blobs;
          tombstones = staged.tombstones;
        })),
      )
