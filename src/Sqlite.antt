-- ===== src/Sqlite.antt =====
-- crates/storage-sqlite/src/meta.rs: commit metadata in an SQLite database. A table is the list of its
-- rows, decoded; a statement is a function on the tables, and a transaction that is rolled back leaves
-- them as they were. `sqlx::Error` is the error `backend`, which stands here for a constraint that an
-- insert breaks.
pub mod Closure
pub mod Reads
pub mod Writes
pub mod Retire
pub mod Refs
pub mod Scopes
pub mod Edges
pub mod Store
pub mod Prune
pub mod Open
pub mod WellFormed
pub mod Latest
pub mod Visible
use sekai.Base.{
  ℕ, zero, suc, ◌+◌, ◌++◌, ◌^◌, contains, length, Bool, true, false, Option, none, some, List, [],
  ◌∷◌, map, filter, ltb, if◌then◌else◌, ◌==◌,
}
use sekai.Base.Outcome.{Result, ok, err}
use sekai.Util.Coord.{ChunkCoord}
use sekai.Util.Hash.{ChunkHash, CommitId, commit_id_ord}
use sekai.Util.Name.{RefName}

pub record CommitRow : Type 0 where
  pub seq : ℕ
  pub id : CommitId
  pub created_at_ms : ℕ

-- a row of `chunk_history`
pub record HistoryRow : Type 0 where
  pub commit : CommitId
  pub seq : ℕ
  pub coord : ChunkCoord
  pub blob : Option ChunkHash

-- a row of `commit_parents`: the child, then the parent
abbrev pub Edge : Type 0
Edge = CommitId × CommitId

-- a row of `refs`, under its name
pub record RefRow : Type 0 where
  pub commit : Option CommitId
  pub active : Bool
  pub created_at_ms : ℕ

-- The tables, and the next value of the key `seq`. Those with a key are in its order.
pub record Tables : Type 0 where
  pub commits : List CommitRow
  pub edges : List Edge
  pub history : List HistoryRow
  pub refs : List (RefName × RefRow)
  pub next_seq : ℕ

-- the errors of crates/storage that the store returns
pub data StorageError : Type 0 where
  invalid_timestamp : ℕ → StorageError
  unknown_commit : CommitId → StorageError
  unknown_ref : RefName → StorageError
  no_active_ref : StorageError
  not_continuing : CommitId → StorageError
  invalid_retirement : CommitId → CommitId → StorageError
  unrelated_retirement : CommitId → CommitId → StorageError
  active_ref_protected : RefName → StorageError
  blob_missing : ChunkHash → StorageError
  invalid_scope_name empty_scope : List ℕ → StorageError
  backend : StorageError

unfoldable pub millis_param : ℕ → Result ℕ StorageError
millis_param ms = if ltb ms (2 ^ 63) then ok ms else err (invalid_timestamp ms)

-- SELECT seq FROM commits WHERE id = ?
unfoldable pub seq_in : List CommitRow → CommitId → Option ℕ
seq_in [] id = none
seq_in (row ∷ rows) id = if row.id == id then some row.seq else seq_in rows id

-- SELECT parent_id FROM commit_parents WHERE child_id = ?
unfoldable pub parents_in : List Edge → CommitId → List CommitId
parents_in edges child = map (λ (e : Edge). e.1) (filter (λ (e : Edge). e.0 == child) edges)

-- WITH RECURSIVE ancestors ... UNION ...: a queue of rows, in which a row that was seen is dropped
unfoldable pub close : List Edge → ℕ → List CommitId → List CommitId → List CommitId
unfolding parents_in
close edges zero seen queue = seen
close edges (suc fuel) seen [] = seen
close edges (suc fuel) seen (id ∷ queue) = elim (contains seen id) [
  | true ↦ close edges fuel seen queue
  | false ↦ close edges fuel (id ∷ seen) (queue ++ parents_in edges id)
]

-- the commit itself and every commit reachable through parent links
unfoldable pub ancestors : List Edge → CommitId → List CommitId
unfolding close
ancestors edges seed = close edges (length edges + 2) [] (seed ∷ [])
