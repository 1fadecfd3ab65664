-- ===== src/Sqlite/Reads.antt =====
-- crates/storage-sqlite/src/meta.rs: the queries.
use sekai.Base.{
  ◌&&◌, Bool, Option, none, some, List, [], ◌∷◌, map, filter, contains, leb, if◌then◌else◌, ◌==◌,
}
use mathlib.Core.Option
use sekai.Base.Set
use sekai.Util.Coord.{ChunkCoord, coord_ord}
use sekai.Util.Hash.{CommitId, commit_id_ord}
use sekai.Util.Commit.{Commit, ChunkHistoryEntry}
use sekai.Sqlite.{CommitRow, HistoryRow, Tables, parents_in, ancestors}

-- `decode_history`
abbrev pub decode_history : HistoryRow → ChunkHistoryEntry
decode_history row = record { coord = row.coord; commit = row.commit; blob = row.blob }

-- SELECT parent_id ... ORDER BY parent_id
unfoldable pub commit_parents : Tables → CommitId → List CommitId
commit_parents t commit = Set.from (parents_in t.edges commit)

abbrev pub newer : HistoryRow → Option HistoryRow → HistoryRow
newer row none = row
newer row (some other) = if leb other.seq row.seq then row else other

-- ORDER BY seq DESC LIMIT 1
unfoldable pub latest : List HistoryRow → Option HistoryRow
latest [] = none
latest (row ∷ rows) = some (newer row (latest rows))

-- the rows that a commit inherits for a coordinate
abbrev pub is_visible : List CommitId → ChunkCoord → HistoryRow → Bool
is_visible ids coord row = row.coord == coord && contains ids row.commit

unfoldable pub visible : Tables → CommitId → ChunkCoord → List HistoryRow
visible t commit coord = filter (is_visible (ancestors t.edges commit) coord) t.history

unfoldable pub effective_row : Tables → CommitId → ChunkCoord → Option HistoryRow
unfolding visible latest
effective_row t commit coord = latest (visible t commit coord)

-- LOOKUP_CHUNK_SQL
unfoldable pub lookup_chunk : Tables → CommitId → ChunkCoord → Option ChunkHistoryEntry
unfolding effective_row
lookup_chunk t commit coord = Option.map decode_history (effective_row t commit coord)

-- the coordinates that have a row at the commit or at one of its ancestors
unfoldable pub known_coords : Tables → CommitId → List ChunkCoord
known_coords t commit = Set.from (
    map (λ (row : HistoryRow). row.coord)
      (filter (λ (row : HistoryRow). contains (ancestors t.edges commit) row.commit) t.history))

unfoldable pub rows_at : Tables → CommitId → List ChunkCoord → List ChunkHistoryEntry
unfolding lookup_chunk
rows_at t commit [] = []
rows_at t commit (coord ∷ coords) =
    let rest = rows_at t commit coords in
    elim (lookup_chunk t commit coord) [ none ↦ rest | some entry ↦ entry ∷ rest ]

-- VISIT_CHUNKS_SQL: the latest row of each coordinate, in the order of the coordinates
unfoldable pub visit_commit_chunks : Tables → CommitId → List ChunkHistoryEntry
unfolding rows_at known_coords
visit_commit_chunks t commit = rows_at t commit (known_coords t commit)

unfoldable pub visit_fresh_rows : Tables → CommitId → List ChunkHistoryEntry
visit_fresh_rows t commit =
    map decode_history (filter (λ (row : HistoryRow). row.commit == commit) t.history)

-- `decode_commit`, with the parents
abbrev pub decode_commit : Tables → CommitRow → Commit
decode_commit t row = record {
  id = row.id;
  created_at_ms = row.created_at_ms;
  parents = commit_parents t row.id;
}

unfoldable pub find_commit : List CommitRow → CommitId → Option CommitRow
find_commit [] id = none
find_commit (row ∷ rows) id = if row.id == id then some row else find_commit rows id

unfoldable pub lookup_commit : Tables → CommitId → Option Commit
unfolding commit_parents find_commit
lookup_commit t id = Option.map (decode_commit t) (find_commit t.commits id)

abbrev pub later_commit : CommitRow → Option CommitRow → CommitRow
later_commit row none = row
later_commit row (some other) = if leb other.seq row.seq then row else other

-- ORDER BY seq DESC LIMIT 1
unfoldable pub last_row : List CommitRow → Option CommitRow
last_row [] = none
last_row (row ∷ rows) = some (later_commit row (last_row rows))

unfoldable pub latest_commit : Tables → Option Commit
unfolding commit_parents last_row
latest_commit t = Option.map (decode_commit t) (last_row t.commits)

-- ORDER BY seq; rows are appended with a new key, so the table is in this order
unfoldable pub visit_commits : Tables → List Commit
unfolding commit_parents
visit_commits t = map (decode_commit t) t.commits
