-- ===== src/Sqlite/Writes.antt =====
-- crates/storage-sqlite/src/meta.rs: recording commits and rows.
pub mod Fresh
pub mod Effect
pub mod State
pub mod History
pub mod Sound
use sekai.Base.{
  ℕ, suc, ◌+◌, Bool, true, false, not, ◌&&◌, ◌||◌, Option, none, some, List, [], ◌∷◌, ◌++◌, map,
  any, contains, filter, if◌then◌else◌, ◌==◌,
}
use sekai.Base.Outcome.{Result, ok, err, ok_or, refuse, ◌>>=◌, ◌>>◌}
use sekai.Base.Set
use sekai.Util.Coord.{ChunkCoord, coord_ord}
use sekai.Util.Hash.{ChunkHash, CommitId, commit_id_ord}
use sekai.Util.Commit.{CommitEntry}
use sekai.Core.Identity.{commit_hash}
use sekai.Sqlite.{
  CommitRow, HistoryRow, Edge, RefRow, Tables, StorageError, unknown_commit, no_active_ref,
  not_continuing, backend, millis_param, seq_in,
}
use sekai.Util.Name.{RefName}

-- the loop that looks for each parent among the ids that were found
unfoldable pub check_parents : List CommitRow → List CommitId → Result (Unit {0}) StorageError
check_parents commits [] = ok tt
check_parents commits (p ∷ ps) = elim (seq_in commits p) [
  | none ↦ err (unknown_commit p)
  | some _ ↦ check_parents commits ps
]

-- whether the table has an edge
unfoldable pub has_edge : List Edge → CommitId → CommitId → Bool
has_edge edges child parent = any (λ (e : Edge). e.0 == child && e.1 == parent) edges

-- INSERT OR IGNORE INTO commit_parents
unfoldable pub add_edge : List Edge → CommitId → CommitId → List Edge
unfolding has_edge
add_edge edges child parent =
    if has_edge edges child parent then edges else edges ++ (child, parent) ∷ []

unfoldable pub add_edges : List Edge → CommitId → List CommitId → List Edge
unfolding add_edge
add_edges edges child [] = edges
add_edges edges child (p ∷ ps) = add_edges (add_edge edges child p) child ps

-- INSERT OR IGNORE INTO commits
unfoldable pub add_commit : Tables → CommitId → ℕ → Tables
unfolding seq_in
add_commit t id created_at_ms = elim (seq_in t.commits id) [
  | some _ ↦ t
  | none ↦ record t {
    commits = t.commits ++ record { seq = t.next_seq; id = id; created_at_ms = created_at_ms } ∷ [];
    next_seq = t.next_seq + 1;
  }
]

-- `insert_commit`: the tables, the key of the commit, and whether it is new
unfoldable pub insert_commit :
    Tables → CommitId → ℕ → List CommitId → Result (Tables × ℕ × Bool) StorageError
unfolding check_parents add_commit add_edges millis_param
insert_commit t id created_at_ms parents = do
  check_parents t.commits parents
  ms ← millis_param created_at_ms
  let added = add_commit t id ms
  seq ← ok_or (seq_in added.commits id) backend
  ok (
    record added { edges = add_edges added.edges id parents },
    seq,
    elim (seq_in t.commits id) [ none ↦ true | some _ ↦ false ],
  )

-- INSERT_CHUNK_SQL, which the primary key refuses for a second row of a coordinate
unfoldable pub insert_chunk :
    List HistoryRow
    → CommitId
    → ℕ
    → ChunkCoord
    → Option ChunkHash
    → Result (List HistoryRow) StorageError
insert_chunk history commit seq coord blob =
    if any (λ (r : HistoryRow). r.commit == commit && r.coord == coord) history
    then err backend
    else ok (history ++ record { commit = commit; seq = seq; coord = coord; blob = blob } ∷ [])

unfoldable pub insert_chunks :
    List HistoryRow → CommitId → ℕ → List CommitEntry → Result (List HistoryRow) StorageError
unfolding insert_chunk
insert_chunks history commit seq [] = ok history
insert_chunks history commit seq (e ∷ es) = do
  next ← insert_chunk history commit seq e.coord e.blob
  insert_chunks next commit seq es

unfoldable pub record_chunk :
    Tables → CommitId → ChunkCoord → Option ChunkHash → Result Tables StorageError
unfolding insert_chunk
record_chunk t commit coord blob = do
  seq ← ok_or (seq_in t.commits commit) (unknown_commit commit)
  history ← insert_chunk t.history commit seq coord blob
  ok (record t { history = history })

-- SELECT commit_id FROM refs WHERE active = 1
unfoldable pub active_target : List (RefName × RefRow) → Option (Option CommitId)
active_target [] = none
active_target ((name, row) ∷ rows) = if row.active then some row.commit else active_target rows

-- UPDATE refs SET commit_id = ? WHERE active = 1
unfoldable pub move_active : List (RefName × RefRow) → CommitId → List (RefName × RefRow)
move_active [] id = []
move_active ((name, row) ∷ rows) id =
    (name, if row.active then record row { commit = some id } else row) ∷ move_active rows id

-- the check that the commit continues the target of the active ref
unfoldable pub check_active :
    List (RefName × RefRow) → List CommitId → Result (Unit {0}) StorageError
unfolding active_target
check_active refs parents = elim (active_target refs) [
  | none ↦ err no_active_ref
  | some target ↦ elim target [
    | none ↦ ok tt
    | some base ↦ refuse (not (contains parents base)) (not_continuing base)
  ]
]

module _ (hash_bytes : List ℕ → List ℕ) where
  unfoldable pub create_commit :
      Tables → ℕ → List CommitId → Result (Tables × CommitId) StorageError
  unfolding insert_commit
  create_commit t created_at_ms parents = do
    let id = commit_hash hash_bytes parents created_at_ms []
    done ← insert_commit t id created_at_ms parents
    ok (done.0, id)

  unfoldable pub apply_commit_incremental :
      Tables → ℕ → List CommitId → List CommitEntry → Result (Tables × CommitId) StorageError
  unfolding check_active insert_commit insert_chunks move_active
  apply_commit_incremental t created_at_ms parents entries = do
    let commit = commit_hash hash_bytes parents created_at_ms entries
    check_active t.refs parents
    done ← insert_commit t commit created_at_ms parents
    let (added, seq, inserted) = done
    history ←
        (if inserted then insert_chunks added.history commit seq entries else ok added.history)
    ok (record added { history = history; refs = move_active added.refs commit }, commit)
