-- ===== src/Sqlite/Retire.antt =====
-- crates/storage-sqlite/src/meta.rs: `retire_commit`.
pub mod Descent
pub mod Sound
pub mod Linear
pub mod Retained
pub mod Effective
pub mod Rows
use sekai.Base.{
  ℕ, suc, ◌+◌, Bool, true, false, not, ◌&&◌, ◌||◌, Option, none, some, List, [], ◌∷◌, ◌++◌, map,
  any, contains, filter, length, ltb, leb, if◌then◌else◌, ◌==◌,
}
use sekai.Base.Outcome.{Result, ok, err, ok_or, refuse, ◌>>=◌, ◌>>◌}
use sekai.Util.Coord.{ChunkCoord, coord_ord}
use sekai.Util.Hash.{ChunkHash, CommitId, commit_id_ord}
use sekai.Util.Commit.{FoldOutcome}
use sekai.Util.Name.{RefName}
use sekai.Sqlite.{
  CommitRow, HistoryRow, Edge, RefRow, Tables, StorageError, unknown_commit, invalid_retirement,
  unrelated_retirement, seq_in, parents_in, ancestors,
}
use sekai.Sqlite.Writes.{add_edges}

-- whether a row of the retired commit is superseded along the history of the successor
unfoldable pub is_superseded : List HistoryRow → List CommitId → CommitId → ℕ → HistoryRow → Bool
is_superseded history ids from from_seq row =
    row.commit == from
    && any
        (λ (r : HistoryRow). r.coord == row.coord && (ltb from_seq r.seq && contains ids r.commit))
        history

-- UPDATE chunk_history SET commit_id = ?2, seq = ?3 WHERE commit_id = ?1
abbrev pub restamp : CommitId → CommitId → ℕ → HistoryRow → HistoryRow
restamp from into into_seq row =
    if row.commit == from then record row { commit = into; seq = into_seq } else row

-- RETIRE_SUPERSEDED_SQL, then the update
unfoldable pub fold_rows :
    List HistoryRow → List CommitId → CommitId → ℕ → CommitId → ℕ → List HistoryRow
unfolding is_superseded
fold_rows history ids from from_seq into into_seq =
    map (restamp from into into_seq)
      (filter (λ row. not (is_superseded history ids from from_seq row)) history)

abbrev pub retarget : CommitId → CommitId → Option CommitId → Option CommitId
retarget from into none = none
retarget from into (some target) = if target == from then some into else some target

-- UPDATE refs SET commit_id = ?2 WHERE commit_id = ?1
unfoldable pub follow : CommitId → CommitId → List (RefName × RefRow) → List (RefName × RefRow)
follow from into [] = []
follow from into ((name, row) ∷ rows) =
    (name, record row { commit = retarget from into row.commit }) ∷ follow from into rows

-- INSERT OR IGNORE INTO commit_parents: the children of the retired commit inherit its parents
unfoldable pub adopt : List Edge → CommitId → List Edge → List Edge
adopt edges from [] = edges
adopt edges from (e ∷ es) =
    adopt (if e.1 == from then add_edges edges e.0 (parents_in edges from) else edges) from es

-- DELETE FROM commit_parents WHERE child_id = ?1 OR parent_id = ?1
unfoldable pub cut : List Edge → CommitId → List Edge
cut edges from = filter (λ (e : Edge). not (e.0 == from || e.1 == from)) edges

unfoldable pub count_rows : (HistoryRow → Bool) → List HistoryRow → ℕ
count_rows p rows = length (filter p rows)

-- the transaction, once the checks have passed
unfoldable pub fold_commit : Tables → CommitId → ℕ → CommitId → ℕ → Tables
unfolding fold_rows follow adopt cut
fold_commit t from from_seq into into_seq = record t {
  history = fold_rows t.history (ancestors t.edges into) from from_seq into into_seq;
  refs = follow from into t.refs;
  edges = cut (adopt t.edges from t.edges) from;
  commits = filter (λ (row : CommitRow). not (row.id == from)) t.commits;
}

unfoldable pub retire_commit :
    Tables → CommitId → CommitId → Result (Tables × FoldOutcome) StorageError
unfolding fold_commit is_superseded count_rows
retire_commit t from into = do
  from_seq ← ok_or (seq_in t.commits from) (unknown_commit from)
  into_seq ← ok_or (seq_in t.commits into) (unknown_commit into)
  refuse (leb into_seq from_seq) (invalid_retirement from into)
  refuse (not (contains (ancestors t.edges into) from)) (unrelated_retirement from into)
  let ids = ancestors t.edges into
  let superseded = is_superseded t.history ids from from_seq
  ok (
    fold_commit t from from_seq into into_seq,
    record {
      folded = count_rows (λ row. row.commit == from && not (superseded row)) t.history;
      dropped = count_rows superseded t.history;
    },
  )
