-- ===== src/Core/Graph.antt =====
-- crates/core/src/usecase/graph.rs: reading the commit graph.
pub mod Level
pub mod Walk
pub mod Ancestors
pub mod History
pub mod Resolve
use sekai.Base.{
  ℕ, zero, suc, ◌+◌, Bool, true, false, Option, none, some, List, [], ◌∷◌, ◌++◌, contains, length,
  if◌then◌else◌,
}
use mathlib.Core.Option
use sekai.Base.Outcome.{Result, ok, err, map_err, ok_or, ◌>>=◌}
use sekai.Base.Set
use sekai.Util.Hash.{ChunkHash, CommitId, chunk_hash_ord, commit_id_ord}
use sekai.Util.Commit.{Commit, ChunkHistoryEntry}
use sekai.Core.Port.{MetaStore}

pub data CommitError (M : Type 0) : Type 0 where
  meta : M → CommitError M
  unknown_commit : CommitId → CommitError M

-- the commits seen, the order so far, and the next level
abbrev pub Walk : Type 0
Walk = List CommitId × List CommitId × List CommitId

pub record CommitStats : Type 0 where
  pub fresh_chunks : ℕ
  pub fresh_tombstones : ℕ
  pub new_blobs : ℕ
  pub effective_chunks : ℕ

-- the visitor of the fresh rows: the chunks and tombstones counted, and the blobs
unfoldable pub count_fresh :
    List ChunkHistoryEntry → ℕ × ℕ × List ChunkHash → ℕ × ℕ × List ChunkHash
count_fresh [] counted = counted
count_fresh (entry ∷ rows) (chunks, tombstones, blobs) = elim entry.blob [
  | some blob ↦ count_fresh rows (chunks + 1, tombstones, Set.insert blob blobs)
  | none ↦ count_fresh rows (chunks, tombstones + 1, blobs)
]

-- the visitor of the effective rows
unfoldable pub count_effective : List ChunkHistoryEntry → ℕ → ℕ
count_effective [] n = n
count_effective (entry ∷ rows) n = elim entry.blob [
  | some blob ↦ count_effective rows (n + 1)
  | none ↦ count_effective rows n
]

-- `for parent in … { if !seen.contains(&parent) { next.insert(parent); } }`
unfoldable pub add_parents : List CommitId → List CommitId → List CommitId → List CommitId
add_parents seen [] next = next
add_parents seen (p ∷ ps) next =
    add_parents seen ps (if contains seen p then next else Set.insert p next)

module _ {Store M : Type 0} (m : MetaStore Store M) where
  unfoldable pub list_commits : Store → Result (List Commit) (CommitError M)
  list_commits store = map_err meta (m.visit_commits store)

  unfoldable pub lookup_record : Store → CommitId → Result Commit (CommitError M)
  lookup_record store commit = do
    found ← map_err meta (m.lookup_commit store commit)
    ok_or found (unknown_commit commit)

  unfoldable pub commit_parents : Store → CommitId → Result (List CommitId) (CommitError M)
  unfolding lookup_record
  commit_parents store commit = do record_ ← lookup_record store commit; ok record_.parents

  -- the `for` loop of `commit_ancestors` over one level
  unfoldable pub visit_level : Store → List CommitId → Walk → Result Walk (CommitError M)
  unfolding add_parents
  visit_level store [] walk = ok walk
  visit_level store (id ∷ ids) (seen, order, next) = elim (contains seen id) [
    | true ↦ visit_level store ids (seen, order, next)
    | false ↦ elim (m.commit_parents store id) [
      | err e ↦ err (meta e)
      | ok parents ↦
          visit_level store ids
            (Set.insert id seen, order ++ id ∷ [], add_parents (Set.insert id seen) parents next)
    ]
  ]

  -- its `while` loop; `none` means that the fuel ran out
  unfoldable pub visit_levels :
      Store
      → ℕ
      → List CommitId
      → List CommitId
      → List CommitId
      → Option (Result (List CommitId) (CommitError M))
  unfolding visit_level
  visit_levels store zero seen order level = none
  visit_levels store (suc fuel) seen order [] = some (ok order)
  visit_levels store (suc fuel) seen order (id ∷ ids) =
      elim (visit_level store (id ∷ ids) (seen, order, [])) [
        | err e ↦ some (err e)
        | ok walk ↦ visit_levels store fuel walk.0 walk.1 walk.2
      ]

  unfoldable pub commit_ancestors :
      Store → ℕ → CommitId → Option (Result (List CommitId) (CommitError M))
  unfolding lookup_record visit_levels
  commit_ancestors store fuel commit = elim (lookup_record store commit) [
    | err e ↦ some (err e)
    | ok found ↦ visit_levels store fuel [] [] (Set.from found.parents)
  ]

  -- the `for` loop of `commit_history` over one level: the commits seen, the records, the next level
  unfoldable pub history_level :
      Store
      → List CommitId
      → List CommitId × List Commit × List CommitId
      → Result (List CommitId × List Commit × List CommitId) (CommitError M)
  unfolding add_parents lookup_record
  history_level store [] walk = ok walk
  history_level store (id ∷ ids) (seen, out, next) = elim (contains seen id) [
    | true ↦ history_level store ids (seen, out, next)
    | false ↦ elim (lookup_record store id) [
      | err e ↦ err e
      | ok record_ ↦ history_level store ids (
        Set.insert id seen,
        out ++ record_ ∷ [],
        add_parents (Set.insert id seen) record_.parents next,
      )
    ]
  ]

  -- its `while` loop; `none` means that the fuel ran out
  unfoldable pub history_levels :
      Store
      → ℕ
      → List CommitId
      → List Commit
      → List CommitId
      → Option (Result (List Commit) (CommitError M))
  unfolding history_level
  history_levels store zero seen out level = none
  history_levels store (suc fuel) seen out [] = some (ok out)
  history_levels store (suc fuel) seen out (id ∷ ids) =
      elim (history_level store (id ∷ ids) (seen, out, [])) [
        | err e ↦ some (err e)
        | ok walk ↦ history_levels store fuel walk.0 walk.1 walk.2
      ]

  unfoldable pub commit_history :
      Store → ℕ → CommitId → Option (Result (List Commit) (CommitError M))
  unfolding history_levels
  commit_history store fuel commit = history_levels store fuel [] [] (commit ∷ [])

  unfoldable pub commit_stats : Store → CommitId → Result CommitStats (CommitError M)
  unfolding count_fresh count_effective
  commit_stats store commit = do
    fresh ← map_err meta (m.visit_fresh_rows store commit)
    effective ← map_err meta (m.visit_commit_chunks store commit)
    let counted = count_fresh fresh (0, 0, [])
    ok (record {
      fresh_chunks = counted.0;
      fresh_tombstones = counted.1;
      new_blobs = length counted.2;
      effective_chunks = count_effective effective 0;
    })

  unfoldable pub latest_commit_id : Store → Result (Option CommitId) (CommitError M)
  latest_commit_id store = do
    commit ← map_err meta (m.latest_commit store)
    ok (Option.map (λ (c : Commit). c.id) commit)
