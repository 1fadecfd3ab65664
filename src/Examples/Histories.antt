-- ===== src/Examples/Histories.antt =====
-- The history of a merge, statistics of its rows, and references to commits.
use sekai.Base.{
  ℕ, ◌≡◌, ◌⊎◌, ◌↔◌, refl, true, none, some, List, [], ◌∷◌, map, contains, replicate, if◌then◌else◌,
  ◌==◌, arith,
}
use sekai.Base.Int.{pos}
use sekai.Base.Outcome.{ok, err}
use sekai.Base.Set.{insert}
use sekai.Util.Coord.{ChunkCoord, region, overworld}
use sekai.Util.Hash.{CommitId, commit_id_ord}
use sekai.Util.Name.{RefName, ref_name_ord}
use sekai.Util.Commit.{Commit, ChunkHistoryEntry}
use sekai.Util.Hex.{hex_into}
use sekai.Examples.Graphs.{root, merge, history, all_commits, merge_known, whole_here}
use sekai.Core.Port.{MetaStore}
use sekai.Core.Graph.{commit_history, commit_stats, latest_commit_id, unknown_commit}
use sekai.Core.Graph.Level.{Distinct, Ancestor}
use sekai.Core.Graph.History.{HasRecords, commit_history_exact}
use sekai.Core.Graph.Resolve
use sekai.Core.Graph.Resolve.{resolve_commit_ref, unknown_ref, unborn_ref, invalid_ref}

abbrev record_of : CommitId → Commit
record_of id = record { id = id; created_at_ms = 3000; parents = history id }

-- "main" and "new"
abbrev main : RefName
main = record { chars = 109 ∷ 97 ∷ 105 ∷ 110 ∷ [] }

abbrev new : RefName
new = record { chars = 110 ∷ 101 ∷ 119 ∷ [] }

abbrev at : ℕ → ChunkCoord
at x = record { dim = overworld; kind = region; x = pos x; z = pos 0 }

abbrev present : ℕ → ChunkHistoryEntry
present x = record { coord = at x; commit = merge; blob = some (record { bytes = 7 ∷ [] }) }

abbrev fresh_rows : List ChunkHistoryEntry
fresh_rows = present 0 ∷ record { coord = at 1; commit = merge; blob = none } ∷ present 2 ∷ []

abbrev kept_row : ChunkHistoryEntry
kept_row = record { coord = at 3; commit = root; blob = some (record { bytes = 8 ∷ [] }) }

abbrev store_meta : MetaStore (List CommitId) ℕ
store_meta = record {
  commit_parents = λ s id. ok (history id);
  latest_commit = λ s. ok (some (record_of merge));
  visit_fresh_rows = λ s id. ok fresh_rows;
  visit_commits = λ s. ok (map record_of s);
  visit_commit_chunks = λ s id. ok (kept_row ∷ fresh_rows);
  lookup_commit = λ s id. ok (if contains s id then some (record_of id) else none);
  active_ref = λ s. ok none;
  lookup_ref = λ s name.
      ok (if name == main then some (some merge) else if name == new then some none else none);
  apply_commit_incremental = λ s ms ps rows. (s, ok merge);
  retire_commit = λ s from into. (s, ok (record { folded = 0; dropped = 0 }));
}

store_meta-HasRecords : HasRecords store_meta record_of all_commits all_commits
store_meta-HasRecords = record { stored = λ a here. rw here refl; whole = whole_here }

commit_history_exact_example :
    (rest : List CommitId) × (commit_history store_meta all_commits 5 merge
      ≡ some (ok (map record_of (merge ∷ rest))))
    × Distinct (merge ∷ rest)
    × ((a : CommitId)
        → (contains (merge ∷ rest) a ≡ true) ↔ ((a ≡ merge) ⊎ Ancestor history merge a))
commit_history_exact_example =
    commit_history_exact store_meta record_of all_commits all_commits 5 merge store_meta-HasRecords
      merge_known (omega arith)

-- one chunk twice with the same content, a tombstone, and a chunk kept from before
stats_of_merge :
    commit_stats store_meta all_commits merge
    ≡ ok (record { fresh_chunks = 2; fresh_tombstones = 1; new_blobs = 1; effective_chunks = 3 })
unfolding commit_stats insert
stats_of_merge = refl

latest_of_store : latest_commit_id store_meta all_commits ≡ ok (some merge)
unfolding latest_commit_id
latest_of_store = refl

-- a history that misses a commit is an error
broken_history : commit_history store_meta [] 5 merge ≡ some (err (unknown_commit merge))
unfolding commit_history contains
broken_history = refl

resolve_main : resolve_commit_ref store_meta all_commits main.chars ≡ ok merge
unfolding resolve_commit_ref
resolve_main = refl

resolve_new : resolve_commit_ref store_meta all_commits new.chars ≡ err (unborn_ref new)
unfolding resolve_commit_ref
resolve_new = refl

-- "head" is no name, and "mai" names no ref
resolve_head :
    resolve_commit_ref store_meta all_commits (104 ∷ 101 ∷ 97 ∷ 100 ∷ [])
    ≡ err (invalid_ref (104 ∷ 101 ∷ 97 ∷ 100 ∷ []))
unfolding resolve_commit_ref
resolve_head = refl

resolve_other :
    resolve_commit_ref store_meta all_commits (109 ∷ 97 ∷ 105 ∷ [])
    ≡ err (unknown_ref (record { chars = 109 ∷ 97 ∷ 105 ∷ [] }))
unfolding resolve_commit_ref
resolve_other = refl

-- a printed commit identifier is looked up as one
resolve_printed :
    resolve_commit_ref store_meta all_commits (hex_into (replicate 32 7))
    ≡ err (Resolve.unknown_commit (record { bytes = replicate 32 7 }))
unfolding resolve_commit_ref hex_into replicate contains
resolve_printed = refl
