-- ===== src/Core/Prune/Ancestry.antt =====
-- crates/core/src/usecase/prune.rs: the ancestors of the retained commits.
pub mod Exact
pub mod Table
use sekai.Base.{
  ℕ, zero, suc, ◌+◌, Bool, true, false, Option, none, some, List, [], ◌∷◌, ◌++◌, contains, length,
  ◌==◌,
}
use sekai.Base.Map
use sekai.Util.Hash.{CommitId, commit_id_ord}
use sekai.Util.Commit.{Commit}
use sekai.Core.Prune.{Ancestry}

abbrev pub Links : Type 0
Links = List (CommitId × List CommitId)

-- the parents of every commit, collected into a map
unfoldable pub parent_map : List Commit → Links → Links
parent_map [] m = m
parent_map (commit ∷ commits) m = parent_map commits (Map.insert commit.id commit.parents m)

-- `parents.get(&id)`, with no parents where there is none
unfoldable pub parents_at : Links → CommitId → List CommitId
parents_at m id = elim (Map.get m id) [ none ↦ [] | some parents ↦ parents ]

-- the `for` loop over one level: what was seen, and the next level
unfoldable pub walk_level :
    Links → List CommitId → List CommitId → List CommitId → List CommitId × List CommitId
unfolding parents_at
walk_level m [] seen next = (seen, next)
walk_level m (id ∷ ids) seen next = elim (contains seen id) [
  | true ↦ walk_level m ids seen next
  | false ↦ walk_level m ids (id ∷ seen) (next ++ parents_at m id)
]

-- the `while` loop
unfoldable pub walk_levels : Links → ℕ → List CommitId → List CommitId → List CommitId
unfolding walk_level
walk_levels m zero seen level = seen
walk_levels m (suc fuel) seen [] = seen
walk_levels m (suc fuel) seen (id ∷ ids) =
    let step = walk_level m (id ∷ ids) seen [] in walk_levels m fuel step.0 step.1

-- the ancestors of one retained commit
unfoldable pub ancestors_of : Links → CommitId → List CommitId
unfolding walk_levels parents_at
ancestors_of m keep = walk_levels m (length m + 2) [] (parents_at m keep)

unfoldable pub ancestry_of : Links → List CommitId → Ancestry
unfolding ancestors_of
ancestry_of m [] = []
ancestry_of m (keep ∷ retained) =
    let rest = ancestry_of m retained in Map.insert keep (ancestors_of m keep) rest

unfoldable pub retained_ancestry : List Commit → List CommitId → Ancestry
unfolding ancestry_of parent_map
retained_ancestry commits retained = ancestry_of (parent_map commits []) retained
