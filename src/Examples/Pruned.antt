-- ===== src/Examples/Pruned.antt =====
-- The store of two commits, of which the older is pruned.
use sekai.Base.{ℕ, ◌≡◌, ◌↔◌, refl, true, List, [], ◌∷◌, contains, filter}
use sekai.Base.Outcome.{ok}
use sekai.Base.Set
use sekai.Base.Map
use sekai.Util.Hash.{CommitId, commit_id_ord}
use sekai.Util.Commit.{Commit}
use sekai.Core.Graph.Level.{Ancestor}
use sekai.Core.Prune.{continues, fold_target}
use sekai.Core.Prune.Ancestry.{parent_map, parents_at, retained_ancestry}
use sekai.Core.Prune.Ancestry.Table.{retained_ancestry-exact}
use sekai.Core.Prune.Run.{PrunePlan, prune_plan, prune_apply}
use sekai.Core.Prune.Run.Planned.{Outcome, prune_plan-exact}
use sekai.Sqlite.{parents_in, seq_in, ancestors}
use sekai.Sqlite.Reads.{visit_commits}
use sekai.Sqlite.Writes.{add_edges}
use sekai.Sqlite.Retire.{retire_commit}
use sekai.Sqlite.Latest.{inherited}
use sekai.Sqlite.Store.{sqlite_meta, committed}
use sekai.Sqlite.Prune.Apply.{prune_apply-retained}
use sekai.Examples.Stores.{kept}
use sekai.Examples.Sqlite.{hash_bytes, first_id, second_id, two, folded, two-Healthy, two-Linear}

abbrev keep : List CommitId
keep = second_id ∷ []

abbrev plan : PrunePlan
plan = record { delete = first_id ∷ []; retained = keep }

abbrev count : ℕ → ℕ → ℕ → ℕ
count p done total = done

abbrev two_commits : List Commit
two_commits =
    record { id = first_id; created_at_ms = 10; parents = [] }
    ∷ record { id = second_id; created_at_ms = 20; parents = first_id ∷ [] }
    ∷ []

visited : (sqlite_meta hash_bytes).visit_commits two ≡ ok two_commits
unfolding visit_commits parents_in contains Set.from filter
visited = refl

pruned :
    prune_apply (sqlite_meta hash_bytes) count two plan 0
    ≡ (folded, 1, ok (record { pruned = 1; rows_folded = 0; rows_dropped = 1 }))
unfolding prune_apply retire_commit committed contains Set.from fold_target filter Map.get
    retained_ancestry Map.insert visit_commits parents_in seq_in ancestors add_edges
pruned = refl

second_kept : contains keep second_id ≡ true
unfolding contains
second_kept = refl

prune_apply-retained_example :
    inherited (prune_apply (sqlite_meta hash_bytes) count two plan 0).0 second_id kept
    ≡ inherited two second_id kept
prune_apply-retained_example =
    prune_apply-retained hash_bytes count two plan 0 two-Healthy.0 two-Linear second_id second_kept
      kept

retained_ancestry-exact_example :
    (continues (retained_ancestry two_commits keep) first_id second_id ≡ true)
    ↔ Ancestor (parents_at (parent_map two_commits [])) second_id first_id
retained_ancestry-exact_example =
    retained_ancestry-exact two_commits keep second_id first_id second_kept

prune_plan-exact_example : Outcome two_commits keep (prune_plan (sqlite_meta hash_bytes) two keep)
prune_plan-exact_example = prune_plan-exact (sqlite_meta hash_bytes) two keep two_commits visited
