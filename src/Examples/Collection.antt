-- ===== src/Examples/Collection.antt =====
-- Garbage collection on the stores in memory.
use sekai.Base.{ℕ, ◌+◌, ◌≤◌, ◌≡◌, refl, true, not, ◌&&◌, List, [], ◌∷◌, contains}
use sekai.Base.Outcome.{ok}
use sekai.Util.Hash.{ChunkHash, chunk_hash_ord}
use sekai.Util.Commit.{Commit, GcPlan}
use sekai.Core.Gc.{GcReport, gc_plan, gc_apply}
use sekai.Core.Gc.Orphans.{commits_name, gc_plan_exact}
use sekai.Core.Gc.Apply.{gc_apply_safe}
use sekai.Examples.Stores.{
  live, orphan, first_commit, first_rows, mem_meta, mem_blobs, mem_blobs-BlobLaws,
}

abbrev blobs : List ChunkHash
blobs = live ∷ orphan ∷ []

abbrev commits : List Commit
commits = first_commit ∷ []

abbrev stale_plan : GcPlan
stale_plan = record { orphans = orphan ∷ live ∷ []; examined = 2 }

abbrev count_calls : ℕ → ℕ → ℕ → ℕ
count_calls n done total = n + 1

gc_plan_exact_example :
    (plan : GcPlan) × (gc_plan mem_blobs mem_meta blobs commits ≡ ok plan)
    × (plan.examined ≡ 2)
    × ((h : ChunkHash)
        → contains plan.orphans h ≡ (contains blobs h && not (commits_name first_rows commits h)))
gc_plan_exact_example =
    gc_plan_exact mem_blobs mem_meta blobs commits commits first_rows blobs (refl, (refl, tt)) refl

gc_apply_safe_example :
    ((h : ChunkHash)
      → commits_name first_rows commits h ≡ true
      → contains (gc_apply mem_blobs mem_meta count_calls blobs commits stale_plan 0).0 h
        ≡ contains blobs h)
    × ((report : GcReport)
        → (gc_apply mem_blobs mem_meta count_calls blobs commits stale_plan 0).2 ≡ ok report
        → (report.candidates ≡ 2)
          × (report.removed ≤ report.orphans)
          × (report.orphans ≤ 2)
          × ((h : ChunkHash)
              → contains (gc_apply mem_blobs mem_meta count_calls blobs commits stale_plan 0).0 h
                ≡ (contains blobs h
                    && not (
                        contains stale_plan.orphans h && not (commits_name first_rows commits h)))))
gc_apply_safe_example =
    gc_apply_safe mem_blobs mem_meta (λ s. s) mem_blobs-BlobLaws count_calls blobs commits commits
      first_rows stale_plan 0 (refl, (refl, tt)) refl
